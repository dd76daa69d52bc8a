-- ===== src/Mailbox.antt =====
-- utils/mailbox.py: the mailbox, a directory with an inbox for each window. A message file is the
-- message that `from_dict` reads from it, or corrupt if it cannot be read; of the other entries of
-- an inbox only `tmp` is kept, by the names of its files. A file is written whole or not at all.
-- `os.scandir` gives the entries in the order of the dict, and a file once found is still there.
pub mod Names
pub mod Messages
pub mod Sending
pub mod Sweeping
mod Tests
use unified_icc.Base.{
  ℕ, ◌+◌, ◌*◌, ◌<>◌, String, Bool, true, false, not, ◌&&◌, ◌||◌, Option, none, some, List, [], ◌∷◌,
  ◌++◌, if◌then◌else◌, ◌==◌, ltb, truthy, or_default, starts_with, contains, add, collect, select,
}
use unified_icc.Base.Dict.{Dict, get, put, keys}
use unified_icc.Base.Text.{ends_with}
use unified_icc.Mailbox.Names.{sanitize_dir_name, has_traversal}
use unified_icc.Mailbox.Messages.{Message, to_dict, from_dict}

pub data File : Type 0 where
  holds : Message → File
  corrupt : File

pub record Inbox : Type 0 where
  pub files : Dict File
  pub tmp : Option (List String)

-- The directories under `base_dir`.
abbrev pub Mailbox : Type 0
Mailbox = Dict Inbox

-- What is raised is a ValueError or an OSError.
pub data Result {ℓ} (A : Type ℓ) : Type ℓ where
  raised : Result A
  returned : A → Result A

abbrev pub new_inbox : Inbox
new_inbox = record { files = []; tmp = none }

-- `inbox.mkdir(parents=True, exist_ok=True)` and what it contains
abbrev pub inbox_at : String → Mailbox → Inbox
inbox_at dir box = or_default (get dir box) new_inbox

-- What is read again of a message that is written: `from_dict` of its `to_dict`.
file_of : Option Message → File
file_of none = corrupt
file_of (some msg) = holds msg

unfoldable pub written_file : Message → File
unfolding file_of
written_file msg = file_of (from_dict (to_dict msg))

-- `_atomic_write_message`, which makes `tmp`.
unfoldable pub write_message : String → String → Message → Mailbox → Mailbox
write_message dir name msg box =
    let inbox = inbox_at dir box in
    put dir
      (record {
        files = put name (written_file msg) inbox.files;
        tmp = some (or_default inbox.tmp []);
      })
      box

-- `f"{msg_id}.json"`
abbrev pub file_name : String → String
file_name msg_id = msg_id <> ".json"

message_in : Option File → Option Message
message_in (some (holds msg)) = some msg
message_in _ = none

-- `_find_message` in an inbox, if it is there
unfoldable pub message_at : String → String → Mailbox → Option Message
unfolding message_in
message_at dir name box = message_in (get name (inbox_at dir box).files)

-- `_find_message`: the message, and the path of its file.
unfoldable pub find_message :
    String → String → Mailbox → Result (Option (Message × String × String))
find_message msg_id window_id box =
    if has_traversal msg_id then raised else elim (sanitize_dir_name window_id) [
      | none ↦ raised
      | some dir ↦ elim (message_at dir (file_name msg_id) box) [
        | none ↦ returned none
        | some msg ↦ returned (some (msg, dir, file_name msg_id))
      ]
    ]

unfoldable pub get_message : String → String → Mailbox → Result (Option Message)
get_message msg_id window_id box = elim (find_message msg_id window_id box) [
  | raised ↦ raised
  | returned none ↦ returned none
  | returned (some (msg, _, _)) ↦ returned (some msg)
]

-- A message that is found is changed and written again.
abbrev update_found :
    (Message → Message)
    → Result (Option (Message × String × String))
    → Mailbox
    → Result (Option Message) × Mailbox
update_found f raised box = (raised, box)
update_found f (returned none) box = (returned none, box)
update_found f (returned (some (msg, dir, name))) box =
    (returned (some (f msg)), write_message dir name (f msg) box)

-- `now` is `_now_iso()`.
module _ (now : String) where
  abbrev pub as_read : Message → Message
  as_read msg = record msg { status = "read"; read_at = some now }

  unfoldable pub read : String → String → Mailbox → Result (Option Message) × Mailbox
  read msg_id window_id box = update_found as_read (find_message msg_id window_id box) box

  abbrev pub as_delivered : Message → Message
  as_delivered msg = record msg { status = "delivered"; delivered_at = some now }

  unfoldable pub mark_delivered : String → String → Mailbox → Result (Option Message) × Mailbox
  mark_delivered msg_id window_id box =
      update_found as_delivered (find_message msg_id window_id box) box

-- `elapsed` gives the microseconds since a time, 0 for a time to come.
module _ (elapsed : String → ℕ) where
  unfoldable pub is_expired : Message → Bool
  is_expired msg =
      if truthy msg.created_at
      then ltb (msg.ttl_minutes * 60 * 1000000) (elapsed msg.created_at)
      else true

-- The entries of an inbox that are read: `endswith(".json")` and not `startswith(".")`
abbrev pub is_message_name : String → Bool
is_message_name name = ends_with name ".json" && not (starts_with name ".")
