-- ===== src/Mailbox/Sending.antt =====
-- utils/mailbox.py: sending, replying, broadcasting and listing. A stamp is what `_make_id` and
-- `_now_iso` give for a message; `is_file` is `Path.is_file`.
pub mod Laws
use Prim.Native.Nat.{Ordering}
use Prim.Native.String.{len, compare}
use unified_icc.Base.{
  ℕ, ◌+◌, ◌*◌, ◌<>◌, String, Bool, true, false, not, ◌&&◌, ◌||◌, Option, none, some, List, [], ◌∷◌,
  ◌++◌, if◌then◌else◌, ◌==◌, ltb, truthy, or_default, is_some, contains, collect, select,
}
use unified_icc.Base.Dict.{Dict, get, put, keys}
use unified_icc.Mailbox.Names.{sanitize_dir_name}
use unified_icc.Mailbox.Messages.{Message}
use unified_icc.Mailbox.{
  Mailbox, Inbox, inbox_at, File, holds, corrupt, Result, raised, returned, write_message,
  message_at, find_message, file_name, is_expired, is_message_name,
}

abbrev pub body_size_limit : ℕ
body_size_limit = 10240

abbrev pub default_ttl : Dict ℕ
default_ttl = ("request", 60) ∷ ("reply", 120) ∷ ("notify", 240) ∷ ("broadcast", 480) ∷ []

pub record Stamp : Type 0 where
  pub id : String
  pub now : String

-- The keyword arguments of `send`.
pub record Options : Type 0 where
  pub msg_type : String
  pub subject : String
  pub ttl_minutes : Option ℕ
  pub reply_to : Option String
  pub file_path : Option String
  pub context : Dict String

abbrev pub default_options : Options
default_options = record {
  msg_type = "request";
  subject = "";
  ttl_minutes = none;
  reply_to = none;
  file_path = none;
  context = [];
}

abbrev pub reply_options : String → Options
reply_options msg_id = record default_options { msg_type = "reply"; reply_to = some msg_id }

-- `if file_path:`
abbrev pub has_file : Options → Bool
has_file o = truthy (or_default o.file_path "")

abbrev pub body_of : Options → String → String
body_of o body = if has_file o then "[file:" <> (or_default o.file_path "" <> "]") else body

abbrev pub message_of : Stamp → String → String → String → Options → Message
message_of stamp from_id to_id body o = record {
  id = stamp.id;
  from_id = from_id;
  to_id = to_id;
  kind = o.msg_type;
  body = body_of o body;
  subject = o.subject;
  reply_to = o.reply_to;
  file_path = o.file_path;
  context = o.context;
  created_at = stamp.now;
  delivered_at = none;
  read_at = none;
  status = "pending";
  ttl_minutes = or_default o.ttl_minutes (or_default (get o.msg_type default_ttl) 0);
}

module _ (is_file : String → Bool) where
  -- Whether `send` raises before it makes a message.
  unfoldable pub is_refused : String → Options → Bool
  is_refused body o =
      not (is_some (get o.msg_type default_ttl))
      || (if has_file o
          then not (is_file (or_default o.file_path ""))
          else ltb body_size_limit (len body))

  unfoldable pub send :
      Stamp → String → String → String → Options → Mailbox → Result Message × Mailbox
  send stamp from_id to_id body o box =
      let msg = message_of stamp from_id to_id body o in
      if is_refused body o then (raised, box) else elim (sanitize_dir_name to_id) [
        | none ↦ (raised, box)
        | some dir ↦ (returned msg, write_message dir (file_name stamp.id) msg box)
      ]

  -- The answer to a message that is found: the message is marked before the reply is sent.
  unfoldable pub answer :
      Stamp
      → String
      → String
      → String
      → Result (Option (Message × String × String))
      → Mailbox
      → Result (Option Message) × Mailbox
  answer stamp msg_id window_id body raised box = (raised, box)
  answer stamp msg_id window_id body (returned none) box = (returned none, box)
  answer stamp msg_id window_id body (returned (some (original, dir, name))) box =
      let marked = write_message dir name (record original { status = "replied" }) box in
      let (result, sent) =
        send stamp window_id original.from_id body (reply_options msg_id) marked in
      (elim result [ raised ↦ raised | returned msg ↦ returned (some msg) ], sent)

  unfoldable pub reply :
      Stamp → String → String → String → Mailbox → Result (Option Message) × Mailbox
  reply stamp msg_id window_id body box =
      answer stamp msg_id window_id body (find_message msg_id window_id box) box

  abbrev keep_sent : Result Message → List Message → List Message
  keep_sent raised sent = sent
  keep_sent (returned msg) sent = msg ∷ sent

  -- Each recipient comes with the stamp that is made at its turn.
  unfoldable pub broadcast :
      String → List (String × Stamp) → String → Options → Mailbox → List Message × Mailbox
  broadcast from_id [] body o box = ([], box)
  broadcast from_id ((to_id, stamp) ∷ rest) body o box =
      let (result, box') =
        send stamp from_id to_id body (record o { msg_type = "broadcast"; reply_to = none }) box in
      let (sent, box'') = broadcast from_id rest body o box' in (keep_sent result sent, box'')

-- `sorted(..., key=lambda e: e.name)`
abbrev is_after : String → String → Bool
is_after s t = elim (compare s t) [ Ordering.gt ↦ true | _ ↦ false ]

unfoldable pub insert_name : String → List String → List String
insert_name x [] = x ∷ []
insert_name x (y ∷ ys) =
    let rest = insert_name x ys in if is_after x y then y ∷ rest else x ∷ y ∷ ys

unfoldable pub sorted : List String → List String
sorted [] = []
sorted (x ∷ xs) = insert_name x (sorted xs)

abbrev pub waiting_statuses : List String
waiting_statuses = "pending" ∷ "delivered" ∷ []

abbrev pub is_waiting : Message → Bool
is_waiting msg = contains msg.status waiting_statuses

module _ (elapsed : String → ℕ) where
  -- The message of a file, if it is one that is listed.
  abbrev pub listed : (Message → Bool) → Option File → List Message
  listed shown (some (holds msg)) =
      if is_expired elapsed msg then [] else if shown msg then msg ∷ [] else []
  listed shown _ = []

  unfoldable pub list_files : (Message → Bool) → List String → Dict File → List Message
  list_files shown [] files = []
  list_files shown (name ∷ names) files =
      let rest = list_files shown names files in
      if is_message_name name then listed shown (get name files) ++ rest else rest

  -- `none` is the ValueError of the id.
  list_inbox : (Message → Bool) → Option String → Mailbox → Result (List Message)
  list_inbox shown none box = raised
  list_inbox shown (some dir) box =
      let files = (inbox_at dir box).files in
      returned (list_files shown (sorted (keys files)) files)

  unfoldable pub inbox : String → Mailbox → Result (List Message)
  unfolding list_inbox
  inbox window_id box = list_inbox is_waiting (sanitize_dir_name window_id) box

  unfoldable pub all_messages : String → Mailbox → Result (List Message)
  unfolding list_inbox
  all_messages window_id box = list_inbox (λ msg. true) (sanitize_dir_name window_id) box
