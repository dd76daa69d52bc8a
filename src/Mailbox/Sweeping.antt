-- ===== src/Mailbox/Sweeping.antt =====
-- utils/mailbox.py: removing what is over, moving what was renamed, and finding what was not
-- delivered.
pub mod Laws
use unified_icc.Base.{
  ℕ, ◌+◌, ◌<>◌, String, Bool, true, false, not, ◌&&◌, ◌||◌, Option, none, some, List, [], ◌∷◌, ◌++◌,
  if◌then◌else◌, ◌==◌, truthy, or_default, is_some, contains, collect, select, any, length,
  starts_with,
}
use unified_icc.Base.Dict.{Dict, get, put, pop, pop_all, keys, has}
use unified_icc.Base.Text.{ends_with, remove_prefix, remove_suffix, contains_text}
use unified_icc.Mailbox.Names.{sanitize_dir_name, unsanitize_dir_name}
use unified_icc.Mailbox.Messages.{Message}
use unified_icc.Mailbox.{
  Mailbox, Inbox, inbox_at, File, holds, corrupt, Result, raised, returned, is_expired,
  is_message_name,
}

abbrev pub sweepable_statuses : List String
sweepable_statuses = "read" ∷ "replied" ∷ "expired" ∷ []

-- The directories that are no inboxes
abbrev pub is_inbox : String → Bool
is_inbox name = not (contains name ("tmp" ∷ "spawns" ∷ []))

-- A delivery file whose message is not there
abbrev pub is_left_over : List String → String → Bool
is_left_over live_ids name =
    starts_with name "deliver-"
    && (ends_with name ".txt"
        && not (contains (remove_suffix ".txt" (remove_prefix "deliver-" name)) live_ids))

module _ (elapsed : String → ℕ) where
  -- `_sweep_entry`, of a file that is there
  abbrev pub is_over : Option File → Bool
  is_over none = false
  is_over (some corrupt) = true
  is_over (some (holds msg)) = is_expired elapsed msg || contains msg.status sweepable_statuses

  abbrev pub is_swept : Dict File → String → Bool
  is_swept files name = is_message_name name && is_over (get name files)

  -- `_sweep_dir` and `_sweep_tmp`
  unfoldable pub sweep_dir : Inbox → ℕ × Inbox
  sweep_dir inbox =
      let names = keys inbox.files in
      let swept = select (is_swept inbox.files) names in
      let live_ids =
        collect (λ name. is_message_name name && not (is_swept inbox.files name))
          (remove_suffix ".json") names in
      let left_over = select (is_left_over live_ids) (or_default inbox.tmp []) in
      (
        length swept + length left_over,
        record {
          files = pop_all swept inbox.files;
          tmp = (elim inbox.tmp [
            | none ↦ none
            | some names ↦ some (select (λ name. not (is_left_over live_ids name)) names)
          ]);
        },
      )

  unfoldable pub sweep_all : Mailbox → ℕ × Mailbox
  sweep_all [] = (0, [])
  sweep_all ((dir, inbox) ∷ box) =
      let (removed, rest) = sweep_all box in
      let (n, swept) = sweep_dir inbox in
      if is_inbox dir then (n + removed, (dir, swept) ∷ rest) else (removed, (dir, inbox) ∷ rest)

  sweep_at : String → Option Inbox → Mailbox → Result ℕ × Mailbox
  sweep_at dir none box = (returned 0, box)
  sweep_at dir (some inbox) box =
      let (n, swept) = sweep_dir inbox in (returned n, put dir swept box)

  unfoldable pub sweep : Option String → Mailbox → Result ℕ × Mailbox
  unfolding sweep_at
  sweep window_id box =
      let wid = or_default window_id "" in
      if truthy wid
      then (elim (sanitize_dir_name wid) [
        | none ↦ (raised, box)
        | some dir ↦ sweep_at dir (get dir box) box
      ])
      else (let (n, swept) = sweep_all box in (returned n, swept))

  -- A message that waits, was never delivered and is old enough; `older` is whether a time lies
  -- before the cutoff.
  unfoldable pub is_undelivered : (String → Bool) → Message → Bool
  is_undelivered older msg =
      msg.status == "pending"
      && (not (is_some msg.delivered_at)
          && (not (is_expired elapsed msg) && (truthy msg.created_at && older msg.created_at)))

  abbrev undelivered_in : (String → Bool) → File → List Message
  undelivered_in older corrupt = []
  undelivered_in older (holds msg) = if is_undelivered older msg then msg ∷ [] else []

  -- `_collect_undelivered`
  unfoldable pub collect_undelivered : (String → Bool) → Dict File → List Message
  collect_undelivered older [] = []
  collect_undelivered older ((name, file) ∷ files) =
      let rest = collect_undelivered older files in
      if is_message_name name then undelivered_in older file ++ rest else rest

  unfoldable pub pending_undelivered : (String → Bool) → Mailbox → List Message
  pending_undelivered older [] = []
  pending_undelivered older ((dir, inbox) ∷ box) =
      let rest = pending_undelivered older box in
      if is_inbox dir then collect_undelivered older inbox.files ++ rest else rest

clear_at : String → Option Inbox → Mailbox → ℕ × Mailbox
clear_at dir none box = (0, box)
clear_at dir (some inbox) box =
    let names = select (λ name. ends_with name ".json") (keys inbox.files) in
    (length names, put dir (record inbox { files = pop_all names inbox.files }) box)

-- `none` is the ValueError of the id.
unfoldable pub clear_inbox : String → Mailbox → Option (ℕ × Mailbox)
unfolding clear_at
clear_inbox window_id box = elim (sanitize_dir_name window_id) [
  | none ↦ none
  | some dir ↦ some (clear_at dir (get dir box) box)
]

-- The ids of a message that is moved
unfoldable pub readdress : String → String → Message → Message
readdress old_id new_id msg = record msg {
  to_id = if msg.to_id == old_id then new_id else msg.to_id;
  from_id = if msg.from_id == old_id then new_id else msg.from_id;
}

abbrev concerns : String → String × File → Bool
concerns old_id (name, corrupt) = false
concerns old_id (name, holds msg) =
    ends_with name ".json" && (msg.to_id == old_id || msg.from_id == old_id)

unfoldable pub readdress_files : String → String → Dict File → Dict File
readdress_files old_id new_id [] = []
readdress_files old_id new_id ((name, holds msg) ∷ files) =
    let moved = if ends_with name ".json" then readdress old_id new_id msg else msg in
    (name, holds moved) ∷ readdress_files old_id new_id files
readdress_files old_id new_id ((name, corrupt) ∷ files) =
    (name, corrupt) ∷ readdress_files old_id new_id files

-- A message that is written again makes `tmp`.
unfoldable pub readdress_inbox : String → String → Inbox → Inbox
readdress_inbox old_id new_id inbox = record {
  files = readdress_files old_id new_id inbox.files;
  tmp = if any (concerns old_id) inbox.files then some (or_default inbox.tmp []) else inbox.tmp;
}

-- `old_dir.rename(new_dir)`, if there is something to move and the place is free
rename_dir : String → String → String → String → Option Inbox → Mailbox → Mailbox
rename_dir old_id new_id old_dir new_dir none box = box
rename_dir old_id new_id old_dir new_dir (some inbox) box =
    if has new_dir box
    then box
    else put new_dir (readdress_inbox old_id new_id inbox) (pop old_dir box)

rename_between : String → String → Option String → Option String → Mailbox → Mailbox
rename_between old_id new_id (some old_dir) (some new_dir) box =
    rename_dir old_id new_id old_dir new_dir (get old_dir box) box
rename_between old_id new_id _ _ box = box

-- The second component tells whether a ValueError ended the loop.
unfoldable pub migrate_ids : Dict String → Mailbox → Mailbox × Bool
unfolding rename_dir rename_between
migrate_ids [] box = (box, false)
migrate_ids ((old_id, new_id) ∷ d) box =
    let old_dir = sanitize_dir_name old_id in
    let new_dir = sanitize_dir_name new_id in
    let rest = migrate_ids d (rename_between old_id new_id old_dir new_dir box) in
    if is_some old_dir && is_some new_dir then rest else (box, true)

-- An inbox whose window is not live and has no "emdash-" in its id
abbrev pub is_dead : List String → String → Bool
is_dead live_ids dir =
    let qualified_id = unsanitize_dir_name dir in
    is_inbox dir
    && (not (contains qualified_id live_ids) && not (contains_text "emdash-" qualified_id))

unfoldable pub prune_dead : List String → Mailbox → ℕ × Mailbox
prune_dead live_ids box =
    let dead = select (is_dead live_ids) (keys box) in (length dead, pop_all dead box)
