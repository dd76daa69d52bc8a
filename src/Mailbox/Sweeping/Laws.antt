-- ===== src/Mailbox/Sweeping/Laws.antt =====
-- utils/mailbox.py: what the removals leave.
use unified_icc.Base.{
  ℕ, String, Bool, true, false, ◌≡◌, refl, sym, ap, Option, none, some, List, [], if◌then◌else◌,
  ◌==◌, contains, contains-select, select, arith, eq_iff, Bool-cases, inl, inr,
}
use unified_icc.Base.Dict.{Dict, get, pop_all, get-pop_all, keys, contains-keys}
use unified_icc.Mailbox.Messages.{Message}
use unified_icc.Mailbox.{Mailbox, Inbox, File, holds, corrupt, is_message_name, is_expired}
use unified_icc.Mailbox.Sending.{listed, is_waiting, waiting_statuses}
use unified_icc.Mailbox.Sweeping.{
  sweepable_statuses, is_over, is_swept, sweep_dir, is_dead, prune_dead,
}

-- A dict without the keys that pass a test
get-dropped {ℓ} :
    {V : Type ℓ} (p : String → Bool) (k : String) (d : Dict V)
    → get k (pop_all (select p (keys d)) d) ≡ (if p k then none else get k d)
get-dropped p k d =
    ground
      (arith, get-pop_all k (select p (keys d)) d, contains-select p k (keys d), contains-keys k d)

-- A status that is swept is none of those that are listed.
over_not_waiting :
    (status : String)
    → contains status sweepable_statuses ≡ true
    → contains status waiting_statuses ≡ false
unfolding contains
over_not_waiting status h = elim (Bool-cases ("read" == status)) [
  | inl e ↦ ap (λ s. contains s waiting_statuses) (sym ((eq_iff "read" status).0 e))
  | inr unread ↦ elim (Bool-cases ("replied" == status)) [
    | inl e ↦ ap (λ s. contains s waiting_statuses) (sym ((eq_iff "replied" status).0 e))
    | inr unreplied ↦
        let e : ("expired" == status) ≡ true = ground (arith, h, unread, unreplied) in
        ap (λ s. contains s waiting_statuses) (sym ((eq_iff "expired" status).0 e))
  ]
]

module _ (elapsed : String → ℕ) where
  -- A sweep of an inbox removes exactly the message files that are corrupt, expired, read or replied.
  pub get-sweep_dir :
      (name : String) (inbox : Inbox)
      → get name (sweep_dir elapsed inbox).1.files
        ≡ (if is_swept elapsed inbox.files name then none else get name inbox.files)
  unfolding sweep_dir
  get-sweep_dir name inbox = get-dropped (is_swept elapsed inbox.files) name inbox.files

  -- What `inbox` lists of a name
  abbrev pub listed_at : String → Dict File → List Message
  listed_at name files =
      if is_message_name name then listed elapsed is_waiting (get name files) else []

  -- A message that is over is not listed.
  over_not_listed :
      (file : Option File) → is_over elapsed file ≡ true → listed elapsed is_waiting file ≡ []
  over_not_listed none h = refl
  over_not_listed (some corrupt) h = refl
  over_not_listed (some (holds msg)) h = elim (Bool-cases (is_expired elapsed msg)) [
    | inl e ↦ rw e refl
    | inr e ↦ rw (e, over_not_waiting msg.status (ground (arith, h, e))) refl
  ]

  -- A sweep removes nothing that `inbox` lists.
  pub sweep_keeps_listed :
      (name : String) (inbox : Inbox)
      → listed_at name (sweep_dir elapsed inbox).1.files ≡ listed_at name inbox.files
  sweep_keeps_listed name inbox = elim (Bool-cases (is_message_name name)) [
    | inl e ↦
        rw (e, get-sweep_dir name inbox)
          (elim (Bool-cases (is_over elapsed (get name inbox.files))) [
            | inl over ↦ rw (e, over) (sym (over_not_listed (get name inbox.files) over))
            | inr not_over ↦ rw (e, not_over) refl
          ])
    | inr e ↦ rw e refl
  ]

-- `prune_dead` removes exactly the inboxes of windows that are not live and have no "emdash-" in
-- their id.
pub get-prune_dead :
    (live_ids : List String) (dir : String) (box : Mailbox)
    → get dir (prune_dead live_ids box).1 ≡ (if is_dead live_ids dir then none else get dir box)
unfolding prune_dead
get-prune_dead live_ids dir box = get-dropped (is_dead live_ids) dir box
