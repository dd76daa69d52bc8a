-- ===== src/TaskState/Sound/Steps.antt =====
-- utils/claude_task_state.py: the steps on single tasks keep the tasks of a window sound.
use unified_icc.Base.{
  ℕ, ◌+◌, String, true, ◌≡◌, refl, Option, none, some, ◌>>=◌, truthy, ltb, arith, ==_refl, Ensures,
  Ensures-bind, Ensures-elim, Bool-cases, inl, inr,
}
use unified_icc.Base.Dict.{Dict, get}
use unified_icc.Base.Json.{Json, null, bool, num, str, arr, obj, entries}
use unified_icc.TaskState.{ClaudeTaskItem, PendingTaskCreate, WindowTaskState}
use unified_icc.TaskState.Fields.{normalize_status, as_text, iterate, blockers, stripped}
use unified_icc.TaskState.Apply.{
  apply_task_create, created_item, store_item, finalize_from, finalize_task_create, updated_status,
  updated_item, update_from, apply_task_update,
}
use unified_icc.TaskState.Sound.{
  is_sound, IsSound, all_sound-put, all_sound-get, all_sound-suc, all_numbered-suc,
  all_numbered-put, all_numbered-pop, all_numbered-get, IsStatus, normalize-IsStatus, Keeps,
}

pub create-IsSound :
    (tool_use_id : String) (input : Json) (w : WindowTaskState)
    → IsSound w
    → IsSound (apply_task_create tool_use_id input w).1
unfolding apply_task_create
create-IsSound tool_use_id (obj fs) w h =
    let pending : PendingTaskCreate = record {
      subject = as_text (get "subject" (entries fs));
      description = as_text (get "description" (entries fs));
      active_form = as_text (get "activeForm" (entries fs));
      order = w.next_order;
    } in
    ground (
      arith,
      h,
      all_sound-suc w.next_order w.tasks,
      all_numbered-suc w.next_order w.pending_creates,
      all_numbered-put (w.next_order + 1) tool_use_id pending w.pending_creates,
    )
create-IsSound tool_use_id null w h = h
create-IsSound tool_use_id (bool b) w h = h
create-IsSound tool_use_id (num n) w h = h
create-IsSound tool_use_id (str t) w h = h
create-IsSound tool_use_id (arr xs) w h = h

pub store-IsSound :
    (k : String) (t : ClaudeTaskItem) (w : WindowTaskState)
    → is_sound w.next_order k t ≡ true
    → IsSound w
    → IsSound (store_item k t w).1
unfolding store_item
store-IsSound k t w h a = ground (arith, all_sound-put w.next_order k t w.tasks h, a)

-- An item that was numbered before `next` and has a known status, under its own id.
abbrev Fits : ℕ → ClaudeTaskItem → Type 0
Fits next t = is_sound next t.task_id t ≡ true

created-Fits :
    (next : ℕ) (p : PendingTaskCreate) (d : Dict Json)
    → ltb p.order next ≡ true
    → Ensures (Fits next) (created_item p d)
unfolding created_item
created-Fits next p d h = Ensures-bind (Fits next) (normalize_status (get "status" d)) _ λ status e.
    Ensures-bind (Fits next) (iterate (get "blockedBy" d)) _ λ values f.
      Ensures-bind (Fits next) (blockers values) _ λ blocked_by g. ground (
        arith,
        h,
        ==_refl (as_text (get "id" d)),
        Ensures-elim IsStatus (normalize_status (get "status" d))
            (normalize-IsStatus (get "status" d)) e,
      )

finalize_from-IsSound :
    (o : Option PendingTaskCreate) (d : Dict Json) (w : WindowTaskState)
    → ((p : PendingTaskCreate) → o ≡ some p → ltb p.order w.next_order ≡ true)
    → IsSound w
    → Keeps (finalize_from o d w)
unfolding finalize_from
finalize_from-IsSound none d w h a = a
finalize_from-IsSound (some p) d w h a = elim (Bool-cases (truthy (as_text (get "id" d)))) [
  | inl given ↦ rw given (
      Ensures-bind (λ p. IsSound p.1) (created_item p d) _
        λ t made.
          store-IsSound t.task_id t w
            (Ensures-elim (Fits w.next_order) (created_item p d)
              (created-Fits w.next_order p d (h p refl)) made)
            a)
  | inr missing ↦ rw missing a
]

pub finalize-IsSound :
    (tool_use_id : String) (d : Dict Json) (w : WindowTaskState)
    → IsSound w
    → Keeps (finalize_task_create tool_use_id d w)
unfolding finalize_task_create
finalize-IsSound tool_use_id d w a =
    finalize_from-IsSound (get tool_use_id w.pending_creates) d _
      (λ p e. all_numbered-get w.next_order tool_use_id p w.pending_creates (ground (arith, a)) e)
      (ground (arith, a, all_numbered-pop w.next_order tool_use_id w.pending_creates))

updated-IsStatus :
    (o : Option Json) (old : String) → IsStatus old → Ensures IsStatus (updated_status o old)
updated-IsStatus none old h = h
updated-IsStatus (some (str s)) old h = normalize-IsStatus (some (str s))
updated-IsStatus (some null) old h = h
updated-IsStatus (some (bool b)) old h = h
updated-IsStatus (some (num n)) old h = h
updated-IsStatus (some (arr xs)) old h = h
updated-IsStatus (some (obj fs)) old h = h

updated-Fits :
    (next : ℕ) (k : String) (t : ClaudeTaskItem) (d : Dict Json)
    → is_sound next k t ≡ true
    → Ensures (λ u. is_sound next k u ≡ true) (updated_item t d)
unfolding updated_item
updated-Fits next k t d h =
    let Good : ClaudeTaskItem → Type 0 = λ u. is_sound next k u ≡ true in
    Ensures-bind Good (iterate (get "addBlockedBy" d) >>= stripped) _ λ more e.
      Ensures-bind Good (iterate (get "removeBlockedBy" d) >>= stripped) _ λ less f.
        Ensures-bind Good (updated_status (get "status" d) t.status) _ λ status g. ground (
          arith,
          h,
          Ensures-elim IsStatus (updated_status (get "status" d) t.status)
              (updated-IsStatus (get "status" d) t.status (ground (arith, h))) g,
        )

update_from-IsSound :
    (k : String) (o : Option ClaudeTaskItem) (d : Dict Json) (w : WindowTaskState)
    → ((t : ClaudeTaskItem) → o ≡ some t → is_sound w.next_order k t ≡ true)
    → IsSound w
    → Keeps (update_from k o d w)
unfolding update_from
update_from-IsSound k none d w h a = a
update_from-IsSound k (some t) d w h a =
    Ensures-bind (λ p. IsSound p.1) (updated_item t d) _
      λ u made.
        store-IsSound k u w
          (Ensures-elim (λ u. is_sound w.next_order k u ≡ true) (updated_item t d)
            (updated-Fits w.next_order k t d (h t refl)) made)
          a

pub update-IsSound :
    (input : Json) (w : WindowTaskState) → IsSound w → Keeps (apply_task_update input w)
unfolding apply_task_update
update-IsSound (obj fs) w a =
    let k = as_text (get "taskId" (entries fs)) in
    elim (Bool-cases (truthy k)) [
      | inl given ↦ rw given (
          update_from-IsSound k (get k w.tasks) (entries fs) w
            (λ t e. all_sound-get w.next_order k t w.tasks (ground (arith, a)) e) a)
      | inr missing ↦ rw missing a
    ]
update-IsSound null w a = a
update-IsSound (bool b) w a = a
update-IsSound (num n) w a = a
update-IsSound (str t) w a = a
update-IsSound (arr xs) w a = a
