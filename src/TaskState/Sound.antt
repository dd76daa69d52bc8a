-- ===== src/TaskState/Sound.antt =====
-- utils/claude_task_state.py: what holds of the tasks of a window whatever the transcript says.
pub mod Steps
pub mod Replaced
pub mod Transcript
use unified_icc.Base.{
  ℕ, ◌+◌, String, Bool, true, false, not, ◌&&◌, ◌||◌, ◌≡◌, refl, Option, none, some, List, [], ◌∷◌,
  if◌then◌else◌, ◌==◌, ◌>>=◌, truthy, or_default, contains, ltb, eqb, arith, eq_iff, ==_refl,
  Ensures, Ensures-bind, Ensures-elim, Bool-cases, inl, inr,
}
use unified_icc.Base.Dict.{Dict, get, put, pop, get-nil, get-put}
use unified_icc.Base.Json.{
  Json, Items, null, bool, num, str, arr, obj, nil, cons, end, field, entries,
}
use unified_icc.TaskState.{
  ClaudeTaskItem, PendingTaskCreate, WindowTaskState, ClaudeTaskStateStore, new_tasks_of, state_for,
}
use unified_icc.TaskState.Fields.{
  normal_status, normalize_status, as_text, iterate, blockers, stripped,
}
use unified_icc.TaskState.Apply.{
  Outcome, apply_task_create, created_item, store_item, finalize_from, finalize_task_create,
  updated_status, updated_item, update_from, apply_task_update,
}
use unified_icc.TaskState.Listing.{
  listed_item, listed_task, list_tasks, listed_todo, list_todos, replace_tasks,
  replace_from_task_list, replace_from_todos,
}
use unified_icc.TaskState.Entries.{
  apply_tool_use, apply_tool_uses, apply_assistant_entry, apply_tool_result, apply_tool_results,
  apply_user_entry, apply_entry, apply_all, apply_entries,
}

abbrev pub statuses : List String
statuses = "pending" ∷ "in_progress" ∷ "completed" ∷ []

-- An item stands under its own id, was numbered before `next`, and has a known status.
abbrev pub is_sound : ℕ → String → ClaudeTaskItem → Bool
is_sound next k t = (k == t.task_id) && (ltb t.order next && contains t.status statuses)

abbrev pub all_sound : ℕ → Dict ClaudeTaskItem → Bool
all_sound next [] = true
all_sound next ((k, t) ∷ d) = is_sound next k t && all_sound next d

abbrev pub all_numbered : ℕ → Dict PendingTaskCreate → Bool
all_numbered next [] = true
all_numbered next ((k, p) ∷ d) = ltb p.order next && all_numbered next d

-- Every task is sound, and every pending creation was numbered before the next number.
abbrev pub IsSound : WindowTaskState → Type 0
IsSound w = (all_sound w.next_order w.tasks && all_numbered w.next_order w.pending_creates) ≡ true

pub all_sound-put :
    (next : ℕ) (k : String) (t : ClaudeTaskItem) (d : Dict ClaudeTaskItem)
    → is_sound next k t ≡ true
    → all_sound next d ≡ true
    → all_sound next (put k t d) ≡ true
unfolding put
all_sound-put next k t [] h a = rw h
all_sound-put next k t ((j, u) ∷ d) h a = ground (arith, all_sound-put next k t d h, a, h)

pub all_sound-get :
    (next : ℕ) (k : String) (t : ClaudeTaskItem) (d : Dict ClaudeTaskItem)
    → all_sound next d ≡ true
    → get k d ≡ some t
    → is_sound next k t ≡ true
unfolding get
all_sound-get next k t [] a h = cc
all_sound-get next k t ((j, u) ∷ d) a h =
    ground
      (arith, all_sound-get next k t d, a, h, eq_iff j k, eq_iff j u.task_id, eq_iff k u.task_id)

pub all_sound-suc :
    (next : ℕ) (d : Dict ClaudeTaskItem) → all_sound next d ≡ true → all_sound (next + 1) d ≡ true
all_sound-suc next [] a = refl
all_sound-suc next ((k, t) ∷ d) a = ground (arith, all_sound-suc next d, a)

pub all_numbered-suc :
    (next : ℕ) (d : Dict PendingTaskCreate)
    → all_numbered next d ≡ true
    → all_numbered (next + 1) d ≡ true
all_numbered-suc next [] a = refl
all_numbered-suc next ((k, t) ∷ d) a = ground (arith, all_numbered-suc next d, a)

pub all_numbered-put :
    (next : ℕ) (k : String) (p : PendingTaskCreate) (d : Dict PendingTaskCreate)
    → ltb p.order next ≡ true
    → all_numbered next d ≡ true
    → all_numbered next (put k p d) ≡ true
unfolding put
all_numbered-put next k p [] h a = rw h
all_numbered-put next k p ((j, q) ∷ d) h a = ground (arith, all_numbered-put next k p d h, a, h)

pub all_numbered-pop :
    (next : ℕ) (k : String) (d : Dict PendingTaskCreate)
    → all_numbered next d ≡ true
    → all_numbered next (pop k d) ≡ true
unfolding pop
all_numbered-pop next k [] a = refl
all_numbered-pop next k ((j, q) ∷ d) a = ground (arith, all_numbered-pop next k d, a)

pub all_numbered-get :
    (next : ℕ) (k : String) (p : PendingTaskCreate) (d : Dict PendingTaskCreate)
    → all_numbered next d ≡ true
    → get k d ≡ some p
    → ltb p.order next ≡ true
unfolding get
all_numbered-get next k p [] a h = cc
all_numbered-get next k p ((j, q) ∷ d) a h = ground (arith, all_numbered-get next k p d, a, h)

-- A status that is read is a known one.
abbrev pub IsStatus : String → Type 0
IsStatus s = contains s statuses ≡ true

choice-IsStatus :
    (b c : Bool) → IsStatus (if b then "completed" else if c then "in_progress" else "pending")
unfolding contains
choice-IsStatus true c = refl
choice-IsStatus false true = refl
choice-IsStatus false false = refl

normal-IsStatus : (s : String) → IsStatus (normal_status s)
unfolding normal_status
normal-IsStatus s = choice-IsStatus _ _

pub normalize-IsStatus : (o : Option Json) → Ensures IsStatus (normalize_status o)
unfolding normalize_status contains
normalize-IsStatus none = refl
normalize-IsStatus (some (str s)) = elim (Bool-cases (truthy s)) [
  | inl given ↦ rw given (normal-IsStatus s)
  | inr empty ↦ rw empty refl
]
normalize-IsStatus (some null) = refl
normalize-IsStatus (some (bool true)) = tt
normalize-IsStatus (some (bool false)) = refl
normalize-IsStatus (some (num n)) = elim (Bool-cases (eqb n 0)) [
  | inl zero_num ↦ rw zero_num refl
  | inr positive ↦ rw positive tt
]
normalize-IsStatus (some (arr nil)) = refl
normalize-IsStatus (some (arr (cons x xs))) = tt
normalize-IsStatus (some (obj end)) = refl
normalize-IsStatus (some (obj (field k v fs))) = tt

-- What an outcome has to keep.
abbrev pub Keeps : Option Outcome → Type 0
Keeps = Ensures (λ p. IsSound p.1)
