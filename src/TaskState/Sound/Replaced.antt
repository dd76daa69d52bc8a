-- ===== src/TaskState/Sound/Replaced.antt =====
-- utils/claude_task_state.py: a listed state is sound as a whole.
use unified_icc.Base.{
  ℕ, ◌+◌, String, true, ◌≡◌, refl, Option, none, some, List, [], ◌∷◌, ◌>>=◌, truthy, arith, ==_refl,
  Ensures, Ensures-bind, Ensures-elim, Bool-cases, inl, inr,
}
use unified_icc.Base.Dict.{Dict, get, put}
use unified_icc.Base.Json.{Json, Items, null, bool, num, str, arr, obj, entries}
use unified_icc.TaskState.{ClaudeTaskItem, WindowTaskState}
use unified_icc.TaskState.Fields.{normalize_status, as_text, iterate, blockers}
use unified_icc.TaskState.Listing.{
  listed_item, listed_task, list_tasks, listed_todo, list_todos, todos_from, replace_tasks,
  replace_from_task_list, replace_from_todos,
}
use unified_icc.TaskState.Fields.{items_of, or_text, decimal}
use unified_icc.TaskState.Sound.{
  is_sound, all_sound, IsSound, all_sound-put, all_sound-suc, IsStatus, normalize-IsStatus, Keeps,
}

listed-Fits :
    (task_id subject : String) (order : ℕ) (d : Dict Json)
    → Ensures (λ t. is_sound (order + 1) task_id t ≡ true) (listed_item task_id subject order d)
unfolding listed_item
listed-Fits task_id subject order d =
    let Good : ClaudeTaskItem → Type 0 = λ t. is_sound (order + 1) task_id t ≡ true in
    Ensures-bind Good (normalize_status (get "status" d)) _ λ status e.
      Ensures-bind Good (iterate (get "blockedBy" d)) _ λ values f.
        Ensures-bind Good (blockers values) _ λ blocked_by g. ground (
          arith,
          ==_refl task_id,
          Ensures-elim IsStatus (normalize_status (get "status" d))
              (normalize-IsStatus (get "status" d)) e,
        )

-- The tasks of a listing were numbered before its next number.
abbrev SoundListing : Dict ClaudeTaskItem × ℕ → Type 0
SoundListing l = all_sound l.1 l.0 ≡ true

put-SoundListing :
    (task_id subject : String) (tasks : Dict ClaudeTaskItem) (next : ℕ) (d : Dict Json)
    → all_sound next tasks ≡ true
    → Ensures SoundListing
        (listed_item task_id subject next d >>= λ t. some (put task_id t tasks, next + 1))
put-SoundListing task_id subject tasks next d h =
    Ensures-bind SoundListing (listed_item task_id subject next d) _ λ t made.
      all_sound-put (next + 1) task_id t tasks
        (Ensures-elim (λ t. is_sound (next + 1) task_id t ≡ true)
          (listed_item task_id subject next d) (listed-Fits task_id subject next d) made)
        (all_sound-suc next tasks h)

listed_task-SoundListing :
    (x : Json) (l : Dict ClaudeTaskItem × ℕ)
    → SoundListing l
    → Ensures SoundListing (listed_task x l)
listed_task-SoundListing (obj fs) (tasks, next) h =
    let d = entries fs in
    elim (Bool-cases (truthy (as_text (get "id" d)))) [
      | inl given ↦
          rw given
            (put-SoundListing (as_text (get "id" d)) (as_text (get "subject" d)) tasks next d h)
      | inr missing ↦ rw missing h
    ]
listed_task-SoundListing null l h = h
listed_task-SoundListing (bool b) l h = h
listed_task-SoundListing (num n) l h = h
listed_task-SoundListing (str t) l h = h
listed_task-SoundListing (arr xs) l h = h

list_tasks-SoundListing :
    (xs : List Json) (l : Dict ClaudeTaskItem × ℕ)
    → SoundListing l
    → Ensures SoundListing (list_tasks xs l)
unfolding list_tasks
list_tasks-SoundListing [] l h = h
list_tasks-SoundListing (x ∷ xs) l h =
    Ensures-bind SoundListing (listed_task x l) (list_tasks xs) λ m e.
      list_tasks-SoundListing xs m
        (Ensures-elim SoundListing (listed_task x l) (listed_task-SoundListing x l h) e)

listed_todo-SoundListing :
    (index : ℕ) (x : Json) (l : Dict ClaudeTaskItem × ℕ)
    → SoundListing l
    → Ensures SoundListing (listed_todo index x l)
listed_todo-SoundListing index (obj fs) (tasks, next) h =
    put-SoundListing (or_text (as_text (get "id" (entries fs))) (decimal index)) _ tasks next
      (entries fs) h
listed_todo-SoundListing index null l h = h
listed_todo-SoundListing index (bool b) l h = h
listed_todo-SoundListing index (num n) l h = h
listed_todo-SoundListing index (str t) l h = h
listed_todo-SoundListing index (arr xs) l h = h

list_todos-SoundListing :
    (index : ℕ) (xs : List Json) (l : Dict ClaudeTaskItem × ℕ)
    → SoundListing l
    → Ensures SoundListing (list_todos index xs l)
unfolding list_todos
list_todos-SoundListing index [] l h = h
list_todos-SoundListing index (x ∷ xs) l h =
    Ensures-bind SoundListing (listed_todo index x l) (list_todos (index + 1) xs) λ m e.
      list_todos-SoundListing (index + 1) xs m
        (Ensures-elim SoundListing (listed_todo index x l) (listed_todo-SoundListing index x l h) e)

replace-IsSound :
    (l : Dict ClaudeTaskItem × ℕ) (w : WindowTaskState)
    → SoundListing l
    → IsSound w
    → IsSound (replace_tasks l w).1
unfolding replace_tasks
replace-IsSound (tasks, next) w h a = ground (arith, h, a)

pub task_list-IsSound :
    (xs : Items) (w : WindowTaskState) → IsSound w → Keeps (replace_from_task_list xs w)
unfolding replace_from_task_list
task_list-IsSound xs w a =
    Ensures-bind (λ p. IsSound p.1) (list_tasks (items_of xs) ([], 1)) _
      λ l e.
        replace-IsSound l w
          (Ensures-elim SoundListing (list_tasks (items_of xs) ([], 1))
            (list_tasks-SoundListing (items_of xs) ([], 1) refl) e)
          a

todos_from-IsSound : (o : Option Json) (w : WindowTaskState) → IsSound w → Keeps (todos_from o w)
todos_from-IsSound none w a = replace-IsSound ([], 1) w refl a
todos_from-IsSound (some (arr xs)) w a =
    Ensures-bind (λ p. IsSound p.1) (list_todos 1 (items_of xs) ([], 1)) _
      λ l e.
        replace-IsSound l w
          (Ensures-elim SoundListing (list_todos 1 (items_of xs) ([], 1))
            (list_todos-SoundListing 1 (items_of xs) ([], 1) refl) e)
          a
todos_from-IsSound (some null) w a = a
todos_from-IsSound (some (bool b)) w a = a
todos_from-IsSound (some (num n)) w a = a
todos_from-IsSound (some (str t)) w a = a
todos_from-IsSound (some (obj fs)) w a = a

pub todos-IsSound :
    (input : Json) (w : WindowTaskState) → IsSound w → Keeps (replace_from_todos input w)
unfolding replace_from_todos
todos-IsSound (obj fs) w a = todos_from-IsSound (get "todos" (entries fs)) w a
todos-IsSound null w a = a
todos-IsSound (bool b) w a = a
todos-IsSound (num n) w a = a
todos-IsSound (str t) w a = a
todos-IsSound (arr xs) w a = a
