-- ===== src/TaskState/Listing.antt =====
-- utils/claude_task_state.py: the replacement of all tasks of a window by a listed state.
use unified_icc.Base.{
  ℕ, ◌+◌, String, true, false, Option, none, some, List, [], ◌∷◌, if◌then◌else◌, ◌>>=◌, truthy,
}
use unified_icc.Base.Dict.{Dict, get, put}
use unified_icc.Base.Json.{Json, Items, arr, obj, entries}
use unified_icc.TaskState.{ClaudeTaskItem, WindowTaskState}
use unified_icc.TaskState.Fields.{
  normalize_status, as_text, or_text, decimal, iterate, blockers, items_of,
}
use unified_icc.TaskState.Apply.{Outcome, same_tasks}

-- The item of a listed task.
unfoldable pub listed_item : String → String → ℕ → Dict Json → Option ClaudeTaskItem
listed_item task_id subject order d = do
  status ← normalize_status (get "status" d)
  values ← iterate (get "blockedBy" d)
  blocked_by ← blockers values
  some (record {
    task_id = task_id;
    subject = subject;
    description = as_text (get "description" d);
    active_form = as_text (get "activeForm" d);
    status = status;
    blocked_by = blocked_by;
    order = order;
    owner = as_text (get "owner" d);
  })

abbrev pub Listing : Type 0
Listing = Dict ClaudeTaskItem × ℕ

abbrev pub listed_task : Json → Listing → Option Listing
listed_task (obj fs) (tasks, next) =
    let d = entries fs in
    let task_id = as_text (get "id" d) in
    if truthy task_id
    then (listed_item task_id (as_text (get "subject" d)) next d >>= λ t.
        some (put task_id t tasks, next + 1))
    else some (tasks, next)
listed_task _ l = some l

unfoldable pub list_tasks : List Json → Listing → Option Listing
list_tasks [] l = some l
list_tasks (x ∷ xs) l = listed_task x l >>= list_tasks xs

abbrev pub listed_todo : ℕ → Json → Listing → Option Listing
listed_todo index (obj fs) (tasks, next) =
    let d = entries fs in
    let task_id = or_text (as_text (get "id" d)) (decimal index) in
    let subject =
      or_text (as_text (get "subject" d))
        (or_text (as_text (get "content" d)) (as_text (get "task" d))) in
    listed_item task_id subject next d >>= λ t. some (put task_id t tasks, next + 1)
listed_todo index _ l = some l

unfoldable pub list_todos : ℕ → List Json → Listing → Option Listing
list_todos index [] l = some l
list_todos index (x ∷ xs) l = listed_todo index x l >>= list_todos (index + 1) xs

-- The end of both replacements.
unfoldable pub replace_tasks : Listing → WindowTaskState → Outcome
replace_tasks (tasks, next) w =
    if same_tasks w.tasks tasks
    then (false, w)
    else (true, record w { tasks = tasks; pending_creates = []; next_order = next })

unfoldable pub replace_from_task_list : Items → WindowTaskState → Option Outcome
replace_from_task_list xs w = list_tasks (items_of xs) ([], 1) >>= λ l. some (replace_tasks l w)

abbrev pub todos_from : Option Json → WindowTaskState → Option Outcome
todos_from none w = some (replace_tasks ([], 1) w)
todos_from (some (arr xs)) w = list_todos 1 (items_of xs) ([], 1) >>= λ l. some (replace_tasks l w)
todos_from (some _) w = some (false, w)

unfoldable pub replace_from_todos : Json → WindowTaskState → Option Outcome
replace_from_todos (obj fs) w = todos_from (get "todos" (entries fs)) w
replace_from_todos _ w = some (false, w)
