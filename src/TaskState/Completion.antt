-- ===== src/TaskState/Completion.antt =====
-- utils/claude_task_state.py: marking a task as completed.
use unified_icc.Base.{
  String, Bool, false, not, ◌≡◌, ◌∙◌, refl, Option, none, some, if◌then◌else◌, ◌==◌, arith, ==_refl,
  Bool-cases, inl, inr,
}
use unified_icc.Base.Dict.{get, get-put}
use unified_icc.TaskState.{
  ClaudeTaskItem, WindowTaskState, ClaudeTaskStateStore, completed, complete, mark_in,
  mark_task_completed,
}

-- The task of a window, where the window has the session.
abbrev task_in : String → String → Option WindowTaskState → Option ClaudeTaskItem
task_in session_id task_id none = none
task_in session_id task_id (some w) =
    if w.session_id == session_id then get task_id w.tasks else none

abbrev pub task_of : String → String → String → ClaudeTaskStateStore → Option ClaudeTaskItem
task_of window_id session_id task_id s = task_in session_id task_id (get window_id s.window_states)

-- There is a task, and it is not completed.
abbrev pub is_open : Option ClaudeTaskItem → Bool
is_open none = false
is_open (some t) = not (t.status == "completed")

mark_lem :
    (window_id session_id task_id subject : String) (o : Option WindowTaskState)
    (s : ClaudeTaskStateStore)
    → get window_id s.window_states ≡ o
    → (mark_in window_id session_id task_id subject o s).0 ≡ is_open (task_in session_id task_id o)
unfolding complete
mark_lem window_id session_id task_id subject none s e = refl
mark_lem window_id session_id task_id subject (some w) s e = ground arith

-- Marking a task reports a change exactly when the window has the session and the task is open.
pub mark_task_completed_lem :
    (window_id session_id task_id subject : String) (s : ClaudeTaskStateStore)
    → (mark_task_completed window_id session_id task_id subject s).0
      ≡ is_open (task_of window_id session_id task_id s)
unfolding mark_task_completed
mark_task_completed_lem window_id session_id task_id subject s =
    mark_lem window_id session_id task_id subject (get window_id s.window_states) s refl

complete_status :
    (task_id subject : String) (o : Option ClaudeTaskItem) (w : WindowTaskState)
    → get task_id w.tasks ≡ o
    → is_open (get task_id (complete task_id subject o w).1.tasks) ≡ false
unfolding complete completed
complete_status task_id subject none w e = rw e
complete_status task_id subject (some t) w e = elim (Bool-cases (t.status == "completed")) [
  | inl done ↦ rw (done, e) (rw done)
  | inr still ↦ rw (still, get-put, ==_refl task_id)
]

session-complete :
    (task_id subject : String) (o : Option ClaudeTaskItem) (w : WindowTaskState)
    → (complete task_id subject o w).1.session_id ≡ w.session_id
unfolding complete
session-complete task_id subject none w = refl
session-complete task_id subject (some t) w = ground arith

mark_closes :
    (window_id session_id task_id subject : String) (o : Option WindowTaskState)
    (s : ClaudeTaskStateStore)
    → get window_id s.window_states ≡ o
    → is_open
        (task_of window_id session_id task_id (mark_in window_id session_id task_id subject o s).1)
      ≡ false
mark_closes window_id session_id task_id subject none s e = rw e
mark_closes window_id session_id task_id subject (some w) s e =
    elim (Bool-cases (w.session_id == session_id)) [
      | inl current ↦
          rw (current, get-put, ==_refl window_id, session-complete, current)
            (complete_status task_id subject (get task_id w.tasks) w refl)
      | inr ended ↦ rw (ended, e) (rw ended)
    ]

-- Marking the same task a second time reports no change.
pub mark_task_completed_twice :
    (window_id session_id task_id subject : String) (s : ClaudeTaskStateStore)
    → (mark_task_completed window_id session_id task_id subject
        (mark_task_completed window_id session_id task_id subject s).1).0
      ≡ false
mark_task_completed_twice window_id session_id task_id subject s =
    let marked = (mark_task_completed window_id session_id task_id subject s).1 in
    let closed : is_open (task_of window_id session_id task_id marked) ≡ false =
      unfold mark_task_completed in
      mark_closes window_id session_id task_id subject (get window_id s.window_states) s refl in
    mark_task_completed_lem window_id session_id task_id subject marked ∙ closed
