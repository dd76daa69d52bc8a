-- ===== src/TaskState.antt =====
-- utils/claude_task_state.py: the tasks that a window's agent reports, per window, with the
-- headers of waiting agents and the last status texts.
pub mod Fields
pub mod Apply
pub mod Listing
pub mod Entries
pub mod Sound
pub mod Subagents
pub mod Completion
pub mod Snapshot
mod Tests
use unified_icc.Base.{
  ℕ, String, Bool, true, false, not, ◌&&◌, Option, none, some, List, [], ◌∷◌, if◌then◌else◌, ◌==◌,
  truthy, points_to, is_some, is_empty,
}
use unified_icc.Base.Dict.{Dict, get, put, pop}

pub record ClaudeTaskItem : Type 0 where
  pub task_id : String
  pub subject : String
  pub description : String
  pub active_form : String
  pub status : String
  pub blocked_by : List String
  pub order : ℕ
  pub owner : String

pub record PendingTaskCreate : Type 0 where
  pub subject : String
  pub description : String
  pub active_form : String
  pub order : ℕ

pub record WindowTaskState : Type 0 where
  pub session_id : String
  pub tasks : Dict ClaudeTaskItem
  pub pending_creates : Dict PendingTaskCreate
  pub next_order : ℕ

abbrev pub new_tasks_of : String → WindowTaskState
new_tasks_of session_id = record {
  session_id = session_id;
  tasks = [];
  pending_creates = [];
  next_order = 1;
}

pub record ClaudeTaskStateStore : Type 0 where
  pub window_states : Dict WindowTaskState
  pub wait_headers : Dict String
  pub last_status : Dict String

abbrev pub new_task_store : ClaudeTaskStateStore
new_task_store = record { window_states = []; wait_headers = []; last_status = [] }

-- `reset`, which empties the three dicts
abbrev pub reset_tasks : ClaudeTaskStateStore → ClaudeTaskStateStore
reset_tasks s = record s { window_states = []; wait_headers = []; last_status = [] }

unfoldable pub clear_window : String → ClaudeTaskStateStore → ClaudeTaskStateStore
clear_window window_id s = record s {
  window_states = pop window_id s.window_states;
  wait_headers = pop window_id s.wait_headers;
  last_status = pop window_id s.last_status;
}

-- `_get_or_create`: the window's state, where it has the session, and a new one otherwise.
abbrev pub state_for : String → Option WindowTaskState → WindowTaskState
state_for session_id none = new_tasks_of session_id
state_for session_id (some state) =
    if state.session_id == session_id then state else new_tasks_of session_id

abbrev has_tasks : Option WindowTaskState → Bool
has_tasks none = false
has_tasks (some state) = not (is_empty state.tasks)

unfoldable pub has_snapshot : String → ClaudeTaskStateStore → Bool
has_snapshot window_id s = has_tasks (get window_id s.window_states)

unfoldable pub clear_wait_header : String → ClaudeTaskStateStore → Bool × ClaudeTaskStateStore
clear_wait_header window_id s = (
  is_some (get window_id s.wait_headers),
  record s { wait_headers = pop window_id s.wait_headers },
)

-- An empty header stands for `None` too.
unfoldable pub set_wait_header :
    String → String → ClaudeTaskStateStore → Bool × ClaudeTaskStateStore
unfolding clear_wait_header
set_wait_header window_id header s =
    if not (truthy header)
    then clear_wait_header window_id s
    else if points_to (get window_id s.wait_headers) header
    then (false, s)
    else (true, record s { wait_headers = put window_id header s.wait_headers })

unfoldable pub set_last_status : String → String → ClaudeTaskStateStore → ClaudeTaskStateStore
set_last_status window_id text s = record s { last_status = put window_id text s.last_status }

-- The item of a task that has been completed.
unfoldable pub completed : String → ClaudeTaskItem → ClaudeTaskItem
completed subject t = record t {
  subject = if truthy t.subject then t.subject else subject;
  status = "completed";
}

-- The completion of a task in the window's tasks, and whether it was open.
unfoldable pub complete :
    String → String → Option ClaudeTaskItem → WindowTaskState → Bool × WindowTaskState
unfolding completed
complete task_id subject none w = (false, w)
complete task_id subject (some t) w =
    if t.status == "completed"
    then (false, w)
    else (true, record w { tasks = put task_id (completed subject t) w.tasks })

abbrev pub mark_in :
    String
    → String
    → String
    → String
    → Option WindowTaskState
    → ClaudeTaskStateStore
    → Bool × ClaudeTaskStateStore
mark_in window_id session_id task_id subject none s = (false, s)
mark_in window_id session_id task_id subject (some w) s =
    let (changed, w') = complete task_id subject (get task_id w.tasks) w in
    if w.session_id == session_id
    then (changed, record s { window_states = put window_id w' s.window_states })
    else (false, s)

unfoldable pub mark_task_completed :
    String → String → String → String → ClaudeTaskStateStore → Bool × ClaudeTaskStateStore
mark_task_completed window_id session_id task_id subject s =
    mark_in window_id session_id task_id subject (get window_id s.window_states) s
