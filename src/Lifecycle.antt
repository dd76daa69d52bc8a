-- ===== src/Lifecycle.antt =====
-- core/session_lifecycle.py and utils/idle_tracker.py: which sessions end between two readings of
-- the session map, and what is cleaned up for them. A time is a number of ticks of the clock.
pub mod Ending
pub mod Laws
mod Tests
use unified_icc.Base.{
  ℕ, String, Bool, true, false, not, Option, none, some, List, [], ◌∷◌, if◌then◌else◌, ◌==◌, ◌>>=◌,
  add, is_empty,
}
use unified_icc.Base.Dict.{Dict, get, put, pop, has}
use unified_icc.WindowStore.{WindowStateStore, clear_window_session}
use unified_icc.TaskState.{
  ClaudeTaskStateStore, clear_window, set_wait_header, clear_wait_header, mark_task_completed,
}
use unified_icc.TaskState.Subagents.{Subagents, add_subagent, remove_subagent, clear_subagents}

pub record IdleTracker : Type 0 where
  pub last_activity : Dict ℕ

abbrev pub or_now : Option ℕ → ℕ → ℕ
or_now none now = now
or_now (some ts) now = ts

-- `now` is what `time.monotonic` returns.
unfoldable pub record_activity : ℕ → String → Option ℕ → IdleTracker → IdleTracker
record_activity now session_id ts t = record t {
  last_activity = put session_id (or_now ts now) t.last_activity;
}

unfoldable pub get_last_activity : String → IdleTracker → Option ℕ
get_last_activity session_id t = get session_id t.last_activity

unfoldable pub clear_session : String → IdleTracker → IdleTracker
clear_session session_id t = record t { last_activity = pop session_id t.last_activity }

-- The details of each window.
abbrev pub SessionMap : Type 0
SessionMap = Dict (Dict String)

-- The lifecycle with the singletons that it writes to.
pub record SessionLifecycle : Type 0 where
  pub last_session_map : SessionMap
  pub idle_tracker : IdleTracker
  pub task_state : ClaudeTaskStateStore
  pub subagents : Subagents
  pub store : WindowStateStore

pub record ReconcileResult : Type 0 where
  pub sessions_to_remove : List String
  pub new_windows : SessionMap
  pub current_map : SessionMap

-- What the loops of `reconcile` have built so far.
pub record Reconciling : Type 0 where
  pub sessions : List String
  pub idle : IdleTracker
  pub tasks : ClaudeTaskStateStore

unfoldable pub end_session : String → String → Reconciling → Reconciling
end_session window_id session_id r = record {
  sessions = add session_id r.sessions;
  idle = clear_session session_id r.idle;
  tasks = clear_window window_id r.tasks;
}

-- One round of the first loop. `none` is the KeyError of a missing session id.
unfoldable pub reconcile_window :
    String → Dict String → Option (Dict String) → Reconciling → Option Reconciling
reconcile_window window_id old none r = some r
reconcile_window window_id old (some new) r =
    if is_empty new
    then some r
    else (get "session_id" new >>= λ new_sid. get "session_id" old >>= λ old_sid.
        some (if new_sid == old_sid then r else end_session window_id old_sid r))

unfoldable pub reconcile_changed : SessionMap → SessionMap → Reconciling → Option Reconciling
reconcile_changed current [] r = some r
reconcile_changed current ((window_id, old) ∷ d) r =
    reconcile_window window_id old (get window_id current) r >>= reconcile_changed current d

-- The loop over `old_windows - current_windows`, in the order of the old map.
unfoldable pub reconcile_deleted : SessionMap → SessionMap → Reconciling → Option Reconciling
reconcile_deleted current [] r = some r
reconcile_deleted current ((window_id, old) ∷ d) r =
    (if has window_id current
      then some r
      else (get "session_id" old >>= λ old_sid. some (end_session window_id old_sid r)))
    >>= reconcile_deleted current d

-- The entries of `current_windows - old_windows`.
unfoldable pub appeared : SessionMap → SessionMap → SessionMap
appeared last [] = []
appeared last ((window_id, details) ∷ d) =
    if has window_id last then appeared last d else (window_id, details) ∷ appeared last d

unfoldable pub reconcile :
    SessionMap → SessionLifecycle → Option (ReconcileResult × SessionLifecycle)
reconcile current s = do
  r ←
      reconcile_changed current s.last_session_map
        (record { sessions = []; idle = s.idle_tracker; tasks = s.task_state })
  q ← reconcile_deleted current s.last_session_map r
  some (
    record {
      sessions_to_remove = q.sessions;
      new_windows = appeared s.last_session_map current;
      current_map = current;
    },
    record s { last_session_map = current; idle_tracker = q.idle; task_state = q.tasks },
  )

unfoldable pub handle_session_end : String → SessionLifecycle → SessionLifecycle
handle_session_end window_id s = record s {
  task_state = clear_window window_id s.task_state;
  subagents = clear_subagents window_id s.subagents;
  store = clear_window_session window_id s.store;
}

unfoldable pub handle_subagent_start :
    String → String → String → SessionLifecycle → ℕ × SessionLifecycle
handle_subagent_start window_id subagent_id name s =
    let (n, subagents) = add_subagent window_id subagent_id name s.subagents in
    (n, record s { subagents = subagents })

unfoldable pub handle_subagent_stop :
    String → String → SessionLifecycle → (String × ℕ) × SessionLifecycle
handle_subagent_stop window_id subagent_id s =
    let (found, subagents) = remove_subagent window_id subagent_id s.subagents in
    (found, record s { subagents = subagents })

unfoldable pub handle_notification_wait : String → String → SessionLifecycle → SessionLifecycle
handle_notification_wait window_id wait_header s = record s {
  task_state = (set_wait_header window_id wait_header s.task_state).1;
}

unfoldable pub handle_stop_task_state : String → SessionLifecycle → SessionLifecycle
handle_stop_task_state window_id s = record s {
  task_state = (clear_wait_header window_id s.task_state).1;
}

unfoldable pub handle_task_completed :
    String → String → String → String → SessionLifecycle → Bool × SessionLifecycle
handle_task_completed window_id session_id task_id subject s =
    let (changed, tasks) = mark_task_completed window_id session_id task_id subject s.task_state in
    (changed, record s { task_state = tasks })

unfoldable pub initialize : SessionMap → SessionLifecycle → SessionLifecycle
initialize session_map s = record s { last_session_map = session_map }
