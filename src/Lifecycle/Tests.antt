-- ===== src/Lifecycle/Tests.antt =====
-- Session maps to reconcile, and the theorem at them.
use unified_icc.Base.{String, ◌≡◌, refl, some, [], ◌∷◌, contains, add}
use unified_icc.Base.Dict.{Dict, get, put, pop}
use unified_icc.WindowStore.{new_store}
use unified_icc.TaskState.{new_task_store, clear_window}
use unified_icc.Lifecycle.{
  SessionMap, SessionLifecycle, ReconcileResult, clear_session, end_session, reconcile,
  reconcile_window, reconcile_changed, reconcile_deleted, appeared,
}
use unified_icc.Lifecycle.Ending.{HasSessions}
use unified_icc.Lifecycle.Laws.{Reconciled, reconcile-Reconciled}

abbrev details : String → Dict String
details session_id = ("session_id", session_id) ∷ []

abbrev lifecycle : SessionLifecycle
lifecycle = record {
  last_session_map = ("@1", details "s1") ∷ ("@2", details "s2") ∷ ("@3", details "s3") ∷ [];
  idle_tracker = record { last_activity = ("s1", 5) ∷ ("s2", 6) ∷ [] };
  task_state = new_task_store;
  subagents = [];
  store = new_store;
}

-- The first window has a new session, the second is gone, and the fourth is new.
abbrev current_map : SessionMap
current_map = ("@1", details "s9") ∷ ("@3", details "s3") ∷ ("@4", details "s4") ∷ []

reconciled : ReconcileResult × SessionLifecycle
reconciled = (
  record {
    sessions_to_remove = "s1" ∷ "s2" ∷ [];
    new_windows = ("@4", details "s4") ∷ [];
    current_map = current_map;
  },
  record lifecycle { last_session_map = current_map; idle_tracker = record { last_activity = [] } },
)

reconciles : reconcile current_map lifecycle ≡ some reconciled
unfolding reconcile reconcile_changed reconcile_window reconcile_deleted appeared end_session
    clear_session clear_window reconciled get put pop contains add
reconciles = refl

last_sessions : HasSessions lifecycle.last_session_map
unfolding get
last_sessions = (refl, (refl, (refl, tt)))

current_sessions : HasSessions current_map
unfolding get
current_sessions = (refl, (refl, (refl, tt)))

reconcile-Reconciled_example :
    (p : ReconcileResult × SessionLifecycle) × (reconcile current_map lifecycle ≡ some p)
    × Reconciled current_map lifecycle p
reconcile-Reconciled_example =
    reconcile-Reconciled current_map lifecycle current_sessions last_sessions
