-- ===== src/Lifecycle/Laws.antt =====
-- core/session_lifecycle.py: what `reconcile` returns, and what it leaves.
use unified_icc.Base.{
  String, ◌≡◌, ◌∙◌, refl, none, some, [], ◌∷◌, if◌then◌else◌, arith, eq_iff, contains, contains-nil,
}
use unified_icc.Base.Dict.{get, has}
use unified_icc.Lifecycle.{
  SessionMap, SessionLifecycle, ReconcileResult, Reconciling, appeared, reconcile,
}
use unified_icc.Lifecycle.Ending.{
  HasSessions, ended, ended_split, Ends-then, changed-Reaches, deleted-Reaches,
}

get-appeared :
    (k : String) (last current : SessionMap)
    → get k (appeared last current) ≡ (if has k last then none else get k current)
unfolding appeared get
get-appeared k last [] = ground arith
get-appeared k last ((j, d) ∷ current) = ground (arith, get-appeared k last current, eq_iff j k)

-- What `reconcile` returns, and what it leaves.
pub record Reconciled (current : SessionMap) (s : SessionLifecycle)
    (p : ReconcileResult × SessionLifecycle) : Type 0 where
  pub removed :
      (session_id : String)
      → contains session_id p.0.sessions_to_remove ≡ ended current session_id s.last_session_map
  pub idle :
      (session_id : String)
      → get session_id p.1.idle_tracker.last_activity ≡ (
          if ended current session_id s.last_session_map
          then none
          else get session_id s.idle_tracker.last_activity)
  pub new :
      (window_id : String)
      → get window_id p.0.new_windows
        ≡ (if has window_id s.last_session_map then none else get window_id current)
  pub last : p.1.last_session_map ≡ current

-- Where every entry of both maps has a session id, reconcile does not raise. It removes exactly
-- the sessions that some window had and has no more, even where another window has them now,
-- forgets the activity of these and no others, returns the windows that the last map did not have,
-- and keeps the current map as the last one.
pub reconcile-Reconciled :
    (current : SessionMap) (s : SessionLifecycle)
    → HasSessions current
    → HasSessions s.last_session_map
    → (p : ReconcileResult × SessionLifecycle) × (reconcile current s ≡ some p)
      × Reconciled current s p
unfolding reconcile
reconcile-Reconciled current s c h =
    let start : Reconciling = record {
      sessions = [];
      idle = s.idle_tracker;
      tasks = s.task_state;
    } in
    let (r, changed, first) = changed-Reaches current s.last_session_map start c h in
    let (q, deleted, later) = deleted-Reaches current s.last_session_map r h in
    let both =
      Ends-then _ _ (λ x. ended current x s.last_session_map) start r q
        (λ x. ended_split current x s.last_session_map) first later in
    let p : ReconcileResult × SessionLifecycle = (
      record {
        sessions_to_remove = q.sessions;
        new_windows = appeared s.last_session_map current;
        current_map = current;
      },
      record s { last_session_map = current; idle_tracker = q.idle; task_state = q.tasks },
    ) in
    (
      p,
      rw (changed, deleted),
      record {
        removed = λ x. both.listed x ∙ rw (contains-nil x);
        idle = both.idle;
        new = λ w. get-appeared w s.last_session_map current;
        last = refl;
      },
    )
