-- ===== src/WindowStore/Sessions.antt =====
-- tmux/window_state_store.py: the sessions, channels and providers of the windows, and the
-- removal of stale states.
use unified_icc.Base.{
  ◌+◌, String, Bool, not, ◌&&◌, ◌≡◌, ◌≢◌, Option, none, some, List, [], ◌∷◌, arith, if◌then◌else◌,
  ◌==◌, eq_iff, ==_refl, truthy, contains-nil, select, contains-select, Bool-cases, inl, inr,
}
use unified_icc.Base.Dict.{Dict, get, keys, get-put, HasUniqueKeys, contains-keys, get-pop_all}
use unified_icc.WindowStore.{
  WindowState, WindowStateStore, state_of, find_window, set_window_provider, is_stale,
  prune_stale_window_states,
}

-- prune_stale_window_states removes exactly the states of the windows that are neither live, nor
-- in the session map, nor bound, and leaves every other state as it is.
pub get-prune :
    (live map_wids bound : List String) (wid : String) (s : WindowStateStore)
    → get wid (prune_stale_window_states live map_wids bound s).1.window_states
      ≡ (if is_stale live map_wids bound wid then none else get wid s.window_states)
unfolding prune_stale_window_states
get-prune live map_wids bound wid s =
    let stale = select (is_stale live map_wids bound) (keys s.window_states) in
    ground (
      arith,
      get-pop_all wid stale s.window_states,
      contains-select (is_stale live map_wids bound) wid (keys s.window_states),
      contains-keys wid s.window_states,
      contains-nil wid,
    )

-- A window that `find_window_by_session` returns has that session.
pub find_window_sound :
    (session_id : String) (d : Dict WindowState) (wid : String)
    → HasUniqueKeys d
    → find_window session_id d ≡ some wid
    → (state : WindowState) × (get wid d ≡ some state) × (state.session_id ≡ session_id)
unfolding find_window get
find_window_sound session_id [] wid u h = cc
find_window_sound session_id ((w, state) ∷ d) wid u h =
    elim (Bool-cases (state.session_id == session_id)) [
      | inl same ↦
          (state, ground (arith, eq_iff w wid), (eq_iff state.session_id session_id).0 same)
      | inr other ↦
          let (found, there, has_it) = find_window_sound session_id d wid u.1 (ground arith) in
          (found, ground (arith, eq_iff w wid), has_it)
    ]

find_window_complete :
    (session_id : String) (d : Dict WindowState) (wid : String) (state : WindowState)
    → get wid d ≡ some state
    → state.session_id ≡ session_id
    → find_window session_id d ≢ none
unfolding find_window get
find_window_complete session_id [] wid state h e = cc
find_window_complete session_id ((w, st) ∷ d) wid state h e =
    ground (arith, find_window_complete session_id d wid state, eq_iff st.session_id session_id)

-- set_window_provider sets the provider and schedules one save; it forgets the session exactly
-- when it switches to another named provider without hooks, and then reports the switch once.
pub set_window_provider_lem :
    (window_id provider : String) (cwd : Option String) (hook : Bool) (s : WindowStateStore)
    → let s' = set_window_provider window_id provider cwd hook s in
      let old = state_of window_id s in
      let switched = not (old.provider_name == provider) && (truthy provider && not hook) in
      ((state_of window_id s').provider_name ≡ provider)
      × ((state_of window_id s').session_id ≡ (if switched then "" else old.session_id))
      × (s'.switches ≡ (if switched then window_id ∷ s.switches else s.switches))
      × (s'.saves ≡ s.saves + 1)
unfolding set_window_provider state_of
set_window_provider_lem window_id provider cwd hook s = (
  grind (arith, get-put, ==_refl),
  grind (arith, get-put, ==_refl, eq_iff),
  ground arith,
  ground arith,
)
