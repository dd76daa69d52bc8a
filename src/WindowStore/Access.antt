-- ===== src/WindowStore/Access.antt =====
-- tmux/window_state_store.py: what reading a window's state returns after an assignment.
use unified_icc.Base.{String, ◌≡◌, refl, ◌≢◌, some, arith, if◌then◌else◌, ◌==◌, eq_iff, ==_refl}
use unified_icc.Base.Dict.{get, get-put}
use unified_icc.WindowStore.{
  WindowState, WindowStateStore, new_state, state_of, assign, get_window_state,
}

module _ (window_id : String) (s : WindowStateStore) where
  pub get-assign :
      (other : String) (w : WindowState)
      → get other (assign window_id w s).window_states
        ≡ (if window_id == other then some w else get other s.window_states)
  unfolding assign
  get-assign other w = get-put other window_id w s.window_states

  pub state_of-assign : (w : WindowState) → state_of window_id (assign window_id w s) ≡ w
  unfolding state_of
  state_of-assign w = ground (arith, get-assign window_id w, ==_refl window_id)

  pub get_window_state_value : (get_window_state window_id s).0 ≡ state_of window_id s
  unfolding get_window_state
  get_window_state_value = refl

  -- Asking for a state creates none for another window.
  pub get_window_state_ne :
      (other : String)
      → window_id ≢ other
      → get other (get_window_state window_id s).1.window_states ≡ get other s.window_states
  unfolding get_window_state
  get_window_state_ne other ne =
      ground (arith, get-put other window_id new_state s.window_states, eq_iff window_id other)
