-- ===== src/WindowStore/Modes.antt =====
-- tmux/window_state_store.py: the notification, approval and batch modes of a window. `none`
-- stands for the ValueError that a setter raises for a mode that it does not know.
pub mod Laws
use unified_icc.Base.{
  ℕ, suc, ◌+◌, ◌%◌, String, Bool, true, false, Option, none, some, List, [], ◌∷◌, if◌then◌else◌,
  ◌==◌, ◌>>=◌, or_default, contains, length,
}
use unified_icc.Base.Dict.{get}
use unified_icc.Base.Text.{lower}
use unified_icc.WindowStore.{
  WindowState, WindowStateStore, default_approval_mode, default_batch_mode, approval_modes,
  batch_modes, notification_modes, get_window_state, assign, schedule_save,
}

-- `modes.index(mode)`, for a mode that is there
unfoldable pub index : String → List String → ℕ
index mode [] = 0
index mode (m ∷ ms) = if m == mode then 0 else suc (index mode ms)

-- `modes[i]`; no index of the program is out of range
unfoldable pub at : List String → ℕ → String
at [] i = ""
at (m ∷ ms) ℕ.zero = m
at (m ∷ ms) (suc i) = at ms i

notification_of : Option WindowState → String
notification_of none = "all"
notification_of (some state) = state.notification_mode

unfoldable pub get_notification_mode : String → WindowStateStore → String
unfolding notification_of
get_notification_mode window_id s = notification_of (get window_id s.window_states)

unfoldable pub set_notification_mode : String → String → WindowStateStore → Option WindowStateStore
unfolding get_window_state assign schedule_save contains
set_notification_mode window_id mode s =
    if contains mode notification_modes
    then (let (state, s') = get_window_state window_id s in
        some (
          if state.notification_mode == mode
          then s'
          else schedule_save (assign window_id (record state { notification_mode = mode }) s')))
    else none

unfoldable pub next_notification_mode : String → String
unfolding index at contains
next_notification_mode current =
    let idx = if contains current notification_modes then index current notification_modes else 0 in
    at notification_modes ((idx + 1) % length notification_modes)

unfoldable pub cycle_notification_mode :
    String → WindowStateStore → Option (String × WindowStateStore)
unfolding get_notification_mode next_notification_mode set_notification_mode
cycle_notification_mode window_id s =
    let new_mode = next_notification_mode (get_notification_mode window_id s) in
    set_notification_mode window_id new_mode s >>= λ s'. some (new_mode, s')

-- A stored mode that is unknown reads as the default.
approval_of : Option WindowState → String
unfolding contains
approval_of none = default_approval_mode
approval_of (some state) =
    if contains state.approval_mode approval_modes
    then state.approval_mode
    else default_approval_mode

unfoldable pub get_approval_mode : String → WindowStateStore → String
unfolding approval_of
get_approval_mode window_id s = approval_of (get window_id s.window_states)

unfoldable pub set_window_approval_mode :
    String → String → WindowStateStore → Option WindowStateStore
unfolding get_window_state assign schedule_save contains
set_window_approval_mode window_id mode s =
    let normalized = lower mode in
    if contains normalized approval_modes
    then (let (state, s') = get_window_state window_id s in
        some (schedule_save (assign window_id (record state { approval_mode = normalized }) s')))
    else none

batch_of : Option WindowState → String
unfolding contains
batch_of none = default_batch_mode
batch_of (some state) =
    if contains state.batch_mode batch_modes then state.batch_mode else default_batch_mode

unfoldable pub get_batch_mode : String → WindowStateStore → String
unfolding batch_of
get_batch_mode window_id s = batch_of (get window_id s.window_states)

unfoldable pub set_batch_mode : String → String → WindowStateStore → Option WindowStateStore
unfolding get_window_state assign schedule_save contains
set_batch_mode window_id mode s =
    if contains mode batch_modes
    then (let (state, s') = get_window_state window_id s in
        some (
          if state.batch_mode == mode
          then s'
          else schedule_save (assign window_id (record state { batch_mode = mode }) s')))
    else none

unfoldable pub cycle_batch_mode : String → WindowStateStore → Option (String × WindowStateStore)
unfolding get_batch_mode set_batch_mode
cycle_batch_mode window_id s =
    let new_mode = if get_batch_mode window_id s == "batched" then "verbose" else "batched" in
    set_batch_mode window_id new_mode s >>= λ s'. some (new_mode, s')
