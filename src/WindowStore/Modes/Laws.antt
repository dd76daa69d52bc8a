-- ===== src/WindowStore/Modes/Laws.antt =====
-- What the getters return after the setters and the cycles of the modes.
use unified_icc.Base.{
  String, true, false, ◌⊎◌, ◌↔◌, ◌≢◌, ◌≡◌, none, some, arith, if◌then◌else◌, ◌==◌, eq_iff, ==_refl,
  Bool-cases, Option-cases, inl, inr, contains,
}
use unified_icc.Base.Dict.{get, put, get-put}
use unified_icc.Base.Text.{lower}
use unified_icc.WindowStore.{
  WindowStateStore, new_state, notification_modes, approval_modes, state_of,
}
use unified_icc.WindowStore.Modes.{
  get_notification_mode, set_notification_mode, next_notification_mode, cycle_notification_mode,
  get_approval_mode, set_window_approval_mode,
}

-- A setter that does not raise makes its mode the one that is read, and no other window's mode
-- changes.
pub get-set_notification :
    (window_id other mode : String) (s : WindowStateStore) {s' : WindowStateStore}
    → set_notification_mode window_id mode s ≡ some s'
    → get_notification_mode other s'
      ≡ (if window_id == other then mode else get_notification_mode other s)
unfolding get_notification_mode set_notification_mode
get-set_notification window_id other mode s {s'} h = ground (
  arith,
  get-put other window_id new_state s.window_states,
  eq_iff window_id other,
  eq_iff (state_of window_id s).notification_mode mode,
  get-put other window_id (record (state_of window_id s) { notification_mode = mode })
      s.window_states,
  get-put other window_id (record (state_of window_id s) { notification_mode = mode })
      (put window_id new_state s.window_states),
)

set-ne-none :
    (window_id mode : String) (s : WindowStateStore)
    → contains mode notification_modes ≡ true
    → set_notification_mode window_id mode s ≢ none
unfolding set_notification_mode
set-ne-none window_id mode s h = ground arith

mode_cases :
    (mode : String)
    → contains mode notification_modes ≡ true
    → (mode ≡ "all") ⊎ (mode ≡ "errors_only") ⊎ (mode ≡ "muted")
unfolding contains
mode_cases mode h =
    ground (arith, eq_iff "all" mode, eq_iff "errors_only" mode, eq_iff "muted" mode)

-- From a known mode, three steps through the modes end where they began.
pub next_notification_mode_thrice :
    (mode : String)
    → contains mode notification_modes ≡ true
    → next_notification_mode (next_notification_mode (next_notification_mode mode)) ≡ mode
unfolding next_notification_mode
next_notification_mode_thrice mode h = elim (mode_cases mode h) [
  | inl e ↦ rw e
  | inr (inl e) ↦ rw e
  | inr (inr e) ↦ rw e
]

contains-next : (mode : String) → contains (next_notification_mode mode) notification_modes ≡ true
unfolding next_notification_mode
contains-next mode = elim (Bool-cases (contains mode notification_modes)) [
  | inl known ↦ elim (mode_cases mode known) [
    | inl e ↦ rw e
    | inr (inl e) ↦ rw e
    | inr (inr e) ↦ rw e
  ]
  | inr unknown ↦ rw (unknown, next_notification_mode)
]

-- A cycle of the notification mode never raises, and the mode that is read after it is the one it
-- returns, which is the next one.
pub cycle_notification_mode_lem :
    (window_id : String) (s : WindowStateStore)
    → (s' : WindowStateStore) × (cycle_notification_mode window_id s
        ≡ some (next_notification_mode (get_notification_mode window_id s), s'))
      × (get_notification_mode window_id s'
          ≡ next_notification_mode (get_notification_mode window_id s))
unfolding cycle_notification_mode
cycle_notification_mode_lem window_id s =
    let mode = next_notification_mode (get_notification_mode window_id s) in
    elim (Option-cases (set_notification_mode window_id mode s)) [
      | inl e ↦
          absurd
            (set-ne-none window_id mode s (contains-next (get_notification_mode window_id s)) e)
      | inr (s', e) ↦ (
        s',
        rw e,
        ground (arith, get-set_notification window_id window_id mode s e, ==_refl window_id),
      )
    ]

-- Whatever a window's state holds, the approval mode that is read is a known one.
pub get_approval_mode_known :
    (window_id : String) (s : WindowStateStore)
    → contains (get_approval_mode window_id s) approval_modes ≡ true
unfolding get_approval_mode
get_approval_mode_known window_id s = elim (Option-cases (get window_id s.window_states)) [
  | inl e ↦ rw (e, get_approval_mode)
  | inr (state, e) ↦ elim (Bool-cases (contains state.approval_mode approval_modes)) [
    | inl known ↦ rw (e, get_approval_mode, known) known
    | inr unknown ↦ rw (e, get_approval_mode, unknown)
  ]
]

-- Setting the approval mode raises exactly when the mode in lower case is unknown.
pub set_approval_raises :
    (window_id mode : String) (s : WindowStateStore)
    → (set_window_approval_mode window_id mode s ≡ none)
      ↔ (contains (lower mode) approval_modes ≡ false)
unfolding set_window_approval_mode
set_approval_raises window_id mode s = ground arith

-- A change of the approval mode that does not raise makes the mode in lower case the one that is
-- read, and changes the mode of no other window.
pub get-set_approval :
    (window_id other mode : String) (s : WindowStateStore) {s' : WindowStateStore}
    → set_window_approval_mode window_id mode s ≡ some s'
    → get_approval_mode other s'
      ≡ (if window_id == other then lower mode else get_approval_mode other s)
unfolding get_approval_mode set_window_approval_mode
get-set_approval window_id other mode s h =
    let changed = record (state_of window_id s) { approval_mode = lower mode } in
    ground (
      arith,
      get-put other window_id new_state s.window_states,
      get-put other window_id changed s.window_states,
      get-put other window_id changed (put window_id new_state s.window_states),
    )
