-- ===== src/SessionMap/Sync.antt =====
-- state/session_map.py: the syncing of one window from its entry.
pub mod Laws
pub mod Twice
use unified_icc.Base.{
  ℕ, ◌+◌, String, ◌<>◌, Bool, true, false, not, ◌&&◌, ◌||◌, Option, none, some, List, [], ◌∷◌, ◌++◌,
  if◌then◌else◌, ◌==◌, truthy, or_default, is_some, points_to, contains, add, select, is_empty,
  starts_with,
}
use unified_icc.Base.Dict.{Dict, get, put, pop, pop_all, keys, has}
use unified_icc.Base.Text.{
  lower, contains_text, drop_prefix, remove_prefix, before, before_last_colon,
}
use unified_icc.WindowStore
use unified_icc.WindowStore.{WindowState, WindowStateStore, get_window_state, state_of, assign}
use unified_icc.Router.{ChannelRouter, Routing, get_display_name, set_display_name}
use unified_icc.Resolver.{is_window_id, is_foreign_window, emdash_session_prefix}
use unified_icc.SessionMap.{
  Entry, info, other, SessionFile, missing, unreadable, holds, MapSync, store_of, with_store,
  schedule_save, field, session_prefix, remove_windows,
}
use unified_icc.SessionMap.Parsing.{parse_emdash_provider}

-- A window's state with the flag `changed`.
pub record Synced : Type 0 where
  pub state : WindowState
  pub changed : Bool

-- `if c: <assignments>; changed = True`
abbrev pub change_if : Bool → (WindowState → WindowState) → Synced → Synced
change_if c f p = if c then record { state = f p.state; changed = true } else p

-- The assignments of `_sync_window_from_session_map` up to the window's name.
unfoldable pub sync_fields : Dict String → Bool → WindowState → Synced
unfolding lower
sync_fields d mark_external state =
    let new_sid = field "session_id" d in
    let new_cwd = field "cwd" d in
    let new_transcript = field "transcript_path" d in
    let new_provider = lower (field "provider_name" d) in
    let p0 : Synced = record { state = state; changed = false } in
    let p1 =
      change_if (mark_external && not state.external) (λ w. record w { external = true }) p0 in
    let p2 =
      change_if (not (p1.state.session_id == new_sid) || not (p1.state.cwd == new_cwd))
        (λ w. record w { session_id = new_sid; cwd = new_cwd }) p1 in
    let p3 =
      change_if (truthy new_transcript && not (p2.state.transcript_path == new_transcript))
        (λ w. record w { transcript_path = new_transcript }) p2 in
    change_if (truthy new_provider && not (p3.state.provider_name == new_provider))
      (λ w. record w { provider_name = new_provider }) p3

-- The condition under which the window takes the name of the entry.
unfoldable pub takes_name : Dict String → String → String → WindowState → Bool
takes_name d window_id display state =
    truthy (field "window_name" d) && ((display == window_id) && not (truthy state.window_name))

unfoldable pub sync_window : String → Dict String → Bool → MapSync → Bool × MapSync
sync_window window_id d mark_external s =
    let (state, store) = get_window_state window_id (store_of s) in
    let p = sync_fields d mark_external state in
    let new_wname = field "window_name" d in
    let r = record s.routing { store = store } in
    let named = record p.state { window_name = new_wname } in
    let r' =
      set_display_name window_id new_wname (record r { store = assign window_id named store }) in
    if truthy (field "session_id" d)
    then (if takes_name d window_id (get_display_name window_id r) p.state
        then (true, record s { routing = r' })
        else (
          p.changed,
          record s { routing = record r { store = assign window_id p.state store } },
        ))
    else (false, s)

unfoldable pub sync_emdash_entry : String → Dict String → MapSync → Bool × MapSync
sync_emdash_entry key d s =
    let (changed, s') = sync_window key d true s in
    let (state, store) = get_window_state key (store_of s') in
    let detected = parse_emdash_provider (before_last_colon key) in
    if not (truthy state.provider_name) && truthy detected
    then (true, with_store (assign key (record state { provider_name = detected }) store) s')
    else (changed, with_store store s')
