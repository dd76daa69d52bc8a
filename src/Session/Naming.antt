-- ===== src/Session/Naming.antt =====
-- core/session.py: the display names of windows.
use unified_icc.Base.{
  String, Bool, false, not, ◌&&◌, ◌||◌, Option, none, some, List, [], ◌∷◌, if◌then◌else◌, ◌==◌, map,
}
use unified_icc.Base.Dict.{get, put}
use unified_icc.WindowStore.{WindowState}
use unified_icc.Router
use unified_icc.Router.{Routing, Window, pair, pop_display_name}
use unified_icc.Session.{
  SessionManager, save_state, routing_of, window_states, with_states, with_routing,
}

rename_state : String → Option WindowState → String → SessionManager → SessionManager
rename_state window_id none window_name s = s
rename_state window_id (some ws) window_name s =
    with_states (put window_id (record ws { window_name = window_name }) (window_states s)) s

abbrev has_other_name : Option WindowState → String → Bool
has_other_name none window_name = false
has_other_name (some ws) window_name = not (ws.window_name == window_name)

-- The loop that repairs the names in the states.
unfoldable pub rename_states : List (String × String) → SessionManager → Bool × SessionManager
unfolding rename_state
rename_states [] s = (false, s)
rename_states ((wid, name) ∷ ws) s =
    let old = get wid (window_states s) in
    let differs = has_other_name old name in
    let (changed, t) = rename_states ws (if differs then rename_state wid old name s else s) in
    (differs || changed, t)

abbrev reconcile_names :
    Option Bool → List (String × String) → SessionManager → Option Bool × SessionManager
reconcile_names none live_windows s = (none, s)
reconcile_names (some router_changed) live_windows s =
    let (ws_changed, t) = rename_states live_windows s in
    (
      some (router_changed || ws_changed),
      if ws_changed && not router_changed then save_state t else t,
    )

-- The windows are tuples. Where there is no flag, the router has raised.
unfoldable pub sync_display_names :
    List (String × String) → SessionManager → Option Bool × SessionManager
sync_display_names live_windows s =
    let (router_changed, routing) =
      Router.sync_display_names (map (λ (wid, name). pair wid name) live_windows) (routing_of s) in
    reconcile_names router_changed live_windows (with_routing routing s)

unfoldable pub set_display_name : String → String → SessionManager → SessionManager
unfolding rename_state
set_display_name window_id window_name s =
    let named = with_routing (Router.set_display_name window_id window_name (routing_of s)) s in
    rename_state window_id (get window_id (window_states named)) window_name named
