-- ===== src/Session.antt =====
-- core/session.py: the manager of the state. It reaches the router, the store, the session map
-- file and `config.tmux_session` as a `MapSync`, and the user preferences. `saves` counts its own
-- calls of `_save_state`, and `mailbox` is `Mailbox(config.mailbox_dir)`. A set of live window ids is
-- a list.
pub mod Audit
pub mod Serial
pub mod Naming
pub mod Startup
mod Tests
use unified_icc.Base.{
  ℕ, ◌+◌, String, ◌<>◌, Bool, true, false, not, ◌&&◌, ◌||◌, Option, none, some, List, [], ◌∷◌, ◌++◌,
  if◌then◌else◌, ◌==◌, truthy, or_default, contains, select, is_empty, starts_with, map, collect,
}
use unified_icc.Base.Dict.{Dict, get, put, keys, pop_all}
use unified_icc.Base.Text.{drop_prefix}
use unified_icc.WindowStore
use unified_icc.WindowStore.{WindowState, WindowStateStore, get_window_state, assign, is_stale}
use unified_icc.Router
use unified_icc.Router.{Routing, Window, pair, pop_display_name}
use unified_icc.Mailbox.{Mailbox}
use unified_icc.Mailbox.Sweeping.{prune_dead}
use unified_icc.Resolver.{is_window_id, is_foreign_window, emdash_session_prefix}
use unified_icc.SessionMap.{
  MapSync, SessionFile, missing, unreadable, holds, Entry, store_of, with_store, session_prefix,
}
use unified_icc.SessionMap.Loading.{nested_bindings}
use unified_icc.SessionMap.Pruning.{clear_session_map_entry}
use unified_icc.Preferences.{UserPreferences, prune_stale_offsets}

pub record SessionManager : Type 0 where
  pub sync : MapSync
  pub preferences : UserPreferences
  pub saves : ℕ
  pub mailbox : Mailbox

unfoldable pub save_state : SessionManager → SessionManager
save_state s = record s { saves = s.saves + 1 }

abbrev pub routing_of : SessionManager → Routing
routing_of s = s.sync.routing

abbrev pub window_states : SessionManager → Dict WindowState
window_states s = (store_of s.sync).window_states

abbrev pub window_display_names : SessionManager → Dict String
window_display_names s = (routing_of s).display_names

abbrev pub with_states : Dict WindowState → SessionManager → SessionManager
with_states states s =
    let store = record (store_of s.sync) { window_states = states } in
    record s { sync = with_store store s.sync }

abbrev pub with_routing : Routing → SessionManager → SessionManager
with_routing routing s = record s { sync = record s.sync { routing = routing } }

-- `channel_router.nested_bindings`
abbrev pub channel_bindings : SessionManager → Dict (Dict String)
channel_bindings s = nested_bindings (routing_of s).bindings []

-- `channel_router.group_chat_ids`, which is always empty
abbrev pub group_chat_ids : Dict String
group_chat_ids = []

-- The loop over the items of the dicts of a dict.
unfoldable pub items_under {ℓ} : {V : Type ℓ} → String → Dict V → List (String × String × V)
items_under uid [] = []
items_under uid ((k, v) ∷ d) = (uid, k, v) ∷ items_under uid d

unfoldable pub nested_items {ℓ} : {V : Type ℓ} → Dict (Dict V) → List (String × String × V)
nested_items [] = []
nested_items ((uid, d) ∷ nested) = items_under uid d ++ nested_items nested

abbrev pub window_of : String × String × String → String
window_of (_, _, wid) = wid

abbrev pub key_of {ℓ} : {V : Type ℓ} → String × String × V → String
key_of (_, k, _) = k

-- `bound_window_ids`: the windows of all bindings.
unfoldable pub bound_windows : SessionManager → List String
bound_windows s = map window_of (nested_items (channel_bindings s))

-- `in_use`: the windows with a state, and the bound ones.
unfoldable pub in_use : SessionManager → List String
in_use s = keys (window_states s) ++ bound_windows s

-- `bound_keys`
abbrev pub bound_keys : SessionManager → List String
bound_keys s = map (λ (uid, tid, _). uid <> (":" <> tid)) (nested_items (channel_bindings s))

-- `del` and `pop_display_name` for each stale name.
unfoldable pub pop_display_names : List String → Routing → Routing
pop_display_names [] s = s
pop_display_names (wid ∷ wids) s = pop_display_names wids (pop_display_name wid s).1

-- `stale_display`: the names of windows that are neither live nor in use.
unfoldable pub stale_display : List String → SessionManager → List String
stale_display live s =
    select (λ wid. not (contains wid live) && not (contains wid (in_use s)))
      (keys (window_display_names s))

-- The qualified ids that `prune_dead` keeps.
unfoldable pub qualify : MapSync → String → String
qualify sync wid = if is_foreign_window wid then wid else session_prefix sync <> wid

-- The offsets and the mailbox directories of unknown windows are pruned in any case.
unfoldable pub prune_unknown : List String → SessionManager → Bool × SessionManager
prune_unknown live s =
    let known = live ++ in_use s in
    let (offsets_changed, preferences) = prune_stale_offsets known s.preferences in
    (
      offsets_changed,
      record s {
        preferences = preferences;
        mailbox = (prune_dead (map (qualify s.sync) known) s.mailbox).1;
      },
    )

abbrev pub stale_chat : Bool → SessionManager → List String
stale_chat true s = []
stale_chat false s = select (λ k. not (contains k (bound_keys s))) (keys group_chat_ids)

-- `skip` is `skip_chat_ids`.
unfoldable pub prune_stale_state : List String → Bool → SessionManager → Bool × SessionManager
prune_stale_state live skip s =
    let stale = stale_display live s in
    let (offsets_changed, pruned) = prune_unknown live s in
    if is_empty stale && is_empty (stale_chat skip s)
    then (offsets_changed, pruned)
    else (true, save_state (with_routing (pop_display_names stale (routing_of pruned)) pruned))

-- The window that a key of the session map file stands for, as the manager reads it: of a native
-- window the id without the prefix.
abbrev pub tracked_id : String → String → Option String
tracked_id prefix key =
    if starts_with key prefix
    then (if is_window_id (drop_prefix prefix key) then some (drop_prefix prefix key) else none)
    else if starts_with key emdash_session_prefix
    then some key
    else none

unfoldable pub tracked_ids : String → List String → List String
tracked_ids prefix [] = []
tracked_ids prefix (key ∷ ks) = elim (tracked_id prefix key) [
  | some wid ↦ wid ∷ tracked_ids prefix ks
  | none ↦ tracked_ids prefix ks
]

map_window_ids : String → SessionFile → List String
map_window_ids prefix (holds raw) = tracked_ids prefix (keys raw)
map_window_ids prefix _ = []

unfoldable pub get_session_map_window_ids : SessionManager → List String
unfolding map_window_ids
get_session_map_window_ids s = map_window_ids (session_prefix s.sync) s.sync.file

-- A state of a window that is neither in the session map, nor bound, nor live.
unfoldable pub is_stale_state : List String → SessionManager → String → Bool
is_stale_state live s wid =
    not (contains wid (get_session_map_window_ids s))
    && (not (contains wid (bound_windows s)) && not (contains wid live))

unfoldable pub prune_stale_window_states : List String → SessionManager → Bool × SessionManager
prune_stale_window_states live s =
    let stale = select (is_stale_state live s) (keys (window_states s)) in
    if is_empty stale
    then (false, s)
    else (true, save_state (with_states (pop_all stale (window_states s)) s))

pub record WindowView : Type 0 where
  pub window_id : String
  pub cwd : String
  pub provider_name : String
  pub approval_mode : String
  pub notification_mode : String
  pub batch_mode : String
  pub transcript_path : Option String
  pub window_name : String
  pub session_id : String
  pub external : Bool

view_of : String → Option WindowState → Option WindowView
view_of window_id none = none
view_of window_id (some ws) = some (record {
  window_id = window_id;
  cwd = ws.cwd;
  provider_name = ws.provider_name;
  approval_mode = ws.approval_mode;
  notification_mode = ws.notification_mode;
  batch_mode = ws.batch_mode;
  transcript_path = if truthy ws.transcript_path then some ws.transcript_path else none;
  window_name = ws.window_name;
  session_id = ws.session_id;
  external = ws.external;
})

unfoldable pub view_window : String → SessionManager → Option WindowView
unfolding view_of
view_window window_id s = view_of window_id (get window_id (window_states s))

-- `_on_hookless_provider_switch` is `_clear_session_map_entry`, which only reaches the file.
unfoldable pub clear_session_map_entries : List String → MapSync → MapSync
clear_session_map_entries [] sync = sync
clear_session_map_entries (wid ∷ wids) sync =
    clear_session_map_entry wid (clear_session_map_entries wids sync)

-- `supports` is `registry.get(name).capabilities.supports_hook`, `none` for an unknown provider.
unfoldable pub set_window_provider :
    (String → Option Bool) → String → String → Option String → SessionManager → SessionManager
set_window_provider supports window_id provider_name cwd s =
    let supports_hook =
      if truthy provider_name then or_default (supports provider_name) true else true in
    let old = store_of s.sync in
    let store =
      WindowStore.set_window_provider window_id provider_name cwd supports_hook
        (record old { switches = [] }) in
    let kept = record store { switches = store.switches ++ old.switches } in
    record s { sync = clear_session_map_entries store.switches (with_store kept s.sync) }

unfoldable pub set_window_cwd : String → String → SessionManager → SessionManager
set_window_cwd window_id cwd s =
    let (state, store) = get_window_state window_id (store_of s.sync) in
    save_state
      (record s { sync = with_store (assign window_id (record state { cwd = cwd }) store) s.sync })
