-- ===== src/SessionMap/Loading.antt =====
-- state/session_map.py: `load_session_map`, with the removal of stale window states and of keys
-- in the old format.
pub mod Laws
use unified_icc.Base.{
  ℕ, ◌+◌, String, ◌<>◌, Bool, true, false, not, ◌&&◌, ◌||◌, Option, none, some, List, [], ◌∷◌, ◌++◌,
  if◌then◌else◌, ◌==◌, truthy, or_default, is_some, points_to, contains, add, select, is_empty,
  starts_with,
}
use unified_icc.Base.Dict.{Dict, get, put, pop, pop_all, keys, has}
use unified_icc.Base.Text.{
  lower, contains_text, drop_prefix, remove_prefix, before, before_last_colon,
}
use unified_icc.WindowStore
use unified_icc.WindowStore.{WindowState, WindowStateStore, get_window_state, state_of, assign}
use unified_icc.Router.{ChannelRouter, Routing, get_display_name, set_display_name}
use unified_icc.Resolver.{is_window_id, is_foreign_window, emdash_session_prefix}
use unified_icc.SessionMap.{
  Entry, info, other, SessionFile, missing, unreadable, holds, MapSync, store_of, with_store,
  schedule_save, field, session_prefix, remove_windows,
}
use unified_icc.SessionMap.Sync.{sync_window, sync_emdash_entry}

-- The tuple of `_process_session_map_entries`.
pub record Scan : Type 0 where
  pub valid_wids : List String
  pub old_format_sids : List String
  pub old_format_keys : List String
  pub changed : Bool

abbrev pub new_scan : Scan
new_scan = record { valid_wids = []; old_format_sids = []; old_format_keys = []; changed = false }

unfoldable pub process_entry : String → Entry → Scan × MapSync → Scan × MapSync
unfolding drop_prefix
process_entry key other p = p
process_entry key (info d) (scan, s) =
    let prefix = session_prefix s in
    let sid = field "session_id" d in
    let seen = record scan { valid_wids = add key scan.valid_wids } in
    let (emdash_changed, after_emdash) = sync_emdash_entry key d s in
    let (window_changed, after_window) = sync_window key d false s in
    if starts_with key emdash_session_prefix
    then (record seen { changed = scan.changed || emdash_changed }, after_emdash)
    else if not (starts_with key prefix)
    then (scan, s)
    else if not (is_window_id (drop_prefix prefix key))
    then (
      record scan {
        old_format_sids = if truthy sid then add sid scan.old_format_sids else scan.old_format_sids;
        old_format_keys = scan.old_format_keys ++ key ∷ [];
      },
      s,
    )
    else (record seen { changed = scan.changed || window_changed }, after_window)

unfoldable pub process_entries : Dict Entry → Scan × MapSync → Scan × MapSync
process_entries [] p = p
process_entries ((key, e) ∷ raw) p = process_entries raw (process_entry key e p)

-- `nested_bindings` of the router: a channel id is split at its first colon.
unfoldable pub split_channel : String → String × String
unfolding before contains_text drop_prefix
split_channel channel_id =
    let platform = before ":" channel_id in
    (
      platform,
      if contains_text ":" channel_id then drop_prefix (platform <> ":") channel_id else "",
    )

unfoldable pub nested_bindings : Dict String → Dict (Dict String) → Dict (Dict String)
nested_bindings [] nested = nested
nested_bindings ((channel_id, window_id) ∷ d) nested =
    let (platform, key) = split_channel channel_id in
    nested_bindings d
      (put platform (put key window_id (or_default (get platform nested) [])) nested)

unfoldable pub values_of : Dict String → List String
values_of [] = []
values_of ((_, v) ∷ d) = if truthy v then v ∷ values_of d else values_of d

unfoldable pub all_values : Dict (Dict String) → List String
all_values [] = []
all_values ((_, d) ∷ nested) = values_of d ++ all_values nested

-- `bound_wids` of `_remove_stale_window_states`
unfoldable pub bound_wids : MapSync → List String
bound_wids s = all_values (nested_bindings s.routing.router.bindings [])

-- `get_session_id_for_window(w) not in old_format_sids`
abbrev pub in_old_format : Option String → List String → Bool
in_old_format none sids = false
in_old_format (some sid) sids = contains sid sids

abbrev pub is_stale_state :
    List String → List String → List String → WindowStateStore → String → Bool
is_stale_state valid_wids old_format_sids bound store w =
    truthy w
    && (not (contains w valid_wids)
        && (not (contains w bound)
            && not (in_old_format (WindowStore.get_session_id_for_window w store) old_format_sids)))

unfoldable pub remove_stale_window_states : List String → List String → MapSync → Bool × MapSync
remove_stale_window_states valid_wids old_format_sids s =
    let store = store_of s in
    let stale =
      select (is_stale_state valid_wids old_format_sids (bound_wids s) store)
        (WindowStore.iter_window_ids store) in
    (not (is_empty stale), with_store (remove_windows stale store) s)

unfoldable pub purge_old_format_keys : Dict Entry → List String → MapSync → MapSync
purge_old_format_keys raw old_keys s =
    if is_empty old_keys then s else record s { file = holds (pop_all old_keys raw) }

load_from : SessionFile → MapSync → MapSync
unfolding process_entries remove_stale_window_states purge_old_format_keys schedule_save
load_from (holds raw) s =
    let (scan, synced) = process_entries raw (new_scan, s) in
    let (removed, cleaned) =
      remove_stale_window_states scan.valid_wids scan.old_format_sids synced in
    let purged = purge_old_format_keys raw scan.old_format_keys cleaned in
    if scan.changed || removed then schedule_save purged else purged
load_from _ s = s

unfoldable pub load_session_map : MapSync → MapSync
unfolding load_from
load_session_map s = load_from s.file s
