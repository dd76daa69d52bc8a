-- ===== src/SessionMap/Pruning.antt =====
-- state/session_map.py: the operations on single entries of the file, and its pruning.
pub mod Laws
use unified_icc.Base.{
  ℕ, ◌+◌, String, ◌<>◌, Bool, true, false, not, ◌&&◌, ◌||◌, Option, none, some, List, [], ◌∷◌, ◌++◌,
  if◌then◌else◌, ◌==◌, truthy, or_default, is_some, points_to, contains, add, select, is_empty,
  starts_with,
}
use unified_icc.Base.Dict.{Dict, get, put, pop, pop_all, keys, has}
use unified_icc.Base.Text.{
  lower, contains_text, drop_prefix, remove_prefix, before, before_last_colon,
}
use unified_icc.WindowStore
use unified_icc.WindowStore.{WindowState, WindowStateStore, get_window_state, state_of, assign}
use unified_icc.Router.{ChannelRouter, Routing, get_display_name, set_display_name}
use unified_icc.Resolver.{is_window_id, is_foreign_window, emdash_session_prefix}
use unified_icc.SessionMap.{
  Entry, info, other, SessionFile, missing, unreadable, holds, MapSync, store_of, with_store,
  schedule_save, field, session_prefix, remove_windows,
}

-- A native entry whose window is not live.
abbrev pub is_dead : String → List String → String → Bool
is_dead prefix live_window_ids key =
    starts_with key prefix
    && (is_window_id (drop_prefix prefix key) && not (contains key live_window_ids))

-- Some window of the list has a state.
unfoldable pub any_window : List String → WindowStateStore → Bool
any_window [] store = false
any_window (wid ∷ wids) store = WindowStore.has_window wid store || any_window wids store

prune_from : SessionFile → List String → MapSync → MapSync
unfolding any_window schedule_save
prune_from (holds raw) live_window_ids s =
    let dead = select (is_dead (session_prefix s) live_window_ids) (keys raw) in
    let store = store_of s in
    let pruned = record (with_store (remove_windows dead store) s) {
      file = holds (pop_all dead raw);
    } in
    if is_empty dead then s else if any_window dead store then schedule_save pruned else pruned
prune_from _ live_window_ids s = s

unfoldable pub prune_session_map : List String → MapSync → MapSync
unfolding prune_from
prune_session_map live_window_ids s = prune_from s.file live_window_ids s

-- A key that `get_session_map_window_ids` collects.
abbrev pub is_tracked : String → String → Bool
is_tracked prefix key =
    if starts_with key prefix
    then is_window_id (drop_prefix prefix key)
    else starts_with key emdash_session_prefix

unfoldable pub get_session_map_window_ids : MapSync → List String
get_session_map_window_ids s = elim s.file [
  | holds raw ↦ select (is_tracked (session_prefix s)) (keys raw)
  | _ ↦ []
]

-- The session that a provider without hooks has for a window.
pub record Session : Type 0 where
  pub session_id : String
  pub cwd : String
  pub transcript_path : String
  pub provider_name : String

unfoldable pub register_hookless_session : String → Session → MapSync → MapSync
unfolding get_window_state assign schedule_save
register_hookless_session window_id x s =
    let (state, store) = get_window_state window_id (store_of s) in
    schedule_save (
      with_store
        (assign window_id
          (record state {
            session_id = x.session_id;
            cwd = x.cwd;
            transcript_path = x.transcript_path;
            provider_name = x.provider_name;
          })
          store)
        s)

-- The key of a window in the file.
unfoldable pub window_key : String → MapSync → String
window_key window_id s =
    if is_foreign_window window_id then window_id else session_prefix s <> window_id

-- What a write starts from: a corrupted or unreadable file counts as empty.
abbrev pub entries_of : SessionFile → Dict Entry
entries_of (holds raw) = raw
entries_of _ = []

unfoldable pub hookless_info : String → Session → Dict String
hookless_info display_name x =
    ("session_id", x.session_id)
    ∷ ("cwd", x.cwd)
    ∷ ("window_name", display_name)
    ∷ ("transcript_path", x.transcript_path)
    ∷ ("provider_name", x.provider_name)
    ∷ []

unfoldable pub write_hookless_session_map : String → Session → MapSync → MapSync
write_hookless_session_map window_id x s =
    let display_name = get_display_name window_id s.routing in
    record s {
      file =
          holds (
            put (window_key window_id s) (info (hookless_info display_name x)) (entries_of s.file));
    }

clear_from : SessionFile → String → MapSync → MapSync
clear_from (holds raw) window_id s =
    let key = window_key window_id s in
    if has key raw then record s { file = holds (pop key raw) } else s
clear_from _ window_id s = s

unfoldable pub clear_session_map_entry : String → MapSync → MapSync
unfolding clear_from
clear_session_map_entry window_id s = clear_from s.file window_id s
