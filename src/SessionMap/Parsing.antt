-- ===== src/SessionMap/Parsing.antt =====
-- state/session_map.py: the free functions `parse_session_map` and `parse_emdash_provider`.
pub mod Laws
use unified_icc.Base.{
  ℕ, ◌+◌, String, ◌<>◌, Bool, true, false, not, ◌&&◌, ◌||◌, Option, none, some, List, [], ◌∷◌, ◌++◌,
  if◌then◌else◌, ◌==◌, truthy, or_default, is_some, points_to, contains, add, select, is_empty,
  starts_with,
}
use unified_icc.Base.Dict.{Dict, get, put, pop, pop_all, keys, has}
use unified_icc.Base.Text.{
  lower, contains_text, drop_prefix, remove_prefix, before, before_last_colon,
}
use unified_icc.WindowStore
use unified_icc.WindowStore.{WindowState, WindowStateStore, get_window_state, state_of, assign}
use unified_icc.Router.{ChannelRouter, Routing, get_display_name, set_display_name}
use unified_icc.Resolver.{is_window_id, is_foreign_window, emdash_session_prefix}
use unified_icc.SessionMap.{
  Entry, info, other, SessionFile, missing, unreadable, holds, MapSync, store_of, with_store,
  schedule_save, field, session_prefix, remove_windows,
}

-- The window name of a key, by the prefix or by the legacy one; `none` for `continue`.
unfoldable pub window_name_of : String → String → Option String
unfolding drop_prefix
window_name_of prefix key =
    if starts_with key prefix
    then some (drop_prefix prefix key)
    else if starts_with prefix "ccgram:" && starts_with key "ccbot:"
    then some (drop_prefix "ccbot:" key)
    else none

unfoldable pub parsed_info : Dict String → Dict String
parsed_info d =
    ("session_id", field "session_id" d)
    ∷ ("cwd", field "cwd" d)
    ∷ ("window_name", field "window_name" d)
    ∷ ("transcript_path", field "transcript_path" d)
    ∷ ("provider_name", field "provider_name" d)
    ∷ []

-- One round of the loop of `parse_session_map`, once the key has a window name.
unfoldable pub parse_named : Option String → Entry → Dict (Dict String) → Dict (Dict String)
unfolding parsed_info
parse_named (some name) (info d) result =
    if truthy (field "session_id" d) then put name (parsed_info d) result else result
parse_named _ _ result = result

unfoldable pub parse_from : String → Dict Entry → Dict (Dict String) → Dict (Dict String)
unfolding window_name_of parse_named
parse_from prefix [] result = result
parse_from prefix ((key, e) ∷ raw) result =
    parse_from prefix raw (parse_named (window_name_of prefix key) e result)

unfoldable pub parse_session_map : Dict Entry → String → Dict (Dict String)
unfolding parse_from
parse_session_map raw prefix = parse_from prefix raw []

unfoldable pub parse_emdash_provider : String → String
unfolding contains_text remove_prefix before
parse_emdash_provider session_name =
    if contains_text "-main-" session_name
    then remove_prefix emdash_session_prefix (before "-main-" session_name)
    else if contains_text "-chat-" session_name
    then remove_prefix emdash_session_prefix (before "-chat-" session_name)
    else ""
