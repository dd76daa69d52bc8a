-- ===== src/SessionMap.antt =====
-- state/session_map.py: the session map file against the window states. An entry that is a dict
-- holds texts, as the hook writes it; `other` is an entry that is no dict. The file is missing,
-- unreadable (a decoding or an I/O error), or holds a map. `saves` counts the calls of the map's
-- own `_schedule_save`.
pub mod Parsing
pub mod Sync
pub mod Loading
pub mod Pruning
mod Tests
use unified_icc.Base.{
  ℕ, ◌+◌, String, ◌<>◌, Bool, true, false, not, ◌&&◌, ◌||◌, Option, none, some, List, [], ◌∷◌, ◌++◌,
  if◌then◌else◌, ◌==◌, truthy, or_default, is_some, points_to, contains, add, select, is_empty,
  starts_with,
}
use unified_icc.Base.Dict.{Dict, get, put, pop, pop_all, keys, has}
use unified_icc.Base.Text.{
  lower, contains_text, drop_prefix, remove_prefix, before, before_last_colon,
}
use unified_icc.WindowStore
use unified_icc.WindowStore.{WindowState, WindowStateStore, get_window_state, state_of, assign}
use unified_icc.Router.{ChannelRouter, Routing, get_display_name, set_display_name}
use unified_icc.Resolver.{is_window_id, is_foreign_window, emdash_session_prefix}

pub data Entry : Type 0 where
  info : Dict String → Entry
  other : Entry

pub data SessionFile : Type 0 where
  missing unreadable : SessionFile
  holds : Dict Entry → SessionFile

-- The module's reach: the router and the store, the file, and `config.tmux_session`.
pub record MapSync : Type 0 where
  pub routing : Routing
  pub file : SessionFile
  pub tmux_session : String
  pub saves : ℕ

abbrev pub store_of : MapSync → WindowStateStore
store_of s = s.routing.store

abbrev pub with_store : WindowStateStore → MapSync → MapSync
with_store store s = record s { routing = record s.routing { store = store } }

unfoldable pub schedule_save : MapSync → MapSync
schedule_save s = record s { saves = s.saves + 1 }

-- `info.get(k, "")`
abbrev pub field : String → Dict String → String
field k d = or_default (get k d) ""

-- `f"{config.tmux_session}:"`
abbrev pub session_prefix : MapSync → String
session_prefix s = s.tmux_session <> ":"

-- `for wid in wids: window_store.remove_window(wid)`
unfoldable pub remove_windows : List String → WindowStateStore → WindowStateStore
remove_windows [] store = store
remove_windows (wid ∷ wids) store = remove_windows wids (WindowStore.remove_window wid store).1
