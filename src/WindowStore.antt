-- ===== src/WindowStore.antt =====
-- tmux/window_state_store.py: the per-window state, the markers of created windows and the
-- operations on them. `saves` counts the calls of the callback `_schedule_save`, and `switches`
-- holds the windows that `_on_hookless_provider_switch` was called with, newest first.
pub mod Access
pub mod Modes
pub mod Created
pub mod Sessions
pub mod Serial
mod Tests
use unified_icc.Base.{
  ℕ, ◌+◌, String, Bool, true, false, not, ◌&&◌, ◌||◌, Option, none, some, List, [], ◌∷◌,
  if◌then◌else◌, ◌==◌, truthy, or_default, contains, add, discard, union, is_empty, is_some, select,
}
use unified_icc.Base.Dict.{Dict, get, put, pop, keys, has, set_default, pop_all}

pub record WindowState : Type 0 where
  pub session_id : String
  pub cwd : String
  pub window_name : String
  pub transcript_path : String
  pub notification_mode : String
  pub provider_name : String
  pub approval_mode : String
  pub batch_mode : String
  pub external : Bool
  pub channel_id : String

abbrev pub default_approval_mode : String
default_approval_mode = "normal"

abbrev pub approval_modes : List String
approval_modes = "normal" ∷ "yolo" ∷ []

abbrev pub batch_modes : List String
batch_modes = "batched" ∷ "verbose" ∷ []

abbrev pub default_batch_mode : String
default_batch_mode = "batched"

abbrev pub notification_modes : List String
notification_modes = "all" ∷ "errors_only" ∷ "muted" ∷ []

-- `WindowState()`
abbrev pub new_state : WindowState
new_state = record {
  session_id = "";
  cwd = "";
  window_name = "";
  transcript_path = "";
  notification_mode = "all";
  provider_name = "";
  approval_mode = default_approval_mode;
  batch_mode = default_batch_mode;
  external = false;
  channel_id = "";
}

pub record WindowStateStore : Type 0 where
  pub window_states : Dict WindowState
  pub created_windows : Dict (List String)
  pub saves : ℕ
  pub switches : List String

-- A new store: one application, the default one, with no window.
abbrev pub new_store : WindowStateStore
new_store = record { window_states = []; created_windows = ("", []) ∷ []; saves = 0; switches = [] }

unfoldable pub schedule_save : WindowStateStore → WindowStateStore
schedule_save s = record s { saves = s.saves + 1 }

unfoldable pub reset : WindowStateStore → WindowStateStore
reset s = record s { window_states = []; created_windows = ("", []) ∷ [] }

-- Created windows

-- The set that an application has, the empty one if it has none.
abbrev pub created_of : String → Dict (List String) → List String
created_of app_name d = or_default (get app_name d) []

unfoldable pub mark_window_created : String → String → WindowStateStore → WindowStateStore
unfolding schedule_save
mark_window_created window_id app_name s = schedule_save (record s {
  created_windows =
      put app_name (add window_id (created_of app_name s.created_windows)) s.created_windows;
})

unfoldable pub is_created_window : String → String → WindowStateStore → Bool
is_created_window window_id app_name s =
    if contains window_id (created_of "" s.created_windows)
    then true
    else contains window_id (created_of app_name s.created_windows)

-- The loop of `remove_created_window`: an application that has no window left is deleted.
unfoldable pub discard_everywhere : String → Dict (List String) → Dict (List String)
discard_everywhere window_id [] = []
discard_everywhere window_id ((name, windows) ∷ d) =
    let rest = discard_everywhere window_id d in
    let left = discard window_id windows in if is_empty left then rest else (name, left) ∷ rest

unfoldable pub remove_created_window : String → WindowStateStore → WindowStateStore
unfolding discard_everywhere schedule_save
remove_created_window window_id s = schedule_save (record s {
  created_windows = set_default "" [] (discard_everywhere window_id s.created_windows);
})

union_all : List String → Dict (List String) → List String
union_all result [] = result
union_all result ((_, windows) ∷ d) = union_all (union result windows) d

unfoldable pub get_created_windows : String → WindowStateStore → List String
unfolding union_all
get_created_windows app_name s =
    if truthy app_name
    then created_of app_name s.created_windows
    else union_all [] s.created_windows

-- Window states

-- The object that `get_window_state` returns, and the store that holds it.
unfoldable pub state_of : String → WindowStateStore → WindowState
state_of window_id s = or_default (get window_id s.window_states) new_state

unfoldable pub get_window_state : String → WindowStateStore → WindowState × WindowStateStore
unfolding state_of
get_window_state window_id s = (
  state_of window_id s,
  record s { window_states = set_default window_id new_state s.window_states },
)

-- Assignments to the fields of a state that is in the store.
unfoldable pub assign : String → WindowState → WindowStateStore → WindowStateStore
assign window_id state s = record s { window_states = put window_id state s.window_states }

unfoldable pub update_cwd : String → String → WindowStateStore → WindowStateStore
unfolding state_of assign schedule_save
update_cwd window_id cwd s =
    if has window_id s.window_states
    then schedule_save (assign window_id (record (state_of window_id s) { cwd = cwd }) s)
    else s

unfoldable pub clear_session_fields : String → WindowStateStore → WindowStateStore
unfolding state_of assign schedule_save
clear_session_fields window_id s =
    if has window_id s.window_states
    then schedule_save
        (assign window_id (record (state_of window_id s) { session_id = ""; cwd = "" }) s)
    else s

unfoldable pub clear_window_session : String → WindowStateStore → WindowStateStore
unfolding get_window_state assign schedule_save
clear_window_session window_id s =
    let (state, s') = get_window_state window_id s in
    schedule_save
      (assign window_id (record state { session_id = ""; notification_mode = "all" }) s')

session_of : Option WindowState → Option String
session_of none = none
session_of (some state) = if truthy state.session_id then some state.session_id else none

unfoldable pub get_session_id_for_window : String → WindowStateStore → Option String
unfolding session_of
get_session_id_for_window window_id s = session_of (get window_id s.window_states)

unfoldable pub find_window : String → Dict WindowState → Option String
find_window session_id [] = none
find_window session_id ((wid, state) ∷ d) =
    if state.session_id == session_id then some wid else find_window session_id d

unfoldable pub find_window_by_session : String → WindowStateStore → Option String
unfolding find_window
find_window_by_session session_id s = find_window session_id s.window_states

unfoldable pub set_window_channel : String → String → WindowStateStore → WindowStateStore
unfolding get_window_state assign schedule_save
set_window_channel window_id channel_id s =
    let (state, s') = get_window_state window_id s in
    schedule_save (assign window_id (record state { channel_id = channel_id }) s')

channel_of_state : Option WindowState → Option String
channel_of_state none = none
channel_of_state (some state) = if truthy state.channel_id then some state.channel_id else none

channel_of_window : Option String → WindowStateStore → Option String
unfolding channel_of_state
channel_of_window none s = none
channel_of_window (some window_id) s =
    if truthy window_id then channel_of_state (get window_id s.window_states) else none

unfoldable pub find_channel_by_session : String → WindowStateStore → Option String
unfolding find_window_by_session channel_of_window
find_channel_by_session session_id s = channel_of_window (find_window_by_session session_id s) s

unfoldable pub has_window : String → WindowStateStore → Bool
has_window window_id s = has window_id s.window_states

unfoldable pub iter_window_ids : WindowStateStore → List String
iter_window_ids s = keys s.window_states

-- The result tells whether there was a state to remove.
unfoldable pub remove_window : String → WindowStateStore → Bool × WindowStateStore
unfolding schedule_save
remove_window window_id s =
    if has window_id s.window_states
    then (true, schedule_save (record s { window_states = pop window_id s.window_states }))
    else (false, s)

-- A hook of the old provider is no use to a provider without hooks: its session is forgotten.
switch_provider : String → WindowState → WindowStateStore → WindowStateStore
unfolding assign
switch_provider window_id state s =
    let forgotten =
      if truthy state.session_id
      then record state { session_id = ""; transcript_path = "" }
      else state in
    let s' = assign window_id forgotten s in record s' { switches = window_id ∷ s'.switches }

-- `cwd` is `none` for `None`; an empty text is not stored either.
unfoldable pub set_window_provider :
    String → String → Option String → Bool → WindowStateStore → WindowStateStore
unfolding get_window_state assign schedule_save switch_provider
set_window_provider window_id provider_name cwd new_provider_supports_hook s =
    let (state, s') = get_window_state window_id s in
    let new_cwd = or_default cwd "" in
    let named = record state { provider_name = provider_name } in
    let state' = if truthy new_cwd then record named { cwd = new_cwd } else named in
    let switches =
      not (state.provider_name == provider_name)
      && (truthy provider_name && not new_provider_supports_hook) in
    schedule_save
      (if switches then switch_provider window_id state' s' else assign window_id state' s')

-- The condition of the comprehension `stale`.
abbrev pub is_stale : List String → List String → List String → String → Bool
is_stale live_window_ids session_map_wids bound_window_ids wid =
    not (contains wid session_map_wids)
    && (not (contains wid bound_window_ids) && not (contains wid live_window_ids))

unfoldable pub prune_stale_window_states :
    List String → List String → List String → WindowStateStore → Bool × WindowStateStore
unfolding select pop_all schedule_save
prune_stale_window_states live_window_ids session_map_wids bound_window_ids s =
    let stale =
      select (is_stale live_window_ids session_map_wids bound_window_ids) (keys s.window_states) in
    if is_empty stale
    then (false, s)
    else (true, schedule_save (record s { window_states = pop_all stale s.window_states }))
