-- ===== src/WindowStore/Serial.antt =====
-- tmux/window_state_store.py: `to_dict` and `from_dict` of a window's state and of the store.
pub mod RoundTrip
use unified_icc.Base.{
  String, Bool, true, false, not, Option, none, some, List, [], ◌∷◌, if◌then◌else◌, ◌==◌, ◌>>=◌,
  truthy, or_default, set_of,
}
use unified_icc.Base.Dict.{Dict, get, set_default}
use unified_icc.Base.Json.{
  Json, Items, Fields, null, bool, num, str, arr, obj, entries, object, of_texts, texts, read_text,
  read_bool, put_if,
}
use unified_icc.WindowStore.{
  WindowState, WindowStateStore, default_approval_mode, default_batch_mode,
}

-- A field that has its default is not written.
unfoldable pub state_to_dict : WindowState → Dict Json
state_to_dict s = put_if (truthy s.channel_id) "channel_id" (str s.channel_id) (
    put_if s.external "external" (bool true) (
      put_if (not (s.batch_mode == default_batch_mode)) "batch_mode" (str s.batch_mode) (
        put_if (not (s.approval_mode == default_approval_mode)) "approval_mode"
          (str s.approval_mode)
          (put_if (truthy s.provider_name) "provider_name" (str s.provider_name) (
            put_if (not (s.notification_mode == "all")) "notification_mode"
              (str s.notification_mode)
              (put_if (truthy s.transcript_path) "transcript_path" (str s.transcript_path) (
                put_if (truthy s.window_name) "window_name" (str s.window_name)
                  (("session_id", str s.session_id) ∷ ("cwd", str s.cwd) ∷ []))))))))

unfoldable pub state_from_dict : Dict Json → Option WindowState
unfolding read_text read_bool
state_from_dict d = do
  session_id ← read_text "session_id" "" d
  cwd ← read_text "cwd" "" d
  window_name ← read_text "window_name" "" d
  transcript_path ← read_text "transcript_path" "" d
  notification_mode ← read_text "notification_mode" "all" d
  provider_name ← read_text "provider_name" "" d
  approval_mode ← read_text "approval_mode" default_approval_mode d
  batch_mode ← read_text "batch_mode" default_batch_mode d
  external ← read_bool "external" false d
  channel_id ← read_text "channel_id" "" d
  some (record {
    session_id = session_id;
    cwd = cwd;
    window_name = window_name;
    transcript_path = transcript_path;
    notification_mode = notification_mode;
    provider_name = provider_name;
    approval_mode = approval_mode;
    batch_mode = batch_mode;
    external = external;
    channel_id = channel_id;
  })

unfoldable pub states_to_dict : Dict WindowState → Dict Json
states_to_dict [] = []
states_to_dict ((k, v) ∷ d) = (k, object (state_to_dict v)) ∷ states_to_dict d

unfoldable pub created_to_dict : Dict (List String) → Dict Json
created_to_dict [] = []
created_to_dict ((name, wids) ∷ d) = (name, arr (of_texts wids)) ∷ created_to_dict d

unfoldable pub to_dict : WindowStateStore → Dict Json
unfolding states_to_dict created_to_dict
to_dict s =
    ("window_states", object (states_to_dict s.window_states))
    ∷ ("_created_windows", object (created_to_dict s.created_windows))
    ∷ []

-- The comprehension over the entries that are dicts.
unfoldable pub states_from_dict : Dict Json → Option (Dict WindowState)
states_from_dict [] = some []
states_from_dict ((k, obj fs) ∷ d) = do
  rest ← states_from_dict d
  state ← state_from_dict (entries fs)
  some ((k, state) ∷ rest)
states_from_dict ((k, _) ∷ d) = states_from_dict d

unfoldable pub created_from_dict : Dict Json → Option (Dict (List String))
created_from_dict [] = some []
created_from_dict ((name, arr wids) ∷ d) = do
  rest ← created_from_dict d
  names ← texts wids
  some ((name, set_of names) ∷ rest)
created_from_dict (_ ∷ d) = none

-- `.items()` of a value, which only an object has
unfoldable pub items_of : Option Json → Dict Json → Option (Dict Json)
items_of none default = some default
items_of (some (obj fs)) default = some (entries fs)
items_of (some _) default = none

-- A file that has no "window_states" is read as the states themselves.
unfoldable pub from_dict : Dict Json → WindowStateStore → Option WindowStateStore
unfolding states_from_dict created_from_dict items_of
from_dict d s = do
  state_items ← items_of (get "window_states" d) d
  states ← states_from_dict state_items
  raw ← items_of (get "_created_windows" d) []
  created ← created_from_dict raw
  some (record s { window_states = states; created_windows = set_default "" [] created })
