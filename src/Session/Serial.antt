-- ===== src/Session/Serial.antt =====
-- core/session.py: `_serialize_state` and `_load_state`, over the dicts of the store, the
-- preferences and the router.
use unified_icc.Base.{
  String, Bool, true, false, not, ◌&&◌, ◌||◌, ◌≡◌, refl, ap, Option, some, [], ◌∷◌, ◌>>=◌, any,
  is_empty,
}
use unified_icc.Base.Dict.{Dict, get, put, put_all, keys, has, HasUniqueKeys}
use unified_icc.Base.Json.{Json, object, read_object, entries-of_entries}
use unified_icc.WindowStore.{WindowStateStore}
use unified_icc.WindowStore.Serial as StoreSerial
use unified_icc.WindowStore.Serial.RoundTrip.{AllUnique, store_round_trip}
use unified_icc.Router.{ChannelRouter}
use unified_icc.Router.Serial as RouterSerial
use unified_icc.Router.Serial.{with_bindings}
use unified_icc.Router.Serial.Loading.{read_router}
use unified_icc.Resolver.{is_window_id, is_foreign_window}
use unified_icc.SessionMap.{store_of}
use unified_icc.Preferences.{UserPreferences}
use unified_icc.Preferences.Serial as PreferencesSerial
use unified_icc.Preferences.Serial.RoundTrip.{AreNumbers, read_preferences}
use unified_icc.Session.{SessionManager, routing_of, window_states, bound_windows}

unfoldable pub serialize_state : SessionManager → Dict Json
serialize_state s = put_all (RouterSerial.to_dict (routing_of s).router) (
    put_all (PreferencesSerial.to_dict s.preferences)
      (("window_states", object (StoreSerial.to_dict (store_of s.sync))) ∷ []))

-- A window that is named in the older format.
abbrev is_old_format : String → Bool
is_old_format k = not (is_window_id k) && not (is_foreign_window k)

-- Whether a message announces that the windows are resolved at the startup.
unfoldable pub needs_migration : SessionManager → Bool
needs_migration s =
    any is_old_format (keys (window_states s)) || any is_old_format (bound_windows s)

abbrev pub loaded :
    WindowStateStore → UserPreferences → ChannelRouter → SessionManager → SessionManager
loaded store preferences router s =
    let routing = record (routing_of s) { router = router; store = store } in
    record s { sync = record s.sync { routing = routing }; preferences = preferences }

module _ (int : String → Option String) where
  -- `none` for a value that makes a reader raise.
  unfoldable pub load_state : Dict Json → SessionManager → Option (Bool × SessionManager)
  load_state [] s = some (false, s)
  load_state (e ∷ d) s = do
    raw ← read_object "window_states" (e ∷ d)
    store ← StoreSerial.from_dict raw (store_of s.sync)
    preferences ← PreferencesSerial.from_dict int (e ∷ d) s.preferences
    router ← RouterSerial.from_dict int (e ∷ d) (routing_of s).router
    let s' = loaded store preferences router s
    some (needs_migration s', s')

  -- A dict is loaded if its readers succeed.
  load_parts :
      (d raw : Dict Json) (store : WindowStateStore) (preferences : UserPreferences)
      (router : ChannelRouter) (s : SessionManager)
      → is_empty d ≡ false
      → read_object "window_states" d ≡ some raw
      → StoreSerial.from_dict raw (store_of s.sync) ≡ some store
      → PreferencesSerial.from_dict int d s.preferences ≡ some preferences
      → RouterSerial.from_dict int d (routing_of s).router ≡ some router
      → load_state d s
        ≡ some
            (needs_migration (loaded store preferences router s), loaded store preferences router s)
  unfolding load_state
  load_parts [] raw store preferences router s full a b c e = cc
  load_parts (x ∷ d) raw store preferences router s full a b c e = simp (a, b, c, e)

  -- The state that is written is read back into any manager: the window states and the markers,
  -- the preferences and the routing, with the reverse index rebuilt. The default application has
  -- an entry, no window stands twice under an application, the user ids are texts of numbers, and
  -- no user stands twice.
  pub session_round_trip :
      (s s₀ : SessionManager)
      → has "" (store_of s.sync).created_windows ≡ true
      → AllUnique (store_of s.sync).created_windows
      → AreNumbers int s.preferences.user_window_offsets
      → AreNumbers int s.preferences.user_dir_favorites
      → HasUniqueKeys s.preferences.user_window_offsets
      → HasUniqueKeys s.preferences.user_dir_favorites
      → (let s' =
            loaded
              (record (store_of s₀.sync) {
                window_states = window_states s;
                created_windows = (store_of s.sync).created_windows;
              })
              (record s.preferences { saves = s₀.preferences.saves })
              (with_bindings
                (routing_of s).bindings
                (routing_of s).channel_meta
                (routing_of s).display_names
                (routing_of s₀).router)
              s₀ in
          load_state (serialize_state s) s₀ ≡ some (needs_migration s', s'))
  unfolding serialize_state read_object put_all put get StoreSerial.to_dict RouterSerial.to_dict
      PreferencesSerial.to_dict
  session_round_trip s s₀ has_default unique offset_ids favorite_ids offset_keys favorite_keys =
      let d = serialize_state s in
      load_parts d (StoreSerial.to_dict (store_of s.sync)) _ _ _ s₀ refl
        (ap some (entries-of_entries _))
        (store_round_trip (store_of s.sync) (store_of s₀.sync) has_default unique)
        (read_preferences int s.preferences s₀.preferences d refl refl offset_ids favorite_ids
          offset_keys favorite_keys)
        (read_router int (routing_of s).router (routing_of s₀).router d refl refl refl)
