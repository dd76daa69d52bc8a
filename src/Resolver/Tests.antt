-- ===== src/Resolver/Tests.antt =====
-- Persisted dicts to run the recovery on, and the theorems at them.
use unified_icc.Base.{true, false, ◌≡◌, refl, [], ◌∷◌, contains}
use unified_icc.Base.Dict.{get, put, pop, has}
use unified_icc.WindowStore.{new_state}
use unified_icc.Resolver.{
  LiveWindow, Persisted, resolve_stale_ids, resolve_window_states, resolve_thread_bindings,
  resolve_bindings, resolve_binding, resolve_offsets, resolve_user_offsets, resolve_offset,
  resolve_state, live_by_name, live_ids, is_window_id, is_foreign_window,
}
use unified_icc.Resolver.Unchanged.{IsLoaded, resolve_stale_ids_unchanged}
use unified_icc.Resolver.Kept.{is_known_id, AllKnown, resolve_stale_ids_known}

abbrev project : LiveWindow
project = record { window_id = "@4"; window_name = "project" }

-- A window whose id has changed since it was stored, and a foreign one.
abbrev stored : Persisted
stored = record {
  window_states =
      ("@1", record new_state { window_name = "project" }) ∷ ("emdash-x:@0", new_state) ∷ [];
  thread_bindings = ("7", ("12", "@1") ∷ []) ∷ [];
  user_window_offsets = [];
  window_display_names = ("@1", "project") ∷ [];
}

recovered : Persisted
recovered = record {
  window_states =
      ("@4", record new_state { window_name = "project" }) ∷ ("emdash-x:@0", new_state) ∷ [];
  thread_bindings = ("7", ("12", "@1") ∷ []) ∷ [];
  user_window_offsets = [];
  window_display_names = ("@4", "project") ∷ [];
}

-- The states follow the window to its new id. The display name of the old id is gone by the time
-- the bindings are looked at, so they do not.
recovers : resolve_stale_ids (project ∷ []) stored ≡ (true, recovered)
unfolding resolve_stale_ids resolve_window_states resolve_state resolve_thread_bindings
    resolve_bindings resolve_binding resolve_offsets live_by_name live_ids is_window_id
    is_foreign_window get put pop contains recovered
recovers = refl

-- The window is live under its stored id.
abbrev settled : Persisted
settled = record {
  window_states = ("@4", record new_state { window_name = "project" }) ∷ [];
  thread_bindings = ("7", ("12", "@4") ∷ []) ∷ [];
  user_window_offsets = ("7", ("@4", 3) ∷ []) ∷ [];
  window_display_names = ("@4", "project") ∷ [];
}

settled-IsLoaded : IsLoaded settled
unfolding get
settled-IsLoaded = record {
  states = (refl, tt);
  threads = (refl, tt);
  offsets = (refl, tt);
  thread_keys = ((refl, tt), tt);
  offset_keys = ((refl, tt), tt);
  nonempty = (refl, tt);
}

settles : (resolve_stale_ids (project ∷ []) settled).0 ≡ false
unfolding resolve_stale_ids resolve_window_states resolve_state resolve_thread_bindings
    resolve_bindings resolve_binding resolve_offsets resolve_user_offsets resolve_offset
    live_by_name live_ids is_window_id is_foreign_window get put pop contains
settles = refl

resolve_stale_ids_unchanged_example : (resolve_stale_ids (project ∷ []) settled).1 ≡ settled
resolve_stale_ids_unchanged_example =
    resolve_stale_ids_unchanged (project ∷ []) settled settled-IsLoaded settles

project-AllKnown : AllKnown (project ∷ [])
unfolding is_window_id is_foreign_window
project-AllKnown = (refl, tt)

project-listed : has "@4" (resolve_stale_ids (project ∷ []) stored).1.window_states ≡ true
unfolding resolve_stale_ids resolve_window_states resolve_state resolve_thread_bindings
    resolve_bindings resolve_binding resolve_offsets live_by_name live_ids is_window_id
    is_foreign_window get put pop contains
project-listed = refl

resolve_stale_ids_known_example : is_known_id "@4" ≡ true
resolve_stale_ids_known_example =
    resolve_stale_ids_known (project ∷ []) stored "@4" project-AllKnown project-listed
