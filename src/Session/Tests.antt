-- ===== src/Session/Tests.antt =====
-- A state to audit, to prune, to write and to recover, and the theorems at it.
use unified_icc.Base.{String, true, false, ◌≡◌, refl, Option, some, List, [], ◌∷◌}
use unified_icc.Base.Dict.{get}
use unified_icc.WindowStore.{WindowState, new_state, new_store}
use unified_icc.Router.{Routing}
use unified_icc.Router.Serial.{with_bindings}
use unified_icc.Resolver.{LiveWindow}
use unified_icc.SessionMap.{info, holds, store_of}
use unified_icc.Session.{SessionManager, routing_of, window_states, prune_stale_state}
use unified_icc.Session.Audit.{reports, audit_state}
use unified_icc.Mailbox.{new_inbox}
use unified_icc.Session.Audit.Pruned.{nothing_orphaned_left}
use unified_icc.Session.Serial.{
  serialize_state, load_state, loaded, needs_migration, session_round_trip,
}
use unified_icc.Session.Startup.{resolve_stale_ids, state_of, startup_keeps_bindings}

abbrev quoted : String → String
quoted s = s

abbrev number : String → Option String
number s = some s

abbrev named : String → WindowState
named name = record new_state { window_name = name }

abbrev routing : Routing
routing = record {
  router = record {
    bindings = ("feishu:a", "@1") ∷ ("feishu:b", "@9") ∷ [];
    reverse = ("@1", "feishu:a" ∷ []) ∷ ("@9", "feishu:b" ∷ []) ∷ [];
    display_names = ("@1", "one") ∷ ("@7", "seven") ∷ [];
    channel_meta = [];
    saves = 0;
  };
  store = record new_store {
    window_states = ("@1", named "one") ∷ ("icc:@2", named "two") ∷ ("@3", named "") ∷ [];
  };
  kills = [];
}

-- The window with the state "icc:@2" is in the session map; "@3" is nowhere else.
abbrev manager : SessionManager
manager = record {
  sync = record {
    routing = routing;
    file = holds (("icc:@2", info []) ∷ []);
    tmux_session = "icc";
    saves = 0;
  };
  preferences = record {
    user_dir_favorites = [];
    user_window_offsets = ("7", ("@1", 3) ∷ ("@8", 4) ∷ []) ∷ [];
    saves = 0;
  };
  saves = 0;
  mailbox = ("icc=@1", new_inbox) ∷ [];
}

abbrev live : List String
live = "@1" ∷ []

abbrev windows : List (String × String)
windows = ("@1", "uno") ∷ []

nothing_orphaned_left_example :
    (let after = audit_state quoted live windows (prune_stale_state live true manager).1 in
      (reports "orphaned_display_name" after.issues ≡ false)
      × (reports "stale_offset" after.issues ≡ false))
nothing_orphaned_left_example = nothing_orphaned_left quoted live windows true manager

session_round_trip_example :
    (let s' =
        loaded
          (record (store_of manager.sync) {
            window_states = window_states manager;
            created_windows = (store_of manager.sync).created_windows;
          })
          (record manager.preferences { saves = manager.preferences.saves })
          (with_bindings
            (routing_of manager).bindings
            (routing_of manager).channel_meta
            (routing_of manager).display_names
            (routing_of manager).router)
          manager in
      load_state number (serialize_state manager) manager ≡ some (needs_migration s', s'))
unfolding get
session_round_trip_example =
    session_round_trip number manager manager refl (tt, tt) (refl, tt) tt (refl, tt) tt

abbrev live_window : LiveWindow
live_window = record { window_id = "@5"; window_name = "one" }

startup_keeps_bindings_example :
    (routing_of (state_of (resolve_stale_ids (live_window ∷ []) manager))).bindings
    ≡ (routing_of manager).bindings
startup_keeps_bindings_example = startup_keeps_bindings (live_window ∷ []) manager
