-- ===== src/SessionMap/Tests.antt =====
-- Session maps to run the syncing on, and the theorems at them.
use unified_icc.Base.{
  String, true, ◌≡◌, refl, ◌≢◌, none, some, [], ◌∷◌, arith, if◌then◌else◌, eq_iff, contains, select,
  truthy,
}
use unified_icc.Base.Dict.{Dict, get, put, pop, keys, pop_all, HasUniqueKeys}
use unified_icc.Base.Text.{drop_prefix}
use unified_icc.WindowStore.{new_state, new_store, state_of, has_window}
use unified_icc.Resolver.{is_window_id}
use unified_icc.SessionMap.{
  Entry, info, other, holds, MapSync, store_of, session_prefix, field, remove_windows,
}
use unified_icc.SessionMap.Parsing.{
  parse_session_map, parse_from, window_name_of, parsed_info, parse_named,
}
use unified_icc.SessionMap.Parsing.Laws.{
  Source, parse_session_map_sound, parse_session_map_complete,
}
use unified_icc.SessionMap.Sync.{sync_window}
use unified_icc.SessionMap.Sync.Laws.{Matches, is_unnamed, sync_window_lem}
use unified_icc.Router.{get_display_name}
use unified_icc.SessionMap.Loading.{remove_stale_window_states, bound_wids, is_stale_state}
use unified_icc.SessionMap.Loading.Laws.{get-remove_stale, remove_stale_keeps_bound}
use unified_icc.SessionMap.Pruning.{
  prune_session_map, is_dead, get_session_map_window_ids, entries_of, Session,
}
use unified_icc.SessionMap.Pruning.Laws.{file-prune}

abbrev hook_entry : Dict String
hook_entry = ("session_id", "s1") ∷ ("cwd", "/tmp") ∷ ("provider_name", "Claude") ∷ []

abbrev raw : Dict Entry
raw = ("icc:@1", info hook_entry) ∷ ("icc:@2", info hook_entry) ∷ ("notes", other) ∷ []

-- Two windows have entries, and a third one has a state and a binding only.
abbrev map_sync : MapSync
map_sync = record {
  routing = record {
    router = record {
      bindings = ("feishu:a", "icc:@3") ∷ [];
      reverse = ("icc:@3", "feishu:a" ∷ []) ∷ [];
      display_names = [];
      channel_meta = [];
      saves = 0;
    };
    store = record new_store {
      window_states = ("icc:@1", new_state) ∷ ("icc:@3", new_state) ∷ ("icc:@4", new_state) ∷ [];
    };
    kills = [];
  };
  file = holds raw;
  tmux_session = "icc";
  saves = 0;
}

raw_keys : HasUniqueKeys raw
unfolding get
raw_keys = (refl, (refl, (refl, tt)))

parses : get "@1" (parse_session_map raw "icc:") ≡ some (parsed_info hook_entry)
unfolding parse_session_map parse_from window_name_of parse_named drop_prefix get put
parses = refl

parse_session_map_sound_example : Source "icc:" "@1" (parsed_info hook_entry) raw
parse_session_map_sound_example =
    parse_session_map_sound raw "icc:" "@1" (parsed_info hook_entry) raw_keys parses

first_listed : get "icc:@1" raw ≡ some (info hook_entry)
unfolding get
first_listed = refl

first_named : window_name_of "icc:" "icc:@1" ≡ some "@1"
unfolding window_name_of drop_prefix
first_named = refl

has_session : truthy (field "session_id" hook_entry) ≡ true
unfolding get
has_session = refl

parse_session_map_complete_example : get "@1" (parse_session_map raw "icc:") ≢ none
parse_session_map_complete_example =
    parse_session_map_complete raw "icc:" "icc:@1" "@1" hook_entry first_listed first_named
      has_session

abbrev named_entry : Dict String
named_entry = ("window_name", "work") ∷ hook_entry

named_session : truthy (field "session_id" named_entry) ≡ true
unfolding get
named_session = refl

sync_window_lem_example :
    (let t = (sync_window "icc:@9" named_entry true map_sync).1 in
      Matches named_entry true (state_of "icc:@9" (store_of t))
      × ((state_of "icc:@9" (store_of t)).window_name ≡ (
          if is_unnamed "icc:@9" named_entry true map_sync
          then field "window_name" named_entry
          else (state_of "icc:@9" (store_of map_sync)).window_name))
      × (get_display_name "icc:@9" t.routing ≡ (
          if is_unnamed "icc:@9" named_entry true map_sync
          then field "window_name" named_entry
          else get_display_name "icc:@9" map_sync.routing)))
sync_window_lem_example = sync_window_lem "icc:@9" named_entry true map_sync named_session

first_not_third : ◌≢◌ {A = String} "icc:@1" "icc:@3"
first_not_third e = ground (arith, (eq_iff "icc:@1" "icc:@3").1 e)

get-remove_stale_example :
    get "icc:@4" (store_of (remove_stale_window_states ("icc:@1" ∷ []) [] map_sync).1).window_states
    ≡ (if is_stale_state ("icc:@1" ∷ []) [] (bound_wids map_sync) (store_of map_sync) "icc:@4"
        then none
        else get "icc:@4" (store_of map_sync).window_states)
get-remove_stale_example = get-remove_stale "icc:@4" ("icc:@1" ∷ []) [] map_sync

binds_third : get "feishu:a" map_sync.routing.router.bindings ≡ some "icc:@3"
unfolding get
binds_third = refl

binding_keys : HasUniqueKeys map_sync.routing.router.bindings
unfolding get
binding_keys = (refl, tt)

remove_stale_keeps_bound_example :
    get "icc:@3" (store_of (remove_stale_window_states ("icc:@1" ∷ []) [] map_sync).1).window_states
    ≡ get "icc:@3" (store_of map_sync).window_states
remove_stale_keeps_bound_example =
    remove_stale_keeps_bound "feishu:a" "icc:@3" ("icc:@1" ∷ []) [] map_sync binding_keys
      ((λ e. refl), tt) binds_third refl

file-prune_example : get "icc:@2" (entries_of (prune_session_map ("icc:@1" ∷ []) map_sync).file) ≡ (
    if is_dead (session_prefix map_sync) ("icc:@1" ∷ []) "icc:@2" then none else get "icc:@2" raw)
file-prune_example = file-prune ("icc:@1" ∷ []) raw map_sync "icc:@2" refl

-- Pruning leaves the entry of the live window.
first_tracked :
    contains "icc:@1" (get_session_map_window_ids (prune_session_map ("icc:@1" ∷ []) map_sync))
    ≡ true
unfolding prune_session_map is_window_id drop_prefix get_session_map_window_ids keys pop_all pop
    contains select get remove_windows has_window
first_tracked = refl

abbrev codex_session : Session
codex_session = record {
  session_id = "s2";
  cwd = "/work";
  transcript_path = "/t/s2.jsonl";
  provider_name = "codex";
}
