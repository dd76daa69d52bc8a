-- ===== src/SessionMap/Pruning/Laws.antt =====
-- state/session_map.py: what pruning, writing and clearing leave in the file and in the store.
use unified_icc.Base.{
  String, true, ◌&&◌, ◌≡◌, refl, ap, ◌∙◌, none, some, List, [], arith, if◌then◌else◌, ◌==◌, eq_iff,
  starts_with, contains, contains-nil, select, contains-select, is_empty, Bool-cases, inl, inr,
  if_both,
}
use unified_icc.Base.Dict.{Dict, get, keys, get-put, get-pop, has, contains-keys, get-pop_all}
use unified_icc.Router.{get_display_name}
use unified_icc.SessionMap.{
  MapSync, Entry, info, SessionFile, holds, missing, unreadable, store_of, session_prefix,
  schedule_save,
}
use unified_icc.SessionMap.Loading.Laws.{get-remove_windows}
use unified_icc.SessionMap.Pruning.{
  is_dead, is_tracked, clear_from, any_window, prune_from, prune_session_map,
  get_session_map_window_ids, write_hookless_session_map, clear_session_map_entry, window_key,
  entries_of, Session, hookless_info,
}

module _ (live : List String) (raw : Dict Entry) (s : MapSync) (key : String)
    (h : s.file ≡ holds raw) where
  abbrev dead_keys : List String
  dead_keys = select (is_dead (session_prefix s) live) (keys raw)

  dead_listed : contains key dead_keys ≡ (is_dead (session_prefix s) live key && has key raw)
  dead_listed =
      contains-select (is_dead (session_prefix s) live) key (keys raw)
      ∙ ap (λ b. is_dead (session_prefix s) live key && b) (contains-keys key raw)

  -- Pruning a readable session map removes exactly the native entries whose windows are not live.
  pub file-prune :
      get key (entries_of (prune_session_map live s).file)
      ≡ (if is_dead (session_prefix s) live key then none else get key raw)
  unfolding prune_session_map prune_from
  file-prune = elim (Bool-cases (is_empty dead_keys)) [
    | inl nothing ↦
        rw (h, prune_from, nothing) (ground (arith, nothing, dead_listed, contains-nil key))
    | inr something ↦ elim (Bool-cases (any_window dead_keys (store_of s))) [
      | inl states ↦
          rw (h, prune_from, something, states)
            (ground (arith, get-pop_all key dead_keys raw, dead_listed))
      | inr no_states ↦
          rw (h, prune_from, something, no_states)
            (ground (arith, get-pop_all key dead_keys raw, dead_listed))
    ]
  ]

  -- Pruning a readable session map removes from the store exactly the states of the entries that
  -- it removes from the file.
  pub states-prune : get key (store_of (prune_session_map live s)).window_states ≡ (
      if is_dead (session_prefix s) live key && has key raw
      then none
      else get key (store_of s).window_states)
  unfolding prune_session_map prune_from
  states-prune = elim (Bool-cases (is_empty dead_keys)) [
    | inl nothing ↦
        rw (h, prune_from, nothing) (ground (arith, nothing, dead_listed, contains-nil key))
    | inr something ↦ elim (Bool-cases (any_window dead_keys (store_of s))) [
      | inl states ↦
          rw (h, prune_from, something, states)
            (ground (arith, get-remove_windows key dead_keys (store_of s), dead_listed))
      | inr no_states ↦
          rw (h, prune_from, something, no_states)
            (ground (arith, get-remove_windows key dead_keys (store_of s), dead_listed))
    ]
  ]

tracked-has :
    (prefix key : String) (f : SessionFile)
    → contains key (elim f [ holds raw ↦ select (is_tracked prefix) (keys raw) | _ ↦ [] ]) ≡ true
    → (is_tracked prefix key ≡ true) × (has key (entries_of f) ≡ true)
tracked-has prefix key (holds raw) t =
    ground (arith, t, contains-select (is_tracked prefix) key (keys raw), contains-keys key raw)
tracked-has prefix key missing t = absurd (cc (contains-nil key))
tracked-has prefix key unreadable t = absurd (cc (contains-nil key))

tmux_session-prune :
    (live : List String) (s : MapSync) → (prune_session_map live s).tmux_session ≡ s.tmux_session
unfolding prune_session_map prune_from
tmux_session-prune live s = ground arith

-- After the pruning of a readable file, every native window that the file tracks is live.
pub tracked_live :
    (live : List String) (raw : Dict Entry) (s : MapSync) (key : String)
    → s.file ≡ holds raw
    → contains key (get_session_map_window_ids (prune_session_map live s)) ≡ true
    → starts_with key (session_prefix s) ≡ true
    → contains key live ≡ true
unfolding get_session_map_window_ids
tracked_live live raw s key h tracked native =
    let (shape, there) =
      tracked-has (session_prefix (prune_session_map live s)) key (prune_session_map live s).file
        tracked in
    ground (arith, tmux_session-prune live s, shape, there, file-prune live raw s key h, native)

-- write_hookless_session_map gives the key of the window its entry and leaves every other entry of
-- the file.
pub get-write :
    (window_id key : String) (x : Session) (s : MapSync)
    → get key (entries_of (write_hookless_session_map window_id x s).file) ≡ (
        if window_key window_id s == key
        then some (info (hookless_info (get_display_name window_id s.routing) x))
        else get key (entries_of s.file))
unfolding write_hookless_session_map
get-write window_id key x s =
    get-put key (window_key window_id s)
      (info (hookless_info (get_display_name window_id s.routing) x)) (entries_of s.file)

get-clear_from :
    (window_id key : String) (s : MapSync) (f : SessionFile)
    → s.file ≡ f
    → get key (entries_of (clear_from f window_id s).file)
      ≡ (if window_key window_id s == key then none else get key (entries_of f))
unfolding clear_from get
get-clear_from window_id key s (holds raw) h =
    ground (arith, h, get-pop key (window_key window_id s) raw, eq_iff (window_key window_id s) key)
get-clear_from window_id key s missing h = ground (arith, h)
get-clear_from window_id key s unreadable h = ground (arith, h)

-- clear_session_map_entry removes the entry of the window and no other.
pub get-clear :
    (window_id key : String) (s : MapSync)
    → get key (entries_of (clear_session_map_entry window_id s).file)
      ≡ (if window_key window_id s == key then none else get key (entries_of s.file))
unfolding clear_session_map_entry
get-clear window_id key s = get-clear_from window_id key s s.file refl

router-prune_from :
    (file : SessionFile) (live : List String) (s : MapSync)
    → (prune_from file live s).routing.router ≡ s.routing.router
unfolding prune_from schedule_save
router-prune_from (holds raw) live s =
    if_both (λ (t : MapSync). t.routing.router)
      (is_empty (select (is_dead (session_prefix s) live) (keys raw))) refl
      (if_both (λ (t : MapSync). t.routing.router) (any_window _ (store_of s)) refl refl)
router-prune_from missing live s = refl
router-prune_from unreadable live s = refl

-- The pruning does not reach the router.
pub router-prune :
    (live : List String) (s : MapSync)
    → (prune_session_map live s).routing.router ≡ s.routing.router
unfolding prune_session_map
router-prune live s = router-prune_from s.file live s
