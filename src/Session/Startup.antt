-- ===== src/Session/Startup.antt =====
-- core/session.py: `resolve_stale_ids`, the startup recovery over all parts of the state. The live
-- windows are what `tmux_manager.list_windows` returned.
use unified_icc.Base.{
  ◌<>◌, String, Bool, true, false, not, ◌&&◌, ◌≡◌, ◌∙◌, refl, ap, Option, none, some, List, [], ◌∷◌,
  if◌then◌else◌, ◌==◌, truthy, or_default, is_empty, contains, if_both, is_some, ◌||◌,
}
use unified_icc.Base.Dict.{Dict, get, put, keys}
use unified_icc.Router
use unified_icc.Router.{ChannelRouter, rebuild}
use unified_icc.Resolver.{LiveWindow, Persisted, live_ids}
use unified_icc.Resolver
use unified_icc.SessionMap.{session_prefix}
use unified_icc.SessionMap.Pruning.{prune_session_map}
use unified_icc.SessionMap.Pruning.Laws.{router-prune}
use unified_icc.Session.Audit.Pruned.{bindings-prune}
use unified_icc.Session.{
  SessionManager, save_state, routing_of, window_states, window_display_names, channel_bindings,
  with_states, with_routing, prune_stale_state,
}
use unified_icc.Session.Naming.{sync_display_names, rename_states}
use unified_icc.Mailbox.{Mailbox}
use unified_icc.Mailbox.Names.{sanitize_dir_name}
use unified_icc.Mailbox.Sweeping.{migrate_ids}

-- `{wid: window_display_names.get(wid, "") for wid in states}`
unfoldable pub displayed : Dict String → List String → Dict String
displayed names [] = []
displayed names (wid ∷ wids) = (wid, or_default (get wid names) "") ∷ displayed names wids

-- `display_to_new`, from what is built so far: the last window of a name counts.
unfoldable pub by_display : Dict String → Dict String → Dict String
by_display [] new = new
by_display ((wid, name) ∷ d) new = by_display d (if truthy name then put name wid new else new)

-- `remap`: the qualified old ids to the qualified new ones, from what is built so far.
unfoldable pub remap_ids :
    String → List String → Dict String → Dict String → Dict String → Dict String
remap_ids prefix new_states new [] remap = remap
remap_ids prefix new_states new ((old_id, name) ∷ d) remap =
    let new_id = or_default (get name new) "" in
    let moved =
      (truthy name && not (contains old_id new_states))
      && (truthy new_id && not (new_id == old_id)) in
    remap_ids prefix new_states new d
      (if moved then put (prefix <> old_id) (prefix <> new_id) remap else remap)

-- `remap`; `old_display` is taken before the ids are resolved.
abbrev remap_from : Dict String → SessionManager → Dict String
remap_from old_display s =
    let ids = keys (window_states s) in
    let new = by_display (displayed (window_display_names s) ids) [] in
    remap_ids (session_prefix s.sync) ids new old_display []

-- The state, and whether the mailbox has raised a ValueError.
unfoldable pub migrate_mailbox_ids : Dict String → SessionManager → SessionManager × Bool
migrate_mailbox_ids old_display s =
    let remap = remap_from old_display s in
    let (mailbox, failed) = migrate_ids remap s.mailbox in
    if is_empty remap then (s, false) else (record s { mailbox = mailbox }, failed)

-- What the resolver updates in place. The bindings that it is given are a copy, which the router
-- makes on each access.
abbrev persisted : SessionManager → Persisted
persisted s = record {
  window_states = window_states s;
  thread_bindings = channel_bindings s;
  user_window_offsets = s.preferences.user_window_offsets;
  window_display_names = window_display_names s;
}

abbrev update : Persisted → SessionManager → SessionManager
update p s =
    let t = with_states p.window_states s in
    let router = record (routing_of t).router { display_names = p.window_display_names } in
    record (with_routing (record (routing_of t) { router = router }) t) {
      preferences = record s.preferences { user_window_offsets = p.user_window_offsets };
    }

-- `_rebuild_reverse_index`
abbrev reindex : SessionManager → SessionManager
reindex s =
    let router = (routing_of s).router in
    with_routing
      (record (routing_of s) { router = record router { reverse = rebuild router.bindings [] } }) s

-- The display names before the ids are resolved
abbrev old_names : SessionManager → Dict String
old_names s = displayed (window_display_names s) (keys (window_states s))

-- The state that is saved, where the resolver has changed something.
abbrev resaved : List LiveWindow → SessionManager → SessionManager
resaved live s = save_state (reindex (update (Resolver.resolve_stale_ids live (persisted s)).1 s))

-- The recovery up to the migration of the mailbox, and whether that has raised.
unfoldable pub resolve_ids : List LiveWindow → SessionManager → SessionManager × Bool
resolve_ids live s =
    let (changed, p) = Resolver.resolve_stale_ids live (persisted s) in
    if changed then migrate_mailbox_ids (old_names s) (resaved live s) else (update p s, false)

abbrev live_pairs : List LiveWindow → List (String × String)
live_pairs [] = []
live_pairs (w ∷ ws) = (w.window_id, w.window_name) ∷ live_pairs ws

-- The state when the recovery ends, and whether it ended with an exception.
pub data Outcome : Type 0 where
  finished raised : SessionManager → Outcome

finish : List LiveWindow → Option Bool × SessionManager → Outcome
finish live (none, s) = raised s
finish live (some _, s) = finished (prune_stale_state (live_ids live) true s).1

-- From the pruning of the session map on
continue : List LiveWindow → SessionManager × Bool → Outcome
unfolding finish
continue live (s, true) = raised s
continue live (s, false) = finish live (
    sync_display_names (live_pairs live)
      (record s { sync = prune_session_map (live_ids live) s.sync }))

unfoldable pub resolve_stale_ids : List LiveWindow → SessionManager → Outcome
unfolding continue
resolve_stale_ids live s = continue live (resolve_ids live s)

abbrev pub state_of : Outcome → SessionManager
state_of (finished s) = s
state_of (raised s) = s

abbrev pub is_raised : Outcome → Bool
is_raised (finished s) = false
is_raised (raised s) = true

-- An id that names no directory of the mailbox
abbrev pub is_unplaced : String × String → Bool
is_unplaced (old_id, new_id) =
    not (is_some (sanitize_dir_name old_id)) || not (is_some (sanitize_dir_name new_id))

-- The ids that the mailbox is to migrate: none where the resolver has changed nothing.
abbrev pub migrated_ids : List LiveWindow → SessionManager → Dict String
migrated_ids live s =
    if (Resolver.resolve_stale_ids live (persisted s)).0
    then remap_from (old_names s) (resaved live s)
    else []

bindings-migrate :
    (old_display : Dict String) (s : SessionManager)
    → (routing_of (migrate_mailbox_ids old_display s).0).bindings ≡ (routing_of s).bindings
unfolding migrate_mailbox_ids
bindings-migrate old_display s =
    if_both (λ (p : SessionManager × Bool). (routing_of p.0).bindings)
      (is_empty (remap_from old_display s)) refl refl

bindings-resolve_ids :
    (live : List LiveWindow) (s : SessionManager)
    → (routing_of (resolve_ids live s).0).bindings ≡ (routing_of s).bindings
unfolding resolve_ids save_state
bindings-resolve_ids live s =
    if_both (λ (p : SessionManager × Bool). (routing_of p.0).bindings)
      (Resolver.resolve_stale_ids live (persisted s)).0
      (bindings-migrate (old_names s) (resaved live s)) refl

bindings-continue :
    (live : List LiveWindow) (p : SessionManager × Bool)
    → (routing_of (state_of (continue live p))).bindings ≡ (routing_of p.0).bindings
unfolding continue finish sync_display_names Router.sync_display_names rename_states live_ids
bindings-continue live (s, true) = refl
bindings-continue [] (s, false) =
    bindings-prune [] true (record s { sync = prune_session_map [] s.sync })
    ∙ ap (λ (r : ChannelRouter). r.bindings) (router-prune [] s.sync)
bindings-continue (w ∷ ws) (s, false) =
    ap (λ (r : ChannelRouter). r.bindings) (router-prune (live_ids (w ∷ ws)) s.sync)

-- The startup recovery leaves every binding as it was: a channel that is bound to the old id of a
-- window stays bound to it.
pub startup_keeps_bindings :
    (live : List LiveWindow) (s : SessionManager)
    → (routing_of (state_of (resolve_stale_ids live s))).bindings ≡ (routing_of s).bindings
unfolding resolve_stale_ids
startup_keeps_bindings live s =
    bindings-continue live (resolve_ids live s) ∙ bindings-resolve_ids live s
