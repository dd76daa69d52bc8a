-- ===== src/Session/Audit/Pruned.antt =====
-- core/session.py: the state after `prune_stale_state`, as an audit sees it.
use unified_icc.Base.{
  ℕ, String, Bool, true, false, not, ◌&&◌, ◌≡◌, ◌⊎◌, ◌∙◌, ap, refl, List, [], ◌∷◌, ◌++◌, arith, map,
  contains, any, any-append, is_empty, is_empty-select, select, Bool-cases, inl, inr,
}
use unified_icc.Base.Dict.{Dict, keys, pop_all, any-pop_all}
use unified_icc.Router.{Routing, pop_display_name}
use unified_icc.SessionMap.Loading.{nested_bindings}
use unified_icc.WindowStore.{WindowStateStore}
use unified_icc.Preferences.{
  UserPreferences, prune_offsets, prune_users, prune_stale_offsets, schedule_save,
}
use unified_icc.Session.{
  SessionManager, window_display_names, window_states, window_of, nested_items, items_under,
  routing_of, with_routing, bound_windows, in_use, stale_display, stale_chat, prune_unknown,
  prune_stale_state, save_state, pop_display_names,
}
use unified_icc.Session.Audit.{reports, audit_state}
use unified_icc.Session.Audit.Laws.{is_orphan, is_unknown, reports-orphan, reports-offset}

names-pop_display_names :
    (wids : List String) (r : Routing)
    → (pop_display_names wids r).display_names ≡ pop_all wids r.display_names
unfolding pop_display_names pop_display_name pop_all
names-pop_display_names [] r = refl
names-pop_display_names (wid ∷ wids) r = names-pop_display_names wids (pop_display_name wid r).1

any-items_under :
    (known : List String) (uid : String) (d : Dict ℕ)
    → any (is_unknown known) (items_under uid d) ≡ any (λ wid. not (contains wid known)) (keys d)
unfolding any items_under keys
any-items_under known uid [] = refl
any-items_under known uid ((wid, n) ∷ d) = ground (arith, any-items_under known uid d)

any-prune_offsets :
    (known : List String) (d : Dict ℕ)
    → any (λ wid. not (contains wid known)) (keys (prune_offsets known d)) ≡ false
unfolding prune_offsets
any-prune_offsets known d = any-pop_all (λ wid. not (contains wid known)) d

any-prune_users :
    (known : List String) (d : Dict (Dict ℕ))
    → any (is_unknown known) (nested_items (prune_users known d).1) ≡ false
unfolding prune_users nested_items any
any-prune_users known [] = refl
any-prune_users known ((uid, offsets) ∷ d) =
    elim (Bool-cases (is_empty (prune_offsets known offsets))) [
      | inl e ↦ rw e (any-prune_users known d)
      | inr e ↦ rw e (
          ground (
            arith,
            any-append (is_unknown known) (items_under uid (prune_offsets known offsets))
                (nested_items (prune_users known d).1),
            any-items_under known uid (prune_offsets known offsets),
            any-prune_offsets known offsets,
            any-prune_users known d,
          ))
    ]

any-prune_stale_offsets :
    (known : List String) (s : UserPreferences)
    → any (is_unknown known) (nested_items (prune_stale_offsets known s).1.user_window_offsets)
      ≡ false
unfolding prune_stale_offsets schedule_save
any-prune_stale_offsets known s = elim (Bool-cases (prune_users known s.user_window_offsets).0) [
  | inl e ↦ rw e (any-prune_users known s.user_window_offsets)
  | inr e ↦ rw e (any-prune_users known s.user_window_offsets)
]

states-pop_display_names :
    (wids : List String) (r : Routing) → (pop_display_names wids r).store ≡ r.store
unfolding pop_display_names pop_display_name
states-pop_display_names [] r = refl
states-pop_display_names (wid ∷ wids) r = states-pop_display_names wids (pop_display_name wid r).1

bindings-pop_display_names :
    (wids : List String) (r : Routing) → (pop_display_names wids r).bindings ≡ r.bindings
unfolding pop_display_names pop_display_name
bindings-pop_display_names [] r = refl
bindings-pop_display_names (wid ∷ wids) r =
    bindings-pop_display_names wids (pop_display_name wid r).1

-- The state when some names are dropped.
abbrev dropped : List String → SessionManager → SessionManager
dropped live s =
    let pruned = (prune_unknown live s).1 in
    save_state (with_routing (pop_display_names (stale_display live s) (routing_of pruned)) pruned)

empty_chat : (skip : Bool) (s : SessionManager) → is_empty (stale_chat skip s) ≡ true
unfolding keys select
empty_chat true s = refl
empty_chat false s = refl

-- Names are dropped exactly if some are stale.
prune_stale_state-cases :
    (live : List String) (skip : Bool) (s : SessionManager)
    → ((is_empty (stale_display live s) ≡ true)
        × ((prune_stale_state live skip s).1 ≡ (prune_unknown live s).1))
      ⊎ ((prune_stale_state live skip s).1 ≡ dropped live s)
unfolding prune_stale_state
prune_stale_state-cases live skip s = elim (Bool-cases (is_empty (stale_display live s))) [
  | inl e ↦ inl (e, rw (e, empty_chat skip s) refl)
  | inr e ↦ inr (rw e refl)
]

-- The pruning leaves the bindings.
pub bindings-prune :
    (live : List String) (skip : Bool) (s : SessionManager)
    → (routing_of (prune_stale_state live skip s).1).bindings ≡ (routing_of s).bindings
unfolding prune_unknown save_state
bindings-prune live skip s =
    let bindings : SessionManager → Dict String = λ t. (routing_of t).bindings in
    elim (prune_stale_state-cases live skip s) [
      | inl (_, e) ↦ ap bindings e
      | inr e ↦ ap bindings e ∙ bindings-pop_display_names (stale_display live s) (routing_of s)
    ]

in_use-dropped : (live : List String) (s : SessionManager) → in_use (dropped live s) ≡ in_use s
unfolding in_use bound_windows prune_unknown save_state
in_use-dropped live s =
    let names = stale_display live s in
    let r = routing_of s in
    let bound : Dict String → List String =
      λ b. map window_of (nested_items (nested_bindings b [])) in
    ap
      (λ (store : WindowStateStore).
        keys store.window_states ++ bound (pop_display_names names r).bindings)
      (states-pop_display_names names r)
    ∙ ap (λ b. keys (window_states s) ++ bound b) (bindings-pop_display_names names r)

in_use-unknown :
    (live : List String) (s : SessionManager) → in_use (prune_unknown live s).1 ≡ in_use s
unfolding in_use bound_windows prune_unknown
in_use-unknown live s = refl

-- The windows in use are the same afterwards.
in_use-prune :
    (live : List String) (skip : Bool) (s : SessionManager)
    → in_use (prune_stale_state live skip s).1 ≡ in_use s
in_use-prune live skip s = elim (prune_stale_state-cases live skip s) [
  | inl (_, e) ↦ ap in_use e ∙ in_use-unknown live s
  | inr e ↦ ap in_use e ∙ in_use-dropped live s
]

-- No name of a window that is neither live nor in use is left.
orphans-prune :
    (live : List String) (skip : Bool) (s : SessionManager)
    → any (is_orphan live s) (keys (window_display_names (prune_stale_state live skip s).1)) ≡ false
unfolding stale_display prune_unknown save_state
orphans-prune live skip s = elim (prune_stale_state-cases live skip s) [
  | inl (none_stale, e) ↦
      ap (λ t. any (is_orphan live s) (keys (window_display_names t))) e
      ∙ ground
          (arith, is_empty-select (is_orphan live s) (keys (window_display_names s)), none_stale)
  | inr e ↦
      ap (λ t. any (is_orphan live s) (keys (window_display_names t))) e
      ∙ ap (λ d. any (is_orphan live s) (keys d))
          (names-pop_display_names (stale_display live s) (routing_of s))
      ∙ any-pop_all (is_orphan live s) (window_display_names s)
]

offsets-prune :
    (live : List String) (skip : Bool) (s : SessionManager)
    → any
        (is_unknown (live ++ in_use s))
        (nested_items (prune_stale_state live skip s).1.preferences.user_window_offsets)
      ≡ false
unfolding prune_unknown save_state
offsets-prune live skip s =
    let gone = any-prune_stale_offsets (live ++ in_use s) s.preferences in
    let at : SessionManager → Bool =
      λ t. any (is_unknown (live ++ in_use s)) (nested_items t.preferences.user_window_offsets) in
    elim (prune_stale_state-cases live skip s) [
      | inl (_, e) ↦ ap at e ∙ gone
      | inr e ↦ ap at e ∙ gone
    ]

-- After prune_stale_state, an audit for the same live windows reports neither an orphaned display
-- name nor a stale offset.
pub nothing_orphaned_left :
    (repr : String → String) (live : List String) (windows : List (String × String)) (skip : Bool)
    (s : SessionManager)
    → (let after = audit_state repr live windows (prune_stale_state live skip s).1 in
        (reports "orphaned_display_name" after.issues ≡ false)
        × (reports "stale_offset" after.issues ≡ false))
nothing_orphaned_left repr live windows skip s =
    let t = (prune_stale_state live skip s).1 in
    let same = in_use-prune live skip s in
    (
      reports-orphan repr live windows t
          ∙ ap
              (λ u.
                any (λ wid. not (contains wid live) && not (contains wid u))
                  (keys (window_display_names t)))
              same
          ∙ orphans-prune live skip s,
      reports-offset repr live windows t
          ∙ ap (λ u. any (is_unknown (live ++ u)) (nested_items t.preferences.user_window_offsets))
              same
          ∙ offsets-prune live skip s,
    )
