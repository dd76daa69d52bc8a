-- ===== src/Resolver/Unchanged.antt =====
-- tmux/window_resolver.py: a recovery that reports no change has made none.
use unified_icc.Base.{ℕ, String, false, ◌≡◌, refl, ◌∙◌, List, [], ◌∷◌, arith, is_empty}
use unified_icc.Base.Dict.{Dict, put, HasUniqueKeys, put_all, put_all-nil}
use unified_icc.WindowStore.{WindowState}
use unified_icc.Resolver.{
  LiveWindow, Progress, Persisted, resolve_state, resolve_window_states, resolve_binding,
  resolve_bindings, resolve_thread_bindings, resolve_offset, resolve_user_offsets, resolve_offsets,
  resolve_stale_ids, live_by_name, live_ids,
}

module _ (by_name : Dict String) (ids : List String) where
  state_step :
      (key : String) (ws : WindowState) (p : Progress WindowState)
      → (resolve_state by_name ids key ws p).changed ≡ false
      → (p.changed ≡ false)
        × (resolve_state by_name ids key ws p ≡ record p { kept = put key ws p.kept })
  unfolding resolve_state
  state_step key ws p h = ground arith

  states_unchanged :
      (d : Dict WindowState) (p : Progress WindowState)
      → (resolve_window_states by_name ids d p).changed ≡ false
      → (p.changed ≡ false)
        × (resolve_window_states by_name ids d p ≡ record p { kept = put_all d p.kept })
  unfolding resolve_window_states put_all
  states_unchanged [] p h = (h, refl)
  states_unchanged ((key, ws) ∷ d) p h =
      let (before, same) = states_unchanged d (resolve_state by_name ids key ws p) h in
      let (start, step) = state_step key ws p before in (start, same ∙ rw step)

  binding_step :
      (tid val : String) (p : Progress String)
      → (resolve_binding by_name ids tid val p).changed ≡ false
      → (p.changed ≡ false)
        × (resolve_binding by_name ids tid val p ≡ record p { kept = put tid val p.kept })
  unfolding resolve_binding
  binding_step tid val p h = ground arith

  bindings_unchanged :
      (d : Dict String) (p : Progress String)
      → (resolve_bindings by_name ids d p).changed ≡ false
      → (p.changed ≡ false)
        × (resolve_bindings by_name ids d p ≡ record p { kept = put_all d p.kept })
  unfolding resolve_bindings put_all
  bindings_unchanged [] p h = (h, refl)
  bindings_unchanged ((tid, val) ∷ d) p h =
      let (before, same) = bindings_unchanged d (resolve_binding by_name ids tid val p) h in
      let (start, step) = binding_step tid val p before in (start, same ∙ rw step)

  offset_step :
      (key : String) (offset : ℕ) (p : Progress ℕ)
      → (resolve_offset by_name ids key offset p).changed ≡ false
      → (p.changed ≡ false)
        × (resolve_offset by_name ids key offset p ≡ record p { kept = put key offset p.kept })
  unfolding resolve_offset
  offset_step key offset p h = ground arith

  user_offsets_unchanged :
      (d : Dict ℕ) (p : Progress ℕ)
      → (resolve_user_offsets by_name ids d p).changed ≡ false
      → (p.changed ≡ false)
        × (resolve_user_offsets by_name ids d p ≡ record p { kept = put_all d p.kept })
  unfolding resolve_user_offsets put_all
  user_offsets_unchanged [] p h = (h, refl)
  user_offsets_unchanged ((key, offset) ∷ d) p h =
      let (before, same) = user_offsets_unchanged d (resolve_offset by_name ids key offset p) h in
      let (start, step) = offset_step key offset p before in (start, same ∙ rw step)

-- Every inner dict has unique keys.
abbrev pub AllKeysUnique {ℓ} : {V : Type ℓ} → Dict (Dict V) → Type ℓ
AllKeysUnique [] = Unit
AllKeysUnique ((_, inner) ∷ d) = HasUniqueKeys inner × AllKeysUnique d

-- No inner dict is empty.
abbrev pub NoneEmpty {ℓ} : {V : Type ℓ} → Dict (Dict V) → Type 0
NoneEmpty [] = Unit {0}
NoneEmpty ((_, inner) ∷ d) = (is_empty inner ≡ false) × NoneEmpty d

module _ (by_name : Dict String) (ids : List String) where
  threads_unchanged :
      (d : Dict (Dict String)) (p : Progress (Dict String))
      → AllKeysUnique d
      → NoneEmpty d
      → (resolve_thread_bindings by_name ids d p).changed ≡ false
      → (p.changed ≡ false)
        × (resolve_thread_bindings by_name ids d p ≡ record p { kept = put_all d p.kept })
  unfolding resolve_thread_bindings put_all
  threads_unchanged [] p u n h = (h, refl)
  threads_unchanged ((uid, inner) ∷ d) p u n h =
      let start : Progress String = record { kept = []; names = p.names; changed = p.changed } in
      let (before, same) = threads_unchanged d _ u.1 n.1 h in
      let (first, inside) = bindings_unchanged by_name ids inner start before in
      let rebuilt : resolve_bindings by_name ids inner start ≡ record start { kept = inner } =
        inside ∙ rw (put_all-nil inner u.0) in
      (first, same ∙ rw (rebuilt, n.0))

  offsets_unchanged :
      (d : Dict (Dict ℕ)) (p : Progress (Dict ℕ))
      → AllKeysUnique d
      → (resolve_offsets by_name ids d p).changed ≡ false
      → (p.changed ≡ false)
        × (resolve_offsets by_name ids d p ≡ record p { kept = put_all d p.kept })
  unfolding resolve_offsets put_all
  offsets_unchanged [] p u h = (h, refl)
  offsets_unchanged ((uid, inner) ∷ d) p u h =
      let start : Progress ℕ = record { kept = []; names = p.names; changed = p.changed } in
      let (before, same) = offsets_unchanged d _ u.1 h in
      let (first, inside) = user_offsets_unchanged by_name ids inner start before in
      let rebuilt : resolve_user_offsets by_name ids inner start ≡ record start { kept = inner } =
        inside ∙ rw (put_all-nil inner u.0) in
      (first, same ∙ rw rebuilt)

-- What the four dicts are as Python dicts, where every user with bindings has one at least.
pub record IsLoaded (s : Persisted) : Type 0 where
  pub states : HasUniqueKeys s.window_states
  pub threads : HasUniqueKeys s.thread_bindings
  pub thread_keys : AllKeysUnique s.thread_bindings
  pub nonempty : NoneEmpty s.thread_bindings
  pub offsets : HasUniqueKeys s.user_window_offsets
  pub offset_keys : AllKeysUnique s.user_window_offsets

-- A recovery that reports no change leaves the states, bindings, offsets and display names as they
-- were, in their order, where no dict has a key twice and no user has an empty dict of bindings.
pub resolve_stale_ids_unchanged :
    (live : List LiveWindow) (s : Persisted)
    → IsLoaded s
    → (resolve_stale_ids live s).0 ≡ false
    → (resolve_stale_ids live s).1 ≡ s
unfolding resolve_stale_ids
resolve_stale_ids_unchanged live s l h =
    let by_name = live_by_name live [] in
    let ids = live_ids live in
    let (third, r) = offsets_unchanged by_name ids s.user_window_offsets _ l.offset_keys h in
    let (second, q) =
      threads_unchanged by_name ids s.thread_bindings _ l.thread_keys l.nonempty third in
    let (first, p) = states_unchanged by_name ids s.window_states _ second in
    rw (
      r,
      q,
      p,
      put_all-nil s.window_states l.states,
      put_all-nil s.thread_bindings l.threads,
      put_all-nil s.user_window_offsets l.offsets,
    )
