-- ===== src/SessionMap/Loading/Laws.antt =====
-- state/session_map.py: which window states survive the loading of the file.
use unified_icc.Base.{
  String, true, false, ◌&&◌, ◌≡◌, sym, Option, none, some, List, [], ◌∷◌, arith, if◌then◌else◌,
  ◌==◌, eq_iff, ==_refl, truthy, or_default, contains, contains-nil, contains-cons, contains-append,
  select, contains-select, Bool-cases, inl, inr, ◌⊎◌,
}
use mathlib.Core.Path.{subst}
use unified_icc.Base.Dict.{
  Dict, get, put, keys, get-nil, HasUniqueKeys, get-put, get-pop, has, contains-keys,
}
use unified_icc.WindowStore.{WindowStateStore, remove_window, iter_window_ids}
use unified_icc.SessionMap.{MapSync, store_of, remove_windows}
use unified_icc.SessionMap.Loading.{
  is_stale_state, remove_stale_window_states, bound_wids, nested_bindings, values_of, all_values,
  split_channel,
}

get-remove_window :
    (k w : String) (s : WindowStateStore)
    → get k (remove_window w s).1.window_states ≡ (if w == k then none else get k s.window_states)
unfolding remove_window
get-remove_window k w s = elim (Bool-cases (has w s.window_states)) [
  | inl there ↦ rw there (get-pop k w s.window_states)
  | inr missing ↦ rw missing (ground (arith, missing, eq_iff w k))
]

pub get-remove_windows :
    (k : String) (ws : List String) (s : WindowStateStore)
    → get k (remove_windows ws s).window_states
      ≡ (if contains k ws then none else get k s.window_states)
unfolding remove_windows
get-remove_windows k [] s = rw contains-nil
get-remove_windows k (w ∷ ws) s = ground (
  arith,
  get-remove_windows k ws (remove_window w s).1,
  get-remove_window k w s,
  contains-cons k w ws,
)

-- The removal of stale window states removes exactly those of named windows that have no valid
-- entry, no binding and no session of an entry in the old format; every other state stays as it
-- is.
pub get-remove_stale :
    (k : String) (valid sids : List String) (s : MapSync)
    → get k (store_of (remove_stale_window_states valid sids s).1).window_states ≡ (
        if is_stale_state valid sids (bound_wids s) (store_of s) k
        then none
        else get k (store_of s).window_states)
unfolding remove_stale_window_states iter_window_ids
get-remove_stale k valid sids s =
    let stale = is_stale_state valid sids (bound_wids s) (store_of s) in
    let ids = keys (store_of s).window_states in
    ground (
      arith,
      get-remove_windows k (select stale ids) (store_of s),
      contains-select stale k ids,
      contains-keys k (store_of s).window_states,
    )

-- A channel of the router, seen in the nested view.
abbrev nested_get : String → Dict (Dict String) → Option String
nested_get c nested = get (split_channel c).1 (or_default (get (split_channel c).0 nested) [])

-- No other channel of the list has the same platform and key.
abbrev pub Distinct : String → Dict String → Type 0
Distinct c [] = Unit {0}
Distinct c ((d, _) ∷ ds) = (split_channel d ≡ split_channel c → d ≡ c) × Distinct c ds

pair_eq : {p q : String × String} → p.0 ≡ q.0 → p.1 ≡ q.1 → p ≡ q
pair_eq a b i = (a i, b i)

nested_get-put :
    (c platform key v : String) (nested : Dict (Dict String))
    → nested_get c (put platform (put key v (or_default (get platform nested) [])) nested) ≡ (
        if (platform == (split_channel c).0) && (key == (split_channel c).1)
        then some v
        else nested_get c nested)
nested_get-put c platform key v nested =
    let inner = or_default (get platform nested) [] in
    ground (
      arith,
      get-put (split_channel c).0 platform (put key v inner) nested,
      get-put (split_channel c).1 key v inner,
      eq_iff platform (split_channel c).0,
      eq_iff key (split_channel c).1,
    )

-- The channel is still to come in the list, or the nested view has it already.
abbrev Sees : String → String → Dict String → Dict (Dict String) → Type 0
Sees c w b nested = (get c b ≡ some w) ⊎ ((get c b ≡ none) × (nested_get c nested ≡ some w))

-- One round of the loop of `nested_bindings`.
abbrev nest : String → String → Dict (Dict String) → Dict (Dict String)
nest d v nested =
    put (split_channel d).0
      (put (split_channel d).1 v (or_default (get (split_channel d).0 nested) [])) nested

Sees-same :
    (c w v : String) (b : Dict String) (nested : Dict (Dict String))
    → get c b ≡ none
    → Sees c w ((c, v) ∷ b) nested
    → Sees c w b (nest c v nested)
unfolding get
Sees-same c w v b nested last h = inr (
  last,
  ground (
    arith,
    nested_get-put c (split_channel c).0 (split_channel c).1 v nested,
    ==_refl (split_channel c).0,
    ==_refl (split_channel c).1,
    ==_refl c,
    h,
  ),
)

Sees-other :
    (c w d v : String) (b : Dict String) (nested : Dict (Dict String))
    → (d == c) ≡ false
    → (split_channel d ≡ split_channel c → d ≡ c)
    → Sees c w ((d, v) ∷ b) nested
    → Sees c w b (nest d v nested)
unfolding get
Sees-other c w d v b nested other apart h =
    let platform = (split_channel d).0 in
    let key = (split_channel d).1 in
    elim (Bool-cases ((platform == (split_channel c).0) && (key == (split_channel c).1))) [
      | inl same ↦
          let e : d ≡ c = apart (
            pair_eq (ground (arith, same, eq_iff platform (split_channel c).0))
              (ground (arith, same, eq_iff key (split_channel c).1))) in
          absurd (ground (arith, other, (eq_iff d c).1 e))
      | inr differ ↦ ground (arith, nested_get-put c platform key v nested, differ, other, h)
    ]

nested_get-nested :
    (c w : String) (b : Dict String) (nested : Dict (Dict String))
    → Distinct c b
    → HasUniqueKeys b
    → Sees c w b nested
    → nested_get c (nested_bindings b nested) ≡ some w
unfolding nested_bindings get
nested_get-nested c w [] nested apart u (inl h) = cc
nested_get-nested c w [] nested apart u (inr h) = h.1
nested_get-nested c w ((d, v) ∷ b) nested apart u h =
    nested_get-nested c w b (nest d v nested) apart.1 u.1 (elim (Bool-cases (d == c)) [
      | inl same ↦
          subst (λ x. Sees c w ((x, v) ∷ b) nested → get x b ≡ none → Sees c w b (nest x v nested))
            (sym ((eq_iff d c).0 same)) (λ seen last. Sees-same c w v b nested last seen) h u.0
      | inr other ↦ Sees-other c w d v b nested other apart.0 h
    ])

values_of-get :
    (k w : String) (d : Dict String)
    → get k d ≡ some w
    → truthy w ≡ true
    → contains w (values_of d) ≡ true
unfolding values_of get
values_of-get k w [] h t = cc
values_of-get k w ((j, v) ∷ d) h t =
    ground (arith, values_of-get k w d, contains-cons w v (values_of d), ==_refl w)

all_values-get :
    (p k w : String) (nested : Dict (Dict String))
    → get k (or_default (get p nested) []) ≡ some w
    → truthy w ≡ true
    → contains w (all_values nested) ≡ true
unfolding all_values get
all_values-get p k w [] h t = cc (get-nil {V = String} k)
all_values-get p k w ((q, d) ∷ nested) h t = ground (
  arith,
  all_values-get p k w nested,
  values_of-get k w d,
  contains-append w (values_of d) (all_values nested),
)

bound_wids-get :
    (c w : String) (s : MapSync)
    → HasUniqueKeys s.routing.router.bindings
    → Distinct c s.routing.router.bindings
    → get c s.routing.router.bindings ≡ some w
    → truthy w ≡ true
    → contains w (bound_wids s) ≡ true
unfolding bound_wids
bound_wids-get c w s u apart bound named =
    all_values-get (split_channel c).0 (split_channel c).1 w _
      (nested_get-nested c w s.routing.router.bindings [] apart u (inl bound)) named

-- A named window that a channel is bound to keeps its state, whatever the file holds, where each
-- channel has one binding and no other bound channel is split into the same platform and key.
pub remove_stale_keeps_bound :
    (c w : String) (valid sids : List String) (s : MapSync)
    → HasUniqueKeys s.routing.router.bindings
    → Distinct c s.routing.router.bindings
    → get c s.routing.router.bindings ≡ some w
    → truthy w ≡ true
    → get w (store_of (remove_stale_window_states valid sids s).1).window_states
      ≡ get w (store_of s).window_states
remove_stale_keeps_bound c w valid sids s u apart bound named =
    ground (arith, get-remove_stale w valid sids s, bound_wids-get c w s u apart bound named)
