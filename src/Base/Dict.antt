-- ===== src/Base/Dict.antt =====
-- Python's `dict` with texts for keys, as a list of entries in order of insertion.
use Prim.Native.String.{String}
use mathlib.Core.Path.{◌≡◌, refl, sym, ◌∙◌}
use mathlib.Core.Bool.{Bool, false}
use mathlib.Core.Option.{Option, none, some}
use mathlib.Core.List.{List, [], ◌∷◌, ◌++◌, append-nil, append_assoc}
use native.Mathlib.Omega.{arith}
use text.Mathlib.TextEquality.{eq_iff}
use unified_icc.Base.Tests.{if◌then◌else◌, ◌==◌, is_some}
use unified_icc.Base.Lists.{contains, any, any-contains, select, contains-select}

abbrev pub Dict {ℓ} : Type ℓ → Type ℓ
Dict V = List (String × V)

module _ {ℓ} {V : Type ℓ} where
  -- `d.get(k)`
  unfoldable pub get : String → Dict V → Option V
  get k [] = none
  get k ((j, v) ∷ d) = if j == k then some v else get k d

  -- `d[k] = v`: a key that is there keeps its place.
  unfoldable pub put : String → V → Dict V → Dict V
  put k v [] = (k, v) ∷ []
  put k v ((j, w) ∷ d) = if j == k then (k, v) ∷ d else (j, w) ∷ put k v d

  -- `d.pop(k, None)`
  unfoldable pub pop : String → Dict V → Dict V
  pop k [] = []
  pop k ((j, w) ∷ d) = let rest = pop k d in if j == k then rest else (j, w) ∷ rest

  unfoldable pub keys : Dict V → List String
  keys [] = []
  keys ((k, _) ∷ d) = k ∷ keys d

  -- `k in d`
  abbrev pub has : String → Dict V → Bool
  has k d = is_some (get k d)

  -- `del d[k]`, which raises KeyError (`none`) for a missing key
  abbrev pub delete : String → Dict V → Option (Dict V)
  delete k d = if has k d then some (pop k d) else none

  -- `d.setdefault(k, v)` as an effect on the dict
  abbrev pub set_default : String → V → Dict V → Dict V
  set_default k v d = if has k d then d else put k v d

  -- A Python dict has one entry for a key.
  abbrev pub HasUniqueKeys : Dict V → Type ℓ
  HasUniqueKeys [] = Unit
  HasUniqueKeys ((k, _) ∷ d) = (get k d ≡ none) × HasUniqueKeys d

  pub get-nil : (k : String) → get k [] ≡ none
  unfolding get
  get-nil k = refl

  pub get-cons :
      (k j : String) (v : V) (d : Dict V)
      → get k ((j, v) ∷ d) ≡ (if j == k then some v else get k d)
  unfolding get
  get-cons k j v d = refl

  pub get-put :
      (j k : String) (v : V) (d : Dict V) → get j (put k v d) ≡ (if k == j then some v else get j d)
  unfolding get put
  get-put j k v [] = refl
  get-put j k v ((i, w) ∷ d) = ground (arith, get-put j k v d, eq_iff k j, eq_iff i k, eq_iff i j)

  pub get-pop : (j k : String) (d : Dict V) → get j (pop k d) ≡ (if k == j then none else get j d)
  unfolding get pop
  get-pop j k [] = ground arith
  get-pop j k ((i, w) ∷ d) = ground (arith, get-pop j k d, eq_iff k j, eq_iff i k, eq_iff i j)

  pub contains-keys : (k : String) (d : Dict V) → contains k (keys d) ≡ has k d
  unfolding get keys contains
  contains-keys k [] = refl
  contains-keys k ((j, v) ∷ d) = ground (arith, contains-keys k d)

  pub put-HasUniqueKeys :
      (k : String) (v : V) (d : Dict V) → HasUniqueKeys d → HasUniqueKeys (put k v d)
  unfolding put
  put-HasUniqueKeys k v [] u = (get-nil k, tt)
  put-HasUniqueKeys k v ((j, w) ∷ d) u =
      ground (arith, put-HasUniqueKeys k v d u.1, get-put j k v d, eq_iff j k, eq_iff k j)

  pub pop-HasUniqueKeys : (k : String) (d : Dict V) → HasUniqueKeys d → HasUniqueKeys (pop k d)
  unfolding pop
  pop-HasUniqueKeys k [] u = u
  pop-HasUniqueKeys k ((j, w) ∷ d) u = ground (arith, pop-HasUniqueKeys k d u.1, get-pop j k d)

-- `for k in ks: d.pop(k, None)`
unfoldable pub pop_all {ℓ} : {V : Type ℓ} → List String → Dict V → Dict V
pop_all [] d = d
pop_all (k ∷ ks) d = pop_all ks (pop k d)

pub get-pop_all {ℓ} :
    {V : Type ℓ} (k : String) (ks : List String) (d : Dict V)
    → get k (pop_all ks d) ≡ (if contains k ks then none else get k d)
unfolding pop_all contains
get-pop_all k [] d = refl
get-pop_all k (j ∷ ks) d = ground (arith, get-pop_all k ks (pop j d), get-pop k j d)

-- Where every key that passes a test is dropped, none passes it afterwards.
pub any-pop_all {ℓ} :
    {V : Type ℓ} (p : String → Bool) (d : Dict V)
    → any p (keys (pop_all (select p (keys d)) d)) ≡ false
any-pop_all p d = any-contains p (keys (pop_all (select p (keys d)) d)) λ k k_in. ground (
  arith,
  k_in,
  contains-keys k (pop_all (select p (keys d)) d),
  get-pop_all k (select p (keys d)) d,
  contains-select p k (keys d),
  contains-keys k d,
)

pub pop_all-HasUniqueKeys {ℓ} :
    {V : Type ℓ} (ks : List String) (d : Dict V) → HasUniqueKeys d → HasUniqueKeys (pop_all ks d)
unfolding pop_all
pop_all-HasUniqueKeys [] d u = u
pop_all-HasUniqueKeys (k ∷ ks) d u = pop_all-HasUniqueKeys ks (pop k d) (pop-HasUniqueKeys k d u)

-- `d.update(e)`, and a dict that is built by one assignment for each entry of `e`
unfoldable pub put_all {ℓ} : {V : Type ℓ} → Dict V → Dict V → Dict V
put_all [] d = d
put_all ((k, v) ∷ e) d = put_all e (put k v d)

module _ {ℓ} {V : Type ℓ} where
  put_absent : (k : String) (v : V) (d : Dict V) → get k d ≡ none → put k v d ≡ d ++ (k, v) ∷ []
  unfolding get put
  put_absent k v [] h = refl
  put_absent k v ((j, w) ∷ d) h = ground (arith, put_absent k v d)

  -- The two dicts have no key in common.
  abbrev pub ApartKeys : Dict V → Dict V → Type ℓ
  ApartKeys [] d = Unit
  ApartKeys ((k, _) ∷ e) d = (get k d ≡ none) × ApartKeys e d

  ApartKeys-put :
      (e : Dict V) (k : String) (v : V) (d : Dict V)
      → get k e ≡ none
      → ApartKeys e d
      → ApartKeys e (put k v d)
  unfolding get
  ApartKeys-put [] k v d h a = tt
  ApartKeys-put ((j, w) ∷ e) k v d h a = (
    ground (arith, a.0, get-put j k v d, eq_iff k j, eq_iff j k),
    ApartKeys-put e k v d (ground (arith, h)) a.1,
  )

  put_all-apart : (e d : Dict V) → HasUniqueKeys e → ApartKeys e d → put_all e d ≡ d ++ e
  unfolding put_all
  put_all-apart [] d u a = sym (append-nil d)
  put_all-apart ((k, v) ∷ e) d u a =
      put_all-apart e (put k v d) u.1 (ApartKeys-put e k v d u.0 a.1)
      ∙ rw (put_absent k v d a.0) (append_assoc d ((k, v) ∷ []) e)

  ApartKeys-nil : (e : Dict V) → ApartKeys e []
  ApartKeys-nil [] = tt
  ApartKeys-nil ((k, v) ∷ e) = (get-nil k, ApartKeys-nil e)

  -- A dict that is rebuilt entry by entry is the same dict.
  pub put_all-nil : (e : Dict V) → HasUniqueKeys e → put_all e [] ≡ e
  put_all-nil e u = put_all-apart e [] u (ApartKeys-nil e)

pub ruleset dict_laws = (get-nil, get-put, get-pop)
