-- ===== src/Base/Lists.antt =====
-- Python's lists and sets of texts. A set is a list without repetitions, in order of insertion.
use Prim.Native.Nat.{ℕ, zero, suc, ◌+◌, ◌≤◌}
use Prim.Native.String.{String}
use mathlib.Core.Path.{◌≡◌, refl}
use mathlib.Core.Logic.{inl, inr}
use mathlib.Core.Bool.{Bool, true, false, not, ◌&&◌, ◌||◌}
use mathlib.Core.List.{List, [], ◌∷◌, ◌++◌}
use native.Mathlib.Omega.{arith}
use text.Mathlib.TextEquality.{eq_iff}
use unified_icc.Base.Tests.{if◌then◌else◌, ◌==◌, ==_refl, Bool-cases, if_both}

module _ {ℓ} {A : Type ℓ} where
  abbrev pub length : List A → ℕ
  length [] = 0
  length (x ∷ xs) = suc (length xs)

  abbrev pub is_empty : List A → Bool
  is_empty [] = true
  is_empty (x ∷ xs) = false

  pub empty_nil : (xs : List A) → is_empty xs ≡ true → xs ≡ []
  empty_nil [] h = refl
  empty_nil (x ∷ xs) h = cc

  -- `xs[:n]`
  unfoldable pub take : ℕ → List A → List A
  take zero xs = []
  take (suc n) [] = []
  take (suc n) (x ∷ xs) = x ∷ take n xs

  pub length-take : (n : ℕ) (xs : List A) → length (take n xs) ≤ n
  unfolding take
  length-take zero xs = omega arith
  length-take (suc n) [] = omega arith
  length-take (suc n) (x ∷ xs) = omega (arith, length-take n xs)

-- `[f(x) for x in xs if p(x)]`
unfoldable pub collect {ℓ κ} : {A : Type ℓ} {B : Type κ} → (A → Bool) → (A → B) → List A → List B
collect p f [] = []
collect p f (x ∷ xs) = let rest = collect p f xs in if p x then f x ∷ rest else rest

-- `any(p(x) for x in xs)`
unfoldable pub any {ℓ} : {A : Type ℓ} → (A → Bool) → List A → Bool
any p [] = false
any p (x ∷ xs) = p x || any p xs

-- `x in xs`
unfoldable pub contains : String → List String → Bool
contains a [] = false
contains a (x ∷ xs) = (x == a) || contains a xs

-- `s.add(x)`
unfoldable pub add : String → List String → List String
unfolding contains
add a xs = if contains a xs then xs else xs ++ a ∷ []

-- `s.discard(x)`, and `[x for x in xs if x != a]`
unfoldable pub discard : String → List String → List String
discard a [] = []
discard a (x ∷ xs) = let rest = discard a xs in if x == a then rest else x ∷ rest

-- `s | t`, `s.update(t)`
unfoldable pub union : List String → List String → List String
unfolding add
union xs [] = xs
union xs (y ∷ ys) = union (add y xs) ys

-- `set(xs)`
abbrev pub set_of : List String → List String
set_of xs = union [] xs

-- No text stands twice.
abbrev pub IsUnique : List String → Type 0
IsUnique [] = Unit {0}
IsUnique (x ∷ xs) = (contains x xs ≡ false) × IsUnique xs

pub contains-nil : (a : String) → contains a [] ≡ false
unfolding contains
contains-nil a = refl

pub contains-cons :
    (a x : String) (xs : List String) → contains a (x ∷ xs) ≡ ((x == a) || contains a xs)
unfolding contains
contains-cons a x xs = refl

pub contains-append :
    (a : String) (xs ys : List String) → contains a (xs ++ ys) ≡ (contains a xs || contains a ys)
unfolding contains
contains-append a [] ys = refl
contains-append a (x ∷ xs) ys = ground (arith, contains-append a xs ys)

pub contains-add :
    (a b : String) (xs : List String) → contains a (add b xs) ≡ ((b == a) || contains a xs)
unfolding add
contains-add a b xs =
    ground (arith, contains-append a xs (b ∷ []), contains-cons a b [], contains-nil a, eq_iff b a)

pub contains-discard :
    (a b : String) (xs : List String) → contains a (discard b xs) ≡ (not (b == a) && contains a xs)
unfolding contains discard
contains-discard a b [] = ground arith
contains-discard a b (x ∷ xs) =
    ground (arith, contains-discard a b xs, eq_iff x b, eq_iff x a, eq_iff b a)

pub contains-union :
    (a : String) (xs ys : List String) → contains a (union xs ys) ≡ (contains a xs || contains a ys)
unfolding union
contains-union a xs [] = ground (arith, contains-nil a)
contains-union a xs (y ∷ ys) =
    ground (arith, contains-union a (add y xs) ys, contains-add a y xs, contains-cons a y ys)

pub discard-IsUnique : (a : String) (xs : List String) → IsUnique xs → IsUnique (discard a xs)
unfolding discard
discard-IsUnique a [] u = tt
discard-IsUnique a (x ∷ xs) u = ground (arith, discard-IsUnique a xs u.1, contains-discard x a xs)

pub append-IsUnique :
    (a : String) (xs : List String) → contains a xs ≡ false → IsUnique xs → IsUnique (xs ++ a ∷ [])
unfolding contains
append-IsUnique a [] h u = (refl, tt)
append-IsUnique a (x ∷ xs) h u = ground (
  arith,
  append-IsUnique a xs,
  contains-append x xs (a ∷ []),
  contains-cons x a [],
  contains-nil x,
  eq_iff x a,
  eq_iff a x,
)

pub add-IsUnique : (a : String) (xs : List String) → IsUnique xs → IsUnique (add a xs)
unfolding add
add-IsUnique a xs u = ground (arith, append-IsUnique a xs)

-- What is not there is not removed.
pub discard_absent : (a : String) (xs : List String) → contains a xs ≡ false → discard a xs ≡ xs
unfolding contains discard
discard_absent a [] h = refl
discard_absent a (x ∷ xs) h = ground (arith, discard_absent a xs)

-- `[x for x in xs if p(x)]`
unfoldable pub select : (String → Bool) → List String → List String
select p [] = []
select p (x ∷ xs) = let rest = select p xs in if p x then x ∷ rest else rest

pub contains-select :
    (p : String → Bool) (x : String) (xs : List String)
    → contains x (select p xs) ≡ (p x && contains x xs)
unfolding select contains
contains-select p x [] = ground arith
contains-select p x (y ∷ xs) = elim (Bool-cases (y == x)) [
  | inl same ↦
      let e : y ≡ x = (eq_iff y x).0 same in
      rw e (ground (arith, contains-select p x xs, ==_refl x))
  | inr other ↦ ground (arith, contains-select p x xs)
]

pub contains-take :
    (a : String) (n : ℕ) (xs : List String) → contains a xs ≡ false → contains a (take n xs) ≡ false
unfolding contains take
contains-take a zero xs h = refl
contains-take a (suc n) [] h = refl
contains-take a (suc n) (x ∷ xs) h = ground (arith, contains-take a n xs, h)

pub take-IsUnique : (n : ℕ) (xs : List String) → IsUnique xs → IsUnique (take n xs)
unfolding take
take-IsUnique zero xs u = tt
take-IsUnique (suc n) [] u = tt
take-IsUnique (suc n) (x ∷ xs) u = (contains-take x n xs u.0, take-IsUnique n xs u.1)

-- The first entry stays.
pub contains_taken :
    (x : String) (n : ℕ) (xs : List String) → contains x (take (suc n) (x ∷ xs)) ≡ true
unfolding contains take
contains_taken x n xs = ground (arith, ==_refl x)

-- Nothing satisfies the test, if no member does.
pub any-contains :
    (p : String → Bool) (xs : List String)
    → ((x : String) → contains x xs ≡ true → p x ≡ false)
    → any p xs ≡ false
unfolding any contains
any-contains p [] h = refl
any-contains p (x ∷ xs) h =
    rw (h x (ground (arith, ==_refl x))) (any-contains p xs λ y y_in. h y (ground (arith, y_in)))

pub is_empty-select :
    (p : String → Bool) (xs : List String) → is_empty (select p xs) ≡ not (any p xs)
unfolding any select
is_empty-select p [] = refl
is_empty-select p (x ∷ xs) = ground (arith, is_empty-select p xs)

pub any-append {ℓ} :
    {A : Type ℓ} (p : A → Bool) (xs ys : List A) → any p (xs ++ ys) ≡ (any p xs || any p ys)
unfolding any
any-append p [] ys = refl
any-append p (x ∷ xs) ys = ground (arith, any-append p xs ys)

-- What passes a test and what fails it make up the whole.
pub length-collect {ℓ κ μ} :
    {A : Type ℓ} {B : Type κ} {C : Type μ} (p : A → Bool) (f : A → B) (g : A → C) (xs : List A)
    → length (collect p f xs) + length (collect (λ x. not (p x)) g xs) ≡ length xs
unfolding collect
length-collect p f g [] = refl
length-collect p f g (x ∷ xs) = elim (Bool-cases (p x)) [
  | inl e ↦ rw e (omega (arith, length-collect p f g xs))
  | inr e ↦ rw e (omega (arith, length-collect p f g xs))
]

pub union-IsUnique : (xs ys : List String) → IsUnique xs → IsUnique (union xs ys)
unfolding union
union-IsUnique xs [] u = u
union-IsUnique xs (y ∷ ys) u = union-IsUnique (add y xs) ys (add-IsUnique y xs u)

pub add_nonempty : (a : String) (xs : List String) → is_empty (add a xs) ≡ false
unfolding add contains
add_nonempty a [] = refl
add_nonempty a (x ∷ xs) = if_both is_empty ((x == a) || contains a xs) refl refl
