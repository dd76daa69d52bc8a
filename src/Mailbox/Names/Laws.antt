-- ===== src/Mailbox/Names/Laws.antt =====
-- utils/mailbox.py: the directory of an id lies in the base directory, and gives the id back.
use Prim.Native.Char.{Char, code}
use Prim.Native.String as Native
use text.Mathlib.TextEquality.{Char-path}
use text.Mathlib.TextLemmas.{nil-append, cons-append}
use unified_icc.Base.{
  ℕ, String, ◌<>◌, true, false, ◌||◌, ◌≡◌, ◌⊎◌, ◌∙◌, refl, sym, ap, some, eqb, arith, Bool-cases,
  inl, inr,
}
use unified_icc.Base.Text.{front}
use unified_icc.Mailbox.Names.{
  colon, equals, slash, backslash, dot, has_char, has_dots, starts_with_dot, before_char,
  after_char, has_traversal, sanitize_dir_name, unsanitize_dir_name,
}

same_code : (c d : Char) → eqb (code c) (code d) ≡ true → c ≡ d
same_code c d h = Char-path c d (ground (arith, h))

eqb_refl : (n : ℕ) → eqb n n ≡ true
eqb_refl n = ground arith

-- A text that is joined by a character is split at it, if the first part does not have it.
module _ (c : Char) (b : String) where
  split_first :
      (a : String)
      → has_char (code c) a ≡ false
      → (before_char (code c) (a <> Native.String.◌∷◌ c b) ≡ a)
        × (after_char (code c) (a <> Native.String.◌∷◌ c b) ≡ b)
        × (has_char (code c) (a <> Native.String.◌∷◌ c b) ≡ true)
  unfolding has_char before_char after_char
  split_first Native.String.[] h =
      rw (nil-append (Native.String.◌∷◌ c b)) (rw (eqb_refl (code c)) (refl, refl, refl))
  split_first (Native.String.◌∷◌ d a) h =
      let other : eqb (code d) (code c) ≡ false = ground (arith, h) in
      let (before, after, has) = split_first a (ground (arith, h)) in
      rw (cons-append d a (Native.String.◌∷◌ c b), other)
        (ap (Native.String.◌∷◌ d) before, after, has)

  has_char-join :
      (k : ℕ) (a : String)
      → has_char k (a <> Native.String.◌∷◌ c b) ≡ (has_char k a || (eqb (code c) k || has_char k b))
  unfolding has_char
  has_char-join k Native.String.[] = rw (nil-append (Native.String.◌∷◌ c b)) refl
  has_char-join k (Native.String.◌∷◌ d a) =
      rw (cons-append d a (Native.String.◌∷◌ c b)) (ground (arith, has_char-join k a))

  starts_with_dot-join :
      (a : String)
      → eqb (code c) dot ≡ false
      → starts_with_dot (a <> Native.String.◌∷◌ c b) ≡ starts_with_dot a
  unfolding starts_with_dot
  starts_with_dot-join Native.String.[] h = rw (nil-append (Native.String.◌∷◌ c b)) h
  starts_with_dot-join (Native.String.◌∷◌ d a) h = rw (cons-append d a (Native.String.◌∷◌ c b)) refl

  has_dots-join :
      (a : String)
      → eqb (code c) dot ≡ false
      → has_dots (a <> Native.String.◌∷◌ c b) ≡ (has_dots a || has_dots b)
  unfolding has_dots
  has_dots-join Native.String.[] h = rw (nil-append (Native.String.◌∷◌ c b)) (ground (arith, h))
  has_dots-join (Native.String.◌∷◌ d a) h =
      rw (cons-append d a (Native.String.◌∷◌ c b))
        (ground (arith, has_dots-join a h, starts_with_dot-join a h))

-- A text that has a character is its two parts, joined by it.
rejoin :
    (c : Char) (s : String)
    → has_char (code c) s ≡ true
    → before_char (code c) s <> Native.String.◌∷◌ c (after_char (code c) s) ≡ s
unfolding has_char before_char after_char
rejoin c Native.String.[] h = cc
rejoin c (Native.String.◌∷◌ d s) h = elim (Bool-cases (eqb (code d) (code c))) [
  | inl e ↦ rw (e, nil-append (Native.String.◌∷◌ c s), same_code d c e) refl
  | inr e ↦
      rw (e, cons-append d (before_char (code c) s) (Native.String.◌∷◌ c (after_char (code c) s)))
        (ap (Native.String.◌∷◌ d) (rejoin c s (ground (arith, h, e))))
]

-- An id that has a directory is two parts without a traversal, or has no colon.
sanitize_dir_name-cases :
    (id dir : String)
    → sanitize_dir_name id ≡ some dir
    → ((has_char colon id ≡ true)
        × (before_char colon id <> ("=" <> after_char colon id) ≡ dir)
        × (has_traversal (before_char colon id) ≡ false)
        × (has_traversal (after_char colon id) ≡ false))
      ⊎ ((has_char colon id ≡ false) × (id ≡ dir) × (has_traversal id ≡ false))
unfolding sanitize_dir_name
sanitize_dir_name-cases id dir h = ground (arith, h)

-- Two parts without a traversal that an equals sign joins have none.
joined_safe :
    (a b : String)
    → has_traversal a ≡ false
    → has_traversal b ≡ false
    → has_traversal (a <> ("=" <> b)) ≡ false
unfolding has_traversal
joined_safe a b no_a no_b = rw (front "=" b) (
    ground (
      arith,
      no_a,
      no_b,
      has_char-join "=" b slash a,
      has_char-join "=" b backslash a,
      has_dots-join "=" b a refl,
    ))

-- The directory of an id has neither separators nor two dots in its name.
pub sanitize_dir_name_safe :
    (id dir : String) → sanitize_dir_name id ≡ some dir → has_traversal dir ≡ false
sanitize_dir_name_safe id dir h = elim (sanitize_dir_name-cases id dir h) [
  | inl (_, same, no_a, no_b) ↦ rw⁻¹ same (joined_safe _ _ no_a no_b)
  | inr (_, same, safe) ↦ rw⁻¹ same safe
]

-- Two parts that an equals sign joins are joined by a colon again.
joined_back :
    (a b : String)
    → has_char equals a ≡ false
    → unsanitize_dir_name (a <> ("=" <> b)) ≡ a <> (":" <> b)
unfolding unsanitize_dir_name
joined_back a b plain =
    let (before, after, has) = split_first "=" b a plain in
    rw (front "=" b, has, before, after) refl

before_absent : (k : ℕ) (s : String) → has_char k s ≡ false → before_char k s ≡ s
unfolding has_char before_char
before_absent k Native.String.[] h = refl
before_absent k (Native.String.◌∷◌ d s) h =
    let other : eqb (code d) k ≡ false = ground (arith, h) in
    rw other (ap (Native.String.◌∷◌ d) (before_absent k s (ground (arith, h))))

plain_back :
    (id : String)
    → has_char colon id ≡ false
    → has_char equals (before_char colon id) ≡ false
    → unsanitize_dir_name id ≡ id
unfolding unsanitize_dir_name
plain_back id has_not plain =
    ground (arith, ap (has_char equals) (before_absent colon id has_not), plain)

-- The directory of an id gives the id back, where the part before the colon has no equals sign.
pub unsanitize-sanitize :
    (id dir : String)
    → has_char equals (before_char colon id) ≡ false
    → sanitize_dir_name id ≡ some dir
    → unsanitize_dir_name dir ≡ id
unsanitize-sanitize id dir plain h = elim (sanitize_dir_name-cases id dir h) [
  | inl (has, same, _, _) ↦ rw⁻¹ same (
      joined_back (before_char colon id) (after_char colon id) plain
      ∙ ap (λ t. before_char colon id <> t) (front ":" (after_char colon id))
      ∙ rejoin ":" id has)
  | inr (has_not, same, _) ↦ rw⁻¹ same (plain_back id has_not plain)
]

-- Two ids whose sessions have no equals sign do not share a directory.
pub sanitize_dir_name_injective :
    (id other dir : String)
    → has_char equals (before_char colon id) ≡ false
    → has_char equals (before_char colon other) ≡ false
    → sanitize_dir_name id ≡ some dir
    → sanitize_dir_name other ≡ some dir
    → id ≡ other
sanitize_dir_name_injective id other dir p q h k =
    sym (unsanitize-sanitize id dir p h) ∙ unsanitize-sanitize other dir q k
