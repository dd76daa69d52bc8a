-- ===== src/Events/Lines.antt =====
-- The lines of a text, as iterating over a file gives them: each with its newline, the last one with
-- none if the text has none there.
use Prim.Native.Char.{Char, code, len_utf8}
use Prim.Native.String as Native
use Prim.Native.String.{len}
use Prim.Native.String.len
use text.Mathlib.TextLemmas.{nil-append, cons-append}
use unified_icc.Base.{
  ℕ, ◌+◌, String, ◌<>◌, Bool, true, false, ◌≡◌, ◌∙◌, refl, ap, List, [], ◌∷◌, ◌++◌, if◌then◌else◌,
  eqb, Bool-cases, inl, inr, is_empty, arith, if_both,
}

abbrev is_newline : Char → Bool
is_newline c = eqb (code c) 10

unfoldable pub begin_line : Char → List String → List String
begin_line c [] = Native.String.◌∷◌ c "" ∷ []
begin_line c (line ∷ rest) = Native.String.◌∷◌ c line ∷ rest

unfoldable pub lines : String → List String
lines Native.String.[] = []
lines (Native.String.◌∷◌ c s) =
    let rest = lines s in if is_newline c then Native.String.◌∷◌ c "" ∷ rest else begin_line c rest

-- The last line of the text, if there is one, has its newline.
unfoldable pub is_complete : String → Bool
is_complete Native.String.[] = true
is_complete (Native.String.◌∷◌ c Native.String.[]) = is_newline c
is_complete (Native.String.◌∷◌ c (Native.String.◌∷◌ d s)) = is_complete (Native.String.◌∷◌ d s)

begin_line-append :
    (c : Char) (ls ms : List String)
    → is_empty ls ≡ false
    → begin_line c (ls ++ ms) ≡ begin_line c ls ++ ms
unfolding begin_line
begin_line-append c [] ms h = cc
begin_line-append c (l ∷ ls) ms h = refl

begin_line_nonempty : (c : Char) (ls : List String) → is_empty (begin_line c ls) ≡ false
unfolding begin_line
begin_line_nonempty c [] = refl
begin_line_nonempty c (l ∷ ls) = refl

lines_nonempty : (c : Char) (s : String) → is_empty (lines (Native.String.◌∷◌ c s)) ≡ false
unfolding lines
lines_nonempty c s = if_both is_empty (is_newline c) refl (begin_line_nonempty c (lines s))

-- A text that is appended to a complete one brings its own lines.
pub lines-append : (s t : String) → is_complete s ≡ true → lines (s <> t) ≡ lines s ++ lines t
unfolding lines is_complete
lines-append Native.String.[] t h = rw (nil-append t) refl
lines-append (Native.String.◌∷◌ c Native.String.[]) t h =
    rw (cons-append c "" t, nil-append t, h) refl
lines-append (Native.String.◌∷◌ c (Native.String.◌∷◌ d s)) t h =
    let rest = Native.String.◌∷◌ d s in
    let more = lines-append (Native.String.◌∷◌ d s) t h in
    elim (Bool-cases (is_newline c)) [
      | inl e ↦ rw (cons-append c rest t, e) (ap (λ ls. Native.String.◌∷◌ c "" ∷ ls) more)
      | inr e ↦
          rw (cons-append c rest t, e)
            (ap (begin_line c) more
              ∙ begin_line-append c (lines rest) (lines t) (lines_nonempty d s))
    ]

-- The lines make up the text.
unfoldable pub size : List String → ℕ
size [] = 0
size (line ∷ rest) = len line + size rest

size-begin_line : (c : Char) (ls : List String) → size (begin_line c ls) ≡ len_utf8 c + size ls
unfolding size begin_line
size-begin_line c [] = rw (len.cons c "", len.nil) (omega arith)
size-begin_line c (l ∷ ls) = rw (len.cons c l) (omega arith)

pub size-lines : (s : String) → size (lines s) ≡ len s
unfolding lines size
size-lines Native.String.[] = refl
size-lines (Native.String.◌∷◌ c s) = elim (Bool-cases (is_newline c)) [
  | inl e ↦ rw (e, len.cons c s, len.cons c "", size-lines s) (omega arith)
  | inr e ↦
      rw (e, len.cons c s) (size-begin_line c (lines s) ∙ ap (λ n. len_utf8 c + n) (size-lines s))
]
