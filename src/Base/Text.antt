-- ===== src/Base/Text.antt =====
-- `str.lower`, `str.isdigit` and searches in texts, over the characters of a native `String`.
-- `lower` covers the ASCII letters.
use Prim.Native.Nat.{ℕ, ◌-◌, compare, Ordering}
use Prim.Native.Char.{Char, code}
use Prim.Native.String.{String, ◌++◌ as ◌<>◌, char_at, len, slice}
use text.Mathlib.TextLemmas.{nil-append, cons-append}
use mathlib.Core.Bool.{Bool, true, false, not, ◌&&◌, ◌||◌}
use mathlib.Core.Path.{◌≡◌, ◌∙◌, refl, ap}
use text.Mathlib.Text.{starts_with}
use unified_icc.Base.Tests.{if◌then◌else◌, ◌==◌}

abbrev leb : ℕ → ℕ → Bool
leb a b = elim (compare a b) [ Ordering.gt ↦ false | _ ↦ true ]

abbrev alphabet : String
alphabet = "abcdefghijklmnopqrstuvwxyz"

lower_char : Char → Char
lower_char c = if leb 65 (code c) && leb (code c) 90 then char_at alphabet (code c - 65) else c

-- `s.lower()`
unfoldable pub lower : String → String
unfolding lower_char
lower String.[] = ""
lower (String.◌∷◌ c s) = String.◌∷◌ (lower_char c) (lower s)

all_digits : String → Bool
all_digits String.[] = true
all_digits (String.◌∷◌ c s) = (leb 48 (code c) && leb (code c) 57) && all_digits s

-- `s.isdigit()` on ASCII: not empty, and every character a digit.
unfoldable pub is_digit : String → Bool
unfolding all_digits
is_digit s = not (s == "") && all_digits s

-- `t in s`
unfoldable pub contains_text : String → String → Bool
contains_text t String.[] = t == ""
contains_text t (String.◌∷◌ c s) = starts_with (String.◌∷◌ c s) t || contains_text t s

-- `s.endswith(t)`
unfoldable pub ends_with : String → String → Bool
ends_with String.[] t = t == ""
ends_with (String.◌∷◌ c s) t = (String.◌∷◌ c s == t) || ends_with s t

-- `s.removesuffix(t)`, for a text `t` that is not empty
unfoldable pub remove_suffix : String → String → String
remove_suffix t String.[] = ""
remove_suffix t (String.◌∷◌ c s) =
    let rest = remove_suffix t s in if String.◌∷◌ c s == t then "" else String.◌∷◌ c rest

-- `s[n:]` for a prefix of `n` bytes that `s` starts with
unfoldable pub drop_prefix : String → String → String
drop_prefix prefix s = slice s (len prefix) (len s)

-- `s.removeprefix(p)`
unfoldable pub remove_prefix : String → String → String
unfolding drop_prefix
remove_prefix p s = if starts_with s p then drop_prefix p s else s

-- `s.split(sep)[0]`, for a separator that is not empty
unfoldable pub before : String → String → String
before sep String.[] = ""
before sep (String.◌∷◌ c s) =
    if starts_with (String.◌∷◌ c s) sep then "" else String.◌∷◌ c (before sep s)

-- `s.rsplit(":", 1)[0]`: all before the last colon, or the whole text.
unfoldable pub before_last_colon : String → String
unfolding contains_text
before_last_colon String.[] = ""
before_last_colon (String.◌∷◌ c s) =
    let head = String.◌∷◌ c (before_last_colon s) in
    if starts_with (String.◌∷◌ c s) ":" && not (contains_text ":" s) then "" else head

-- ASCII white space
is_space : Char → Bool
is_space c = (leb 9 (code c) && leb (code c) 13) || (leb 28 (code c) && leb (code c) 32)

lstrip : String → String
lstrip String.[] = ""
lstrip (String.◌∷◌ c s) = let rest = lstrip s in if is_space c then rest else String.◌∷◌ c s

rstrip : String → String
rstrip String.[] = ""
rstrip (String.◌∷◌ c s) =
    let rest = rstrip s in if is_space c && rest == "" then "" else String.◌∷◌ c rest

-- `s.strip()`, for ASCII white space
unfoldable pub strip : String → String
unfolding lstrip rstrip is_space
strip s = rstrip (lstrip s)

-- A character in front of a text is the text of the character, joined with it.
pub front : (c : Char) (s : String) → String.◌∷◌ c "" <> s ≡ String.◌∷◌ c s
front c s = cons-append c "" s ∙ ap (String.◌∷◌ c) (nil-append s)

texts :
    (lower "YoLo" ≡ "yolo")
    × (is_digit "120" ≡ true)
    × (is_digit "" ≡ false)
    × (contains_text "-main-" "emdash-claude-main-7" ≡ true)
    × (before "-main-" "emdash-claude-main-7" ≡ "emdash-claude")
    × (remove_prefix "emdash-" "emdash-claude" ≡ "claude")
    × (before_last_colon "a:b:@0" ≡ "a:b")
    × (before_last_colon "ab" ≡ "ab")
    × (strip " \t a b\n" ≡ "a b")
unfolding strip lower is_digit contains_text before remove_prefix before_last_colon
texts = (refl, refl, refl, refl, refl, refl, refl, refl, refl)
