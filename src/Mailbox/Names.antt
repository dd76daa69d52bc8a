-- ===== src/Mailbox/Names.antt =====
-- utils/mailbox.py: the names of the directories, and the ids that they stand for. `none` stands
-- for the ValueError of an id with a path separator or two dots.
pub mod Laws
use Prim.Native.Char.{Char, code}
use Prim.Native.String as Native
use unified_icc.Base.{
  ℕ, String, ◌<>◌, Bool, true, false, not, ◌&&◌, ◌||◌, ◌≡◌, ◌≢◌, ◌∙◌, refl, sym, ap, Option, none,
  some, if◌then◌else◌, eqb, arith, Bool-cases, inl, inr,
}

-- The separators, as codes of characters.
abbrev pub colon : ℕ
colon = 58

abbrev pub equals : ℕ
equals = 61

abbrev slash : ℕ
slash = 47

abbrev backslash : ℕ
backslash = 92

abbrev dot : ℕ
dot = 46

-- `c in s`, for a character
unfoldable pub has_char : ℕ → String → Bool
has_char c Native.String.[] = false
has_char c (Native.String.◌∷◌ d s) = eqb (code d) c || has_char c s

unfoldable pub starts_with_dot : String → Bool
starts_with_dot Native.String.[] = false
starts_with_dot (Native.String.◌∷◌ d s) = eqb (code d) dot

-- `".." in s`
unfoldable pub has_dots : String → Bool
has_dots Native.String.[] = false
has_dots (Native.String.◌∷◌ d s) = (eqb (code d) dot && starts_with_dot s) || has_dots s

-- `s.split(c, 1)`: the text before the first such character, and the one after it.
unfoldable pub before_char : ℕ → String → String
before_char c Native.String.[] = ""
before_char c (Native.String.◌∷◌ d s) =
    let rest = before_char c s in if eqb (code d) c then "" else Native.String.◌∷◌ d rest

unfoldable pub after_char : ℕ → String → String
after_char c Native.String.[] = ""
after_char c (Native.String.◌∷◌ d s) =
    let rest = after_char c s in if eqb (code d) c then s else rest

-- `validate_no_traversal` raises for this.
unfoldable pub has_traversal : String → Bool
has_traversal value = has_dots value || (has_char slash value || has_char backslash value)

unfoldable pub sanitize_dir_name : String → Option String
sanitize_dir_name qualified_id =
    if has_char colon qualified_id
    then (if has_traversal (before_char colon qualified_id)
          || has_traversal (after_char colon qualified_id)
        then none
        else some (before_char colon qualified_id <> ("=" <> after_char colon qualified_id)))
    else if has_traversal qualified_id
    then none
    else some qualified_id

-- `replace("=", ":", 1)`
unfoldable pub unsanitize_dir_name : String → String
unsanitize_dir_name dir_name =
    if has_char equals dir_name
    then before_char equals dir_name <> (":" <> after_char equals dir_name)
    else dir_name
