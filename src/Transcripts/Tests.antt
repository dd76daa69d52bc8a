-- ===== src/Transcripts/Tests.antt =====
-- A transcript, and the theorems at it.
use Prim.Native.String.{len}
use unified_icc.Base.{
  ℕ, ◌<>◌, String, true, false, ◌≡◌, refl, Option, none, some, List, [], ◌∷◌, ◌++◌, if◌then◌else◌,
  any, is_empty,
}
use unified_icc.Base.Dict.{Dict}
use unified_icc.Base.Json.{Json, str}
use unified_icc.Base.Text.{strip, ends_with}
use unified_icc.Events.{holds}
use unified_icc.Events.Lines.{lines, is_complete, begin_line}
use unified_icc.Transcripts.{skipped, parse_line, read_entries, read_new_lines}
use unified_icc.Transcripts.Laws.{advances, is_held, read_unfinished}
use unified_icc.Transcripts.Losses.{malformed_line_stops, blank_line_loses}

-- A line that ends with a brace has an object.
abbrev parsed : String → Option (Dict Json)
parsed line = if ends_with line "}" then some (("text", str line) ∷ []) else none

abbrev entry : String
entry = "{1}\n"

abbrev half : String
half = "{2"

abbrev rest : String
rest = "}\n{3}\n"

whole : is_complete entry ≡ true
unfolding is_complete
whole = refl

good : any (is_held parsed) (lines entry) ≡ false
unfolding any lines begin_line parse_line strip ends_with
good = refl

held : any (advances parsed) (lines half) ≡ false
unfolding any lines begin_line parse_line strip ends_with
held = refl

begins : skipped (half <> rest) ≡ 0
unfolding skipped
begins = refl

read_unfinished_example :
    (let (first, offset) = read_new_lines parsed (holds (entry <> half)) 0 in
      let (second, last) = read_new_lines parsed (holds (entry <> (half <> rest))) offset in
      ◌≡◌ {A = List (Dict Json) × ℕ}
        (first ++ second, last)
        (read_new_lines parsed (holds (entry <> (half <> rest))) 0))
read_unfinished_example = read_unfinished parsed entry half rest whole good held begins

abbrev malformed : String
malformed = "{4\n"

malformed_whole : is_complete malformed ≡ true
unfolding is_complete
malformed_whole = refl

malformed_there : is_empty (lines malformed) ≡ false
unfolding lines begin_line
malformed_there = refl

malformed_held : any (advances parsed) (lines malformed) ≡ false
unfolding any lines begin_line parse_line strip ends_with
malformed_held = refl

malformed_begins : skipped (malformed <> entry) ≡ 0
unfolding skipped
malformed_begins = refl

malformed_line_stops_example :
    read_new_lines parsed (holds (entry <> (malformed <> entry))) (len entry) ≡ ([], len entry)
malformed_line_stops_example =
    malformed_line_stops parsed entry malformed entry malformed_whole malformed_there malformed_held
      malformed_begins

one_line : lines entry ≡ entry ∷ []
unfolding lines begin_line
one_line = refl

blank_line_loses_example :
    read_new_lines parsed (holds (entry <> ("\n" <> (entry <> entry)))) (len entry)
    ≡ read_entries parsed (lines entry) (len (entry <> ("\n" <> entry)))
blank_line_loses_example = blank_line_loses parsed entry entry entry refl whole one_line
