-- ===== src/Transcripts/Laws.antt =====
-- protocol/transcript_reader.py: reading a transcript while it grows loses nothing, as long as every
-- reading begins at an object.
use Prim.Native.String.{len, slice}
use text.Mathlib.TextPositions.{len-append, slice_all, slice-append_right}
use unified_icc.Base.{
  ℕ, ◌+◌, String, ◌<>◌, Bool, true, false, not, ◌||◌, ◌≡◌, ◌∙◌, refl, ap, Option, none, some, List,
  [], ◌∷◌, ◌++◌, ltb, truthy, is_some, any, arith, Option-cases, inl, inr,
}
use mathlib.Core.List.{append-nil}
use unified_icc.Base.Dict.{Dict}
use unified_icc.Base.Json.{Json}
use unified_icc.Base.Text.{strip}
use unified_icc.Events.{holds}
use unified_icc.Events.Lines.{lines, is_complete, lines-append, size, size-lines}
use unified_icc.Transcripts.{skipped, start_offset, parse_line, read_entries, read_new_lines}

module _ (loads : String → Option (Dict Json)) where
  -- A line that the reader goes past: one with an object, or an empty one.
  abbrev pub advances : String → Bool
  advances line = is_some (parse_line loads line) || not (truthy (strip line))

  abbrev pub is_held : String → Bool
  is_held line = not (advances line)

  abbrev entry_of : Option (Dict Json) → List (Dict Json)
  entry_of none = []
  entry_of (some d) = d ∷ []

  -- The objects of all lines.
  abbrev pub all_entries : List String → List (Dict Json)
  all_entries [] = []
  all_entries (line ∷ rest) = entry_of (parse_line loads line) ++ all_entries rest

  -- Past lines that do not hold the reader up, it goes on with the rest.
  pub read_entries-append :
      (ls ms : List String) (offset : ℕ)
      → any is_held ls ≡ false
      → read_entries loads (ls ++ ms) offset ≡ (
        all_entries ls ++ (read_entries loads ms (offset + size ls)).0,
        (read_entries loads ms (offset + size ls)).1,
      )
  unfolding read_entries size any
  read_entries-append [] ms offset h = ap (λ n. read_entries loads ms n) (omega arith)
  read_entries-append (l ∷ ls) ms offset h =
      let more =
        read_entries-append ls ms (offset + len l) (ground (arith, h))
        ∙ ap (λ n. (all_entries ls ++ (read_entries loads ms n).0, (read_entries loads ms n).1))
            (omega arith) in
      elim (Option-cases (parse_line loads l)) [
        | inl e ↦ let blank : truthy (strip l) ≡ false = ground (arith, h, e) in rw (e, blank) more
        | inr (d, e) ↦ rw e (ap (λ (p : List (Dict Json) × ℕ). (d ∷ p.0, p.1)) more)
      ]

  -- Lines that hold the reader up are not read.
  read_held :
      (ls : List String) (offset : ℕ)
      → any advances ls ≡ false
      → read_entries loads ls offset ≡ ([], offset)
  unfolding read_entries any
  read_held [] offset h = refl
  read_held (l ∷ ls) offset h = elim (Option-cases (parse_line loads l)) [
    | inl e ↦ let full : truthy (strip l) ≡ true = ground (arith, h, e) in rw (e, full) refl
    | inr (d, e) ↦ ground (arith, h, e)
  ]

  read_start :
      (text rest : String) (last : ℕ)
      → start_offset text last ≡ last
      → slice text last (len text) ≡ rest
      → read_new_lines loads (holds text) last ≡ read_entries loads (lines rest) last
  unfolding read_new_lines
  read_start text rest last start part = rw (start, part) refl

  start_within : (a rest : String) → skipped rest ≡ 0 → start_offset (a <> rest) (len a) ≡ len a
  unfolding start_offset
  start_within a rest none_skipped =
      let inside : ltb (len (a <> rest)) (len a) ≡ false = ground (arith, len-append a rest) in
      let part : slice (a <> rest) (len a) (len (a <> rest)) ≡ rest =
        ap (slice (a <> rest) (len a)) (len-append a rest) ∙ slice-append_right a rest in
      rw (inside, part, none_skipped) (ground arith)

  -- A reading that begins at an object, or at the end, reads the lines from there.
  pub read_from :
      (a rest : String)
      → skipped rest ≡ 0
      → read_new_lines loads (holds (a <> rest)) (len a) ≡ read_entries loads (lines rest) (len a)
  read_from a rest none_skipped =
      read_start (a <> rest) rest (len a) (start_within a rest none_skipped)
        (ap (slice (a <> rest) (len a)) (len-append a rest) ∙ slice-append_right a rest)

  start_zero : (s : String) → start_offset s 0 ≡ 0
  unfolding start_offset
  start_zero s = let inside : ltb (len s) 0 ≡ false = ground arith in rw inside refl

  pub read_all : (s : String) → read_new_lines loads (holds s) 0 ≡ read_entries loads (lines s) 0
  read_all s = read_start s s 0 (start_zero s) (slice_all s)

  -- The log is read while the line `p` after its whole lines is half written, and again when it
  -- has grown. Both readings together give what reading the grown log at once gives, where no line
  -- of the first part holds the reader up, the half of a line does, and the line begins as an
  -- object.
  pub read_unfinished :
      (a p t : String)
      → is_complete a ≡ true
      → any is_held (lines a) ≡ false
      → any advances (lines p) ≡ false
      → skipped (p <> t) ≡ 0
      → (let (first, offset) = read_new_lines loads (holds (a <> p)) 0 in
          let (second, last) = read_new_lines loads (holds (a <> (p <> t))) offset in
          ◌≡◌ {A = List (Dict Json) × ℕ}
            (first ++ second, last)
            (read_new_lines loads (holds (a <> (p <> t))) 0))
  read_unfinished a p t whole good half begins =
      let n : 0 + size (lines a) ≡ len a = omega (arith, size-lines a) in
      let first : read_new_lines loads (holds (a <> p)) 0 ≡ (all_entries (lines a), len a) =
        read_all (a <> p)
        ∙ ap (λ ls. read_entries loads ls 0) (lines-append a p whole)
        ∙ read_entries-append (lines a) (lines p) 0 good
        ∙ ap
            (λ k. (
              all_entries (lines a) ++ (read_entries loads (lines p) k).0,
              (read_entries loads (lines p) k).1,
            ))
            n
        ∙ ap (λ r. (all_entries (lines a) ++ r.0, r.1)) (read_held (lines p) (len a) half)
        ∙ ap (λ es. (es, len a)) (append-nil (all_entries (lines a))) in
      let at_once =
        read_all (a <> (p <> t))
        ∙ ap (λ ls. read_entries loads ls 0) (lines-append a (p <> t) whole)
        ∙ read_entries-append (lines a) (lines (p <> t)) 0 good in
      rw (first, at_once, read_from a (p <> t) begins, n) refl
