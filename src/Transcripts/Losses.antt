-- ===== src/Transcripts/Losses.antt =====
-- protocol/transcript_reader.py: where a reading stops for good, and where it loses an entry.
use Prim.Native.Char.{len_utf8}
use Prim.Native.String.{len, slice}
use text.Mathlib.TextPositions.{len-append, slice-append_right}
use text.Mathlib.TextLemmas.{append_assoc}
use unified_icc.Base.{
  ℕ, ◌+◌, String, ◌<>◌, true, false, ◌≡◌, ◌∙◌, refl, sym, ap, Option, List, [], ◌∷◌, ◌++◌, ltb, eqb,
  truthy, any, arith, Option-cases, inl, inr, is_empty,
}
use unified_icc.Base.Dict.{Dict}
use unified_icc.Base.Json.{Json}
use unified_icc.Base.Text.{strip, front}
use unified_icc.Events.{holds}
use unified_icc.Events.Lines.{lines, is_complete, lines-append}
use unified_icc.Transcripts.{
  first_line, skipped, start_offset, parse_line, read_entries, read_new_lines,
}
use unified_icc.Transcripts.Laws.{advances, read_from}

module _ (loads : String → Option (Dict Json)) where
  held_first :
      (ls ms : List String) (offset : ℕ)
      → is_empty ls ≡ false
      → any (advances loads) ls ≡ false
      → read_entries loads (ls ++ ms) offset ≡ ([], offset)
  unfolding read_entries any
  held_first [] ms offset full h = cc
  held_first (l ∷ ls) ms offset full h = elim (Option-cases (parse_line loads l)) [
    | inl e ↦
        let not_blank : truthy (strip l) ≡ true = ground (arith, h, e) in rw (e, not_blank) refl
    | inr (d, e) ↦ ground (arith, h, e)
  ]

  -- A whole line that begins as an object and is none stops the reading of the transcript:
  -- whatever is appended, no reading from there finds an entry or moves on.
  pub malformed_line_stops :
      (a l t : String)
      → is_complete l ≡ true
      → is_empty (lines l) ≡ false
      → any (advances loads) (lines l) ≡ false
      → skipped (l <> t) ≡ 0
      → read_new_lines loads (holds (a <> (l <> t))) (len a) ≡ ([], len a)
  malformed_line_stops a l t whole full bad begins =
      read_from loads a (l <> t) begins
      ∙ ap (λ ls. read_entries loads ls (len a)) (lines-append l t whole)
      ∙ held_first (lines l) (lines t) (len a) full bad

  read_begun :
      (text rest : String) (last start : ℕ)
      → start_offset text last ≡ start
      → slice text start (len text) ≡ rest
      → read_new_lines loads (holds text) last ≡ read_entries loads (lines rest) start
  unfolding read_new_lines
  read_begun text rest last start begins part = rw (begins, part) refl

  skipped_blank :
      (l t : String)
      → first_line (lines (l <> t)) ≡ l
      → skipped ("\n" <> (l <> t)) ≡ len ("\n" <> l)
  unfolding skipped
  skipped_blank l t first =
      ap skipped (front "\n" (l <> t))
      ∙ ap (λ line. len_utf8 "\n" + len line) first
      ∙ sym (len-append "\n" l)

  start_blank :
      (a l t : String)
      → eqb (len a) 0 ≡ false
      → first_line (lines (l <> t)) ≡ l
      → start_offset (a <> ("\n" <> (l <> t))) (len a) ≡ len (a <> ("\n" <> l))
  unfolding start_offset
  start_blank a l t nonempty first =
      let rest : String = "\n" <> (l <> t) in
      let inside : ltb (len (a <> rest)) (len a) ≡ false = ground (arith, len-append a rest) in
      let part : slice (a <> rest) (len a) (len (a <> rest)) ≡ rest =
        ap (slice (a <> rest) (len a)) (len-append a rest) ∙ slice-append_right a rest in
      rw (inside, nonempty, part, skipped_blank l t first) (sym (len-append a ("\n" <> l)))

  -- A blank line where a reading begins, other than the first, costs the line after it: the
  -- reading goes on behind that line, whatever it has.
  pub blank_line_loses :
      (a l t : String)
      → eqb (len a) 0 ≡ false
      → is_complete l ≡ true
      → lines l ≡ l ∷ []
      → read_new_lines loads (holds (a <> ("\n" <> (l <> t)))) (len a)
        ≡ read_entries loads (lines t) (len (a <> ("\n" <> l)))
  blank_line_loses a l t nonempty whole one =
      let first : first_line (lines (l <> t)) ≡ l =
        ap first_line (lines-append l t whole) ∙ ap (λ ls. first_line (ls ++ lines t)) one in
      let same : a <> ("\n" <> (l <> t)) ≡ (a <> ("\n" <> l)) <> t =
        ap (λ s. a <> s) (sym (append_assoc "\n" l t)) ∙ sym (append_assoc a ("\n" <> l) t) in
      read_begun (a <> ("\n" <> (l <> t))) t (len a) (len (a <> ("\n" <> l)))
        (start_blank a l t nonempty first)
        (ap (λ s. slice s (len (a <> ("\n" <> l))) (len s)) same
          ∙ ap (slice ((a <> ("\n" <> l)) <> t) (len (a <> ("\n" <> l))))
              (len-append (a <> ("\n" <> l)) t)
          ∙ slice-append_right (a <> ("\n" <> l)) t)
