-- ===== src/Events/Laws.antt =====
-- events/event_reader.py: reading in pieces gives what reading at once gives.
use Prim.Native.String.{len, slice}
use text.Mathlib.TextPositions.{len-append, slice_all, slice-append_right}
use unified_icc.Base.{
  ℕ, ◌+◌, String, ◌<>◌, true, false, ◌≡◌, ◌∙◌, refl, sym, ap, Option, List, [], ◌∷◌, ◌++◌, ltb,
  arith,
}
use mathlib.Core.List.{append_assoc}
use unified_icc.Base.Dict.{Dict}
use unified_icc.Base.Json.{Json}
use unified_icc.Events.{HookEvent, holds, event_in, read_lines, read_new_events}
use unified_icc.Events.Lines.{lines, is_complete, lines-append, size, size-lines}

module _ (loads : String → Option (Dict Json)) where
  -- The events of all lines.
  abbrev pub all_events : List String → List HookEvent
  all_events [] = []
  all_events (line ∷ rest) = event_in loads line ++ all_events rest

  all_events-append : (ls ms : List String) → all_events (ls ++ ms) ≡ all_events ls ++ all_events ms
  all_events-append [] ms = refl
  all_events-append (l ∷ ls) ms =
      ap (λ es. event_in loads l ++ es) (all_events-append ls ms)
      ∙ sym (append_assoc (event_in loads l) (all_events ls) (all_events ms))

  -- The loop over the lines gives the events of all of them, and the offset where they end.
  read_lines_all :
      (ls : List String) (offset : ℕ)
      → read_lines loads ls offset ≡ (all_events ls, offset + size ls)
  unfolding read_lines size
  read_lines_all [] offset = ap (λ n. ([], n)) (omega arith)
  read_lines_all (l ∷ ls) offset =
      ap (λ p. (event_in loads l ++ p.0, p.1)) (read_lines_all ls (offset + len l))
      ∙ ap (λ n. (event_in loads l ++ all_events ls, n)) (omega arith)

  read_part :
      (text rest : String) (offset : ℕ)
      → ltb (len text) offset ≡ false
      → slice text offset (len text) ≡ rest
      → read_new_events loads (holds text) offset ≡ (all_events (lines rest), offset + len rest)
  unfolding read_new_events
  read_part text rest offset h e =
      rw (h, e, read_lines_all (lines rest) offset, size-lines rest) refl

  -- From the end of its first part, the events of the rest of a text are read, up to the end.
  pub read_rest :
      (s t : String)
      → read_new_events loads (holds (s <> t)) (len s) ≡ (all_events (lines t), len (s <> t))
  read_rest s t =
      read_part (s <> t) t (len s) (ground (arith, len-append s t))
        (ap (slice (s <> t) (len s)) (len-append s t) ∙ slice-append_right s t)
      ∙ ap (λ n. (all_events (lines t), n)) (sym (len-append s t))

  read_whole : (s : String) → read_new_events loads (holds s) 0 ≡ (all_events (lines s), len s)
  read_whole s =
      read_part s s 0 (ground arith) (slice_all s)
      ∙ ap (λ n. (all_events (lines s), n)) (omega arith)

  -- Reading a log twice, once when it ended with a whole line and once when it had grown, gives
  -- the events and the offset of reading the grown log at once.
  pub read_twice :
      (s t : String)
      → is_complete s ≡ true
      → (let (first, offset) = read_new_events loads (holds s) 0 in
          let (second, last) = read_new_events loads (holds (s <> t)) offset in
          ◌≡◌ {A = List HookEvent × ℕ}
            (first ++ second, last)
            (read_new_events loads (holds (s <> t)) 0))
  read_twice s t whole =
      rw (read_whole s, read_whole (s <> t), read_rest s t, lines-append s t whole)
        (ap (λ es. (es, len (s <> t))) (sym (all_events-append (lines s) (lines t))))

  -- A log that is shorter than the offset is read from its beginning, up to its end.
  pub read_truncated :
      (s : String) (offset : ℕ)
      → ltb (len s) offset ≡ true
      → read_new_events loads (holds s) offset ≡ (all_events (lines s), len s)
  unfolding read_new_events
  read_truncated s offset short = rw short (
      rw (slice_all s) (
        read_lines_all (lines s) 0
        ∙ ap (λ n. (all_events (lines s), n)) (omega (arith, size-lines s))))
