-- ===== src/Events/Tests.antt =====
-- A log, and the theorems at it.
use unified_icc.Base.{ℕ, ◌<>◌, String, true, ◌≡◌, refl, Option, some, List, [], ◌∷◌, ◌++◌}
use unified_icc.Base.Dict.{Dict}
use unified_icc.Base.Json.{Json, str}
use unified_icc.Events.{HookEvent, holds, read_new_events}
use unified_icc.Events.Lines.{is_complete}
use unified_icc.Events.Laws.{read_twice}

-- Every line is the object of an event with its text.
abbrev parsed : String → Option (Dict Json)
parsed line = some (("event", str line) ∷ [])

abbrev old_log : String
old_log = "Stop\n\nStart\n"

abbrev appended : String
appended = "SessionEnd\n"

whole : is_complete old_log ≡ true
unfolding is_complete
whole = refl

read_twice_example :
    (let (first, offset) = read_new_events parsed (holds old_log) 0 in
      let (second, last) = read_new_events parsed (holds (old_log <> appended)) offset in
      ◌≡◌ {A = List HookEvent × ℕ}
        (first ++ second, last)
        (read_new_events parsed (holds (old_log <> appended)) 0))
read_twice_example = read_twice parsed old_log appended whole
