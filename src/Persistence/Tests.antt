-- ===== src/Persistence/Tests.antt =====
-- A program that saves its state, and the theorems at it.
use unified_icc.Base.{ℕ, true, false, ◌≡◌, refl, none, List, [], ◌∷◌, inr}
use unified_icc.Base.Dict.{Dict}
use unified_icc.Base.Json.{Json, num}
use unified_icc.Monitor.{holds}
use unified_icc.Persistence.{
  World, Event, change, change_outside, pass, flushed, load, happen, happen_all, burst,
}
use unified_icc.Persistence.Laws.{IsSaved, last_state, load-flush, burst_written_once}

abbrev numbered : ℕ → Dict Json
numbered n = ("n", num n) ∷ []

abbrev started : World
started = record {
  state = numbered 0;
  now = 10;
  persistence = record { file = holds (numbered 0); save_timer = none; dirty = false; writes = 3 };
}

-- A save that is due fails, and one without an event loop succeeds before the next change.
abbrev failing : List Event
failing =
    change (numbered 1)
    ∷ pass false 600
    ∷ change_outside true (numbered 2)
    ∷ change (numbered 3)
    ∷ pass true 100
    ∷ flushed false
    ∷ []

load-flush_example :
    load (happen (flushed true) (happen_all failing started)).persistence.file
    ≡ (happen_all failing started).state
load-flush_example = load-flush failing started (inr refl)

abbrev quick : List (ℕ × Dict Json)
quick = (300, numbered 2) ∷ (499, numbered 3) ∷ (0, numbered 4) ∷ []

burst_written_once_example :
    (let last = happen_all (burst quick) (happen (change (numbered 1)) started) in
      (last.persistence.file ≡ started.persistence.file)
      × IsSaved
          (last_state (numbered 1) quick)
          started.persistence.writes
          (happen (pass true 500) last).persistence)
burst_written_once_example = burst_written_once (numbered 1) quick started refl
