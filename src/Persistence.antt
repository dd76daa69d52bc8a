-- ===== src/Persistence.antt =====
-- state/state_persistence.py: the delayed writing of the state. `saved` stands for what
-- `serialize_fn` returns and `atomic_write_json` writes, `none` where one of them raises. A time is a
-- number of milliseconds. `writes` counts the files written.
pub mod Laws
mod Tests
use unified_icc.Base.{
  ℕ, ◌+◌, Bool, true, false, Option, none, some, List, [], ◌∷◌, if◌then◌else◌, not, ltb,
}
use unified_icc.Base.Dict.{Dict}
use unified_icc.Base.Json.{Json}
use unified_icc.Monitor.{StateFile, missing, broken, holds}

pub record StatePersistence : Type 0 where
  pub file : StateFile
  pub save_timer : Option ℕ
  pub dirty : Bool
  pub writes : ℕ

unfoldable pub save_as : Option (Dict Json) → StatePersistence → StatePersistence
save_as none p = p
save_as (some state) p = record p { file = holds state; dirty = false; writes = p.writes + 1 }

unfoldable pub do_save : Option (Dict Json) → StatePersistence → StatePersistence
do_save saved p = save_as saved (record p { save_timer = none })

-- `running` tells whether an event loop is. The timer that was set is cancelled.
unfoldable pub schedule_save : Bool → ℕ → Option (Dict Json) → StatePersistence → StatePersistence
schedule_save running now saved p =
    let marked = record p { dirty = true } in
    if running then record marked { save_timer = some (now + 500) } else do_save saved marked

unfoldable pub flush_if : Bool → Option (Dict Json) → StatePersistence → StatePersistence
flush_if dirty saved p = if dirty then do_save saved p else p

unfoldable pub flush : Option (Dict Json) → StatePersistence → StatePersistence
flush saved p = flush_if p.dirty saved (record p { save_timer = none })

unfoldable pub load : StateFile → Dict Json
load (holds state) = state
load _ = []

-- The program with its clock.
pub record World : Type 0 where
  pub state : Dict Json
  pub now : ℕ
  pub persistence : StatePersistence

-- What happens: the state is changed and a save is scheduled, with an event loop or without; time
-- passes; the state is flushed. A write succeeds if `can_write` is true.
pub data Event : Type 0 where
  change : Dict Json → Event
  change_outside : Bool → Dict Json → Event
  pass : Bool → ℕ → Event
  flushed : Bool → Event

unfoldable pub written : Bool → Dict Json → Option (Dict Json)
written true state = some state
written false state = none

abbrev pub is_due : Option ℕ → ℕ → Bool
is_due none now = false
is_due (some time) now = not (ltb now time)

-- The callback runs when its time has come.
unfoldable pub run_due : Bool → Option (Dict Json) → StatePersistence → StatePersistence
run_due due saved p = if due then do_save saved p else p

unfoldable pub happen : Event → World → World
happen (change d) w = record w {
  state = d;
  persistence = schedule_save true w.now none w.persistence;
}
happen (change_outside can_write d) w = record w {
  state = d;
  persistence = schedule_save false w.now (written can_write d) w.persistence;
}
happen (pass can_write time) w =
    let due = is_due w.persistence.save_timer (w.now + time) in
    record w {
      now = w.now + time;
      persistence = run_due due (written can_write w.state) w.persistence;
    }
happen (flushed can_write) w = record w {
  persistence = flush (written can_write w.state) w.persistence;
}

unfoldable pub happen_all : List Event → World → World
happen_all [] w = w
happen_all (e ∷ es) w = happen_all es (happen e w)

-- Changes, each with the time since the one before.
unfoldable pub burst : List (ℕ × Dict Json) → List Event
burst [] = []
burst ((time, d) ∷ changes) = pass true time ∷ change d ∷ burst changes
