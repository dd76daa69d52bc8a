-- ===== src/Persistence/Laws.antt =====
-- state/state_persistence.py: what is scheduled is written, and a burst of changes only once.
use unified_icc.Base.{
  ℕ, ◌+◌, Bool, true, false, ◌≡◌, ◌∙◌, refl, ap, none, some, List, [], ◌∷◌, ltb, ◌&&◌, arith, ◌⊎◌,
  inl, inr,
}
use unified_icc.Base.Dict.{Dict}
use unified_icc.Base.Json.{Json}
use unified_icc.Monitor.{StateFile, holds}
use unified_icc.Persistence.{
  StatePersistence, World, Event, change, change_outside, pass, flushed, save_as, do_save,
  schedule_save, flush, flush_if, load, written, run_due, is_due, happen, happen_all, burst,
}

-- The file holds the state, or a save is still owed.
abbrev pub IsKept : Dict Json → StatePersistence → Type 0
IsKept state p = (p.dirty ≡ true) ⊎ (p.file ≡ holds state)

save-IsKept :
    (can_write : Bool) (state : Dict Json) (p : StatePersistence)
    → IsKept state p
    → IsKept state (do_save (written can_write state) p)
unfolding do_save save_as written
save-IsKept true state p k = inr refl
save-IsKept false state p k = k

run_due-IsKept :
    (due can_write : Bool) (state : Dict Json) (p : StatePersistence)
    → IsKept state p
    → IsKept state (run_due due (written can_write state) p)
unfolding run_due
run_due-IsKept true can_write state p k = save-IsKept can_write state p k
run_due-IsKept false can_write state p k = k

flush-IsKept :
    (dirty can_write : Bool) (state : Dict Json) (p : StatePersistence)
    → IsKept state p
    → IsKept state (flush_if dirty (written can_write state) p)
unfolding flush_if
flush-IsKept true can_write state p k = save-IsKept can_write state p k
flush-IsKept false can_write state p k = k

happen-IsKept :
    (e : Event) (w : World)
    → IsKept w.state w.persistence
    → IsKept (happen e w).state (happen e w).persistence
unfolding happen schedule_save flush
happen-IsKept (change d) w k = inl refl
happen-IsKept (change_outside can_write d) w k =
    save-IsKept can_write d (record w.persistence { dirty = true }) (inl refl)
happen-IsKept (pass can_write time) w k =
    run_due-IsKept (is_due w.persistence.save_timer (w.now + time)) can_write w.state w.persistence
      k
happen-IsKept (flushed can_write) w k =
    flush-IsKept w.persistence.dirty can_write w.state (record w.persistence { save_timer = none })
      k

pub happen_all-IsKept :
    (es : List Event) (w : World)
    → IsKept w.state w.persistence
    → IsKept (happen_all es w).state (happen_all es w).persistence
unfolding happen_all
happen_all-IsKept [] w k = k
happen_all-IsKept (e ∷ es) w k = happen_all-IsKept es (happen e w) (happen-IsKept e w k)

flush_kept :
    (dirty : Bool) (state : Dict Json) (p : StatePersistence)
    → IsKept state p
    → p.dirty ≡ dirty
    → (flush_if dirty (written true state) p).file ≡ holds state
unfolding flush_if do_save save_as written
flush_kept true state p k e = refl
flush_kept false state p (inl owed) e = cc
flush_kept false state p (inr kept) e = kept

-- Whatever has happened to a program whose file held its state or that owed a save, with writes
-- that fail and saves that are due, a flush that can write makes a restart load the state of the
-- program.
pub load-flush :
    (es : List Event) (w : World)
    → IsKept w.state w.persistence
    → load (happen (flushed true) (happen_all es w)).persistence.file ≡ (happen_all es w).state
unfolding happen flush load
load-flush es w k =
    let last = happen_all es w in
    ap load (
      flush_kept last.persistence.dirty last.state (record last.persistence { save_timer = none })
        (happen_all-IsKept es w k) refl)

-- Every change comes sooner than the delay of a save.
abbrev pub are_close : List (ℕ × Dict Json) → Bool
are_close [] = true
are_close ((time, _) ∷ changes) = ltb time 500 && are_close changes

abbrev pub last_state : Dict Json → List (ℕ × Dict Json) → Dict Json
last_state d [] = d
last_state d ((_, e) ∷ changes) = last_state e changes

-- While changes follow each other sooner than the delay of a save, nothing is written, however long
-- that goes on; the time that the save after the last one is due is the delay from there.
abbrev Waits : StateFile → ℕ → Dict Json → World → Type 0
Waits file writes d w =
    (w.state ≡ d)
    × (w.persistence.file ≡ file)
    × (w.persistence.writes ≡ writes)
    × (w.persistence.save_timer ≡ some (w.now + 500))

change-Waits :
    (d : Dict Json) (file : StateFile) (writes : ℕ) (w : World)
    → w.persistence.file ≡ file
    → w.persistence.writes ≡ writes
    → Waits file writes d (happen (change d) w)
unfolding happen schedule_save
change-Waits d file writes w f n = (refl, f, n, refl)

-- The time of a waiting save has not come yet.
pass_close :
    (time : ℕ) (w : World)
    → ltb time 500 ≡ true
    → w.persistence.save_timer ≡ some (w.now + 500)
    → (happen (pass true time) w).persistence ≡ w.persistence
unfolding happen run_due
pass_close time w close timer =
    let early : is_due w.persistence.save_timer (w.now + time) ≡ false =
      ap (λ t. is_due t (w.now + time)) timer ∙ ground (arith, close) in
    ap (λ due. run_due due (written true w.state) w.persistence) early

burst-Waits :
    (changes : List (ℕ × Dict Json)) (file : StateFile) (writes : ℕ) (d : Dict Json) (w : World)
    → are_close changes ≡ true
    → Waits file writes d w
    → Waits file writes (last_state d changes) (happen_all (burst changes) w)
unfolding burst happen_all
burst-Waits [] file writes d w close h = h
burst-Waits ((time, e) ∷ changes) file writes d w close (_, f, n, t) =
    let kept = pass_close time w (ground (arith, close)) t in
    burst-Waits changes file writes e (happen (change e) (happen (pass true time) w))
      (ground (arith, close))
      (change-Waits e file writes (happen (pass true time) w) (ap (λ p. p.file) kept ∙ f)
        (ap (λ p. p.writes) kept ∙ n))

-- The state is written, once more than before, and nothing is owed.
pub record IsSaved (state : Dict Json) (writes : ℕ) (p : StatePersistence) : Type 0 where
  pub in_file : p.file ≡ holds state
  pub once : p.writes ≡ writes + 1
  pub clean : p.dirty ≡ false
  pub stopped : p.save_timer ≡ none

due_written :
    (file : StateFile) (writes : ℕ) (d : Dict Json) (w : World)
    → Waits file writes d w
    → IsSaved d writes (happen (pass true 500) w).persistence
unfolding happen run_due do_save save_as written
due_written file writes d w (s, f, n, t) =
    let due : is_due w.persistence.save_timer (w.now + 500) ≡ true =
      ap (λ timer. is_due timer (w.now + 500)) t ∙ ground arith in
    rw due (record { in_file = ap holds s; once = ap (λ k. k + 1) n; clean = refl; stopped = refl })

-- A burst of changes, each sooner after the one before than the delay of a save, writes nothing
-- while it goes on, and once the delay has passed after the last change, its state has been
-- written by one single write.
pub burst_written_once :
    (d : Dict Json) (changes : List (ℕ × Dict Json)) (w : World)
    → are_close changes ≡ true
    → (let last = happen_all (burst changes) (happen (change d) w) in
        (last.persistence.file ≡ w.persistence.file)
        × IsSaved
            (last_state d changes)
            w.persistence.writes
            (happen (pass true 500) last).persistence)
burst_written_once d changes w close =
    let waits =
      burst-Waits changes w.persistence.file w.persistence.writes d (happen (change d) w) close
        (change-Waits d w.persistence.file w.persistence.writes w refl refl) in
    (
      waits.1,
      due_written w.persistence.file w.persistence.writes (last_state d changes)
          (happen_all (burst changes) (happen (change d) w)) waits,
    )
