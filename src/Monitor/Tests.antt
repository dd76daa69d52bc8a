-- ===== src/Monitor/Tests.antt =====
-- A monitor to run changes on, and the theorem at it.
use unified_icc.Base.{refl, [], ◌∷◌, inr}
use unified_icc.Monitor.{TrackedSession, missing, load, load_from, save_if_dirty}
use unified_icc.Monitor.Laws.{fresh, Restores, updated, removed, apply_changes, changes-Restores}

abbrev tracked : TrackedSession
tracked = record { session_id = "s1"; file_path = "/t/s1.jsonl"; last_byte_offset = 120 }

fresh-Restores : Restores (fresh missing)
unfolding load load_from
fresh-Restores = refl

changes-Restores_example :
    Restores (save_if_dirty (apply_changes (updated tracked ∷ removed "s2" ∷ []) (fresh missing)))
changes-Restores_example =
    changes-Restores (updated tracked ∷ removed "s2" ∷ []) (fresh missing) (inr fresh-Restores) refl
