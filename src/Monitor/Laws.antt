-- ===== src/Monitor/Laws.antt =====
-- state/monitor_state.py: what is saved after changes is what a restart loads.
use unified_icc.Base.{
  String, true, false, ◌≡◌, ◌∙◌, ap, refl, some, List, [], ◌∷◌, if◌then◌else◌, arith, Bool-cases,
  inl, inr, ◌⊎◌,
}
use unified_icc.Base.Dict.{Dict, get, has}
use unified_icc.Base.Json.{entries-of_entries, read_text, read_num}
use unified_icc.Monitor.{
  TrackedSession, session_to_dict, session_from_dict, StateFile, holds, MonitorState,
  sessions_to_dict, sessions_from_dict, load_from, load, state_data, save, update_session,
  remove_session, save_if_dirty,
}

session_round_trip : (x : TrackedSession) → session_from_dict (session_to_dict x) ≡ some x
unfolding session_from_dict session_to_dict get read_text read_num
session_round_trip x = refl

sessions_round_trip : (d : Dict TrackedSession) → sessions_from_dict (sessions_to_dict d) ≡ some d
unfolding sessions_from_dict sessions_to_dict
sessions_round_trip [] = refl
sessions_round_trip ((k, x) ∷ d) =
    rw (sessions_round_trip d, entries-of_entries (session_to_dict x), session_round_trip x) refl

load-state_data :
    (s t : MonitorState)
    → load_from (holds (state_data s)) t
      ≡ some (record t { tracked_sessions = s.tracked_sessions; events_offset = s.events_offset })
unfolding load_from state_data get read_num
load-state_data s t =
    rw
      (
        entries-of_entries (sessions_to_dict s.tracked_sessions),
        sessions_round_trip s.tracked_sessions,
      )
      refl

-- The state of a monitor that has just been made over the file.
abbrev pub fresh : StateFile → MonitorState
fresh file = record {
  state_file = file;
  can_write = true;
  tracked_sessions = [];
  events_offset = 0;
  dirty = false;
}

-- A restart would load the sessions and the offset that the state holds.
abbrev pub Restores : MonitorState → Type 0
Restores s =
    load (fresh s.state_file)
    ≡ some (record (fresh s.state_file) {
      tracked_sessions = s.tracked_sessions;
      events_offset = s.events_offset;
    })

-- There are changes to be saved, or a restart would lose nothing.
abbrev pub InStep : MonitorState → Type 0
InStep s = (s.dirty ≡ true) ⊎ Restores s

pub data Change : Type 0 where
  updated : TrackedSession → Change
  removed : String → Change

abbrev pub apply_change : Change → MonitorState → MonitorState
apply_change (updated x) s = update_session x s
apply_change (removed session_id) s = remove_session session_id s

abbrev pub apply_changes : List Change → MonitorState → MonitorState
apply_changes [] s = s
apply_changes (c ∷ cs) s = apply_changes cs (apply_change c s)

change-InStep : (c : Change) (s : MonitorState) → InStep s → InStep (apply_change c s)
unfolding update_session remove_session
change-InStep (updated x) s h = inl refl
change-InStep (removed session_id) s h = elim (Bool-cases (has session_id s.tracked_sessions)) [
  | inl there ↦ rw there (inl refl)
  | inr absent ↦ rw absent h
]

can_write-change : (c : Change) (s : MonitorState) → (apply_change c s).can_write ≡ s.can_write
unfolding update_session remove_session
can_write-change (updated x) s = refl
can_write-change (removed session_id) s = ground arith

save-Restores : (s : MonitorState) → s.can_write ≡ true → Restores (save s)
unfolding save load state_data
save-Restores s w = rw w (load-state_data s (fresh (holds (state_data s))))

saves_changes : (s : MonitorState) → s.dirty ≡ true → save_if_dirty s ≡ save s
unfolding save_if_dirty
saves_changes s h = ap (λ b. if b then save s else s) h

saves_nothing : (s : MonitorState) → s.dirty ≡ false → save_if_dirty s ≡ s
unfolding save_if_dirty
saves_nothing s h = ap (λ b. if b then save s else s) h

save_if_dirty-Restores :
    (s : MonitorState) → InStep s → s.can_write ≡ true → Restores (save_if_dirty s)
save_if_dirty-Restores s h w = elim (Bool-cases s.dirty) [
  | inl changed ↦ rw (saves_changes s changed) (save-Restores s w)
  | inr settled ↦
      rw (saves_nothing s settled) (elim h [
        | inl changed ↦ absurd (ground (arith, changed, settled))
        | inr restores ↦ restores
      ])
]

-- Where the state of the monitor was in step with its file and the file can be written, no
-- sequence of updates and removals that save_if_dirty follows is lost: a restart loads the
-- sessions and the offset of the state.
pub changes-Restores :
    (cs : List Change) (s : MonitorState)
    → InStep s
    → s.can_write ≡ true
    → Restores (save_if_dirty (apply_changes cs s))
changes-Restores [] s h w = save_if_dirty-Restores s h w
changes-Restores (c ∷ cs) s h w =
    changes-Restores cs (apply_change c s) (change-InStep c s h) (can_write-change c s ∙ w)
