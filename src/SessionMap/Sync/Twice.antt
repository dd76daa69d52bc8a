-- ===== src/SessionMap/Sync/Twice.antt =====
-- state/session_map.py: syncing the same entry twice changes nothing more.
use unified_icc.Base.{String, Bool, true, false, ◌≡◌, arith, eq_iff, truthy, Bool-cases, inl, inr}
use unified_icc.Base.Dict.{Dict}
use unified_icc.Base.Text.{lower}
use unified_icc.WindowStore.{WindowState, state_of, get_window_state}
use unified_icc.WindowStore.Access.{get_window_state_value}
use unified_icc.Router.{get_display_name}
use unified_icc.SessionMap.{MapSync, store_of, field}
use unified_icc.SessionMap.Sync.{sync_fields, takes_name, sync_window}
use unified_icc.SessionMap.Sync.Laws.{Matches, takes, state_after, sync_window-Matches}

sync_fields_matched :
    (d : Dict String) (mark_external : Bool) (w : WindowState)
    → Matches d mark_external w
    → sync_fields d mark_external w ≡ record { state = w; changed = false }
unfolding sync_fields
sync_fields_matched d mark_external w m = ground (
  arith,
  eq_iff w.session_id (field "session_id" d),
  eq_iff w.cwd (field "cwd" d),
  eq_iff w.transcript_path (field "transcript_path" d),
  eq_iff w.provider_name (lower (field "provider_name" d)),
  m.session,
  m.directory,
  m.transcript,
  m.provider,
  m.marked,
)

sync_settled :
    (window_id : String) (d : Dict String) (mark_external : Bool) (s : MapSync)
    → Matches d mark_external (state_of window_id (store_of s))
    → takes_name d window_id
        (get_display_name window_id s.routing)
        (state_of window_id (store_of s))
      ≡ false
    → (sync_window window_id d mark_external s).0 ≡ false
unfolding sync_window get_display_name
sync_settled window_id d mark_external s m untaken =
    let state = state_of window_id (store_of s) in
    elim (Bool-cases (truthy (field "session_id" d))) [
      | inl session ↦
          rw (session, get_window_state_value, sync_fields_matched d mark_external state m, untaken)
      | inr no_session ↦ rw no_session
    ]

display_unnamed :
    (window_id : String) (d : Dict String) (mark_external : Bool) (s : MapSync)
    → truthy (field "session_id" d) ≡ true
    → takes window_id d mark_external s ≡ false
    → get_display_name window_id (sync_window window_id d mark_external s).1.routing
      ≡ get_display_name window_id
          (record s.routing { store = (get_window_state window_id (store_of s)).1 })
unfolding sync_window get_display_name
display_unnamed window_id d mark_external s session unnamed = rw (session, unnamed)

takes_name_named :
    (d : Dict String) (window_id display display' : String) (w : WindowState)
    → takes_name d window_id display w ≡ true
    → takes_name d window_id display' (record w { window_name = field "window_name" d }) ≡ false
unfolding takes_name
takes_name_named d window_id display display' w h = ground arith

-- Syncing the same entry a second time reports no change.
pub sync_window_twice :
    (window_id : String) (d : Dict String) (mark_external : Bool) (s : MapSync)
    → (sync_window window_id d mark_external (sync_window window_id d mark_external s).1).0 ≡ false
sync_window_twice window_id d mark_external s = elim (Bool-cases (truthy (field "session_id" d))) [
  | inl session ↦
      sync_settled window_id d mark_external (sync_window window_id d mark_external s).1
        (sync_window-Matches window_id d mark_external s session)
        (rw (state_after window_id d mark_external s session)
          (elim (Bool-cases (takes window_id d mark_external s)) [
            | inl named ↦ rw named (takes_name_named d window_id _ _ _ named)
            | inr unnamed ↦
                rw (unnamed, display_unnamed window_id d mark_external s session unnamed) unnamed
          ]))
  | inr no_session ↦ unfold sync_window in rw no_session
]
