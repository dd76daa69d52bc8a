-- ===== src/Resolver/Kept.antt =====
-- tmux/window_resolver.py: the ids that a recovery leaves, and the states that it keeps.
use unified_icc.Base.{
  String, Bool, true, ◌||◌, ◌≡◌, List, [], ◌∷◌, arith, eq_iff, truthy, or_default,
}
use unified_icc.Base.Dict.{Dict, get, put, get-nil, get-put, has}
use unified_icc.WindowStore.{WindowState}
use unified_icc.Resolver.{
  LiveWindow, Progress, Persisted, is_window_id, is_foreign_window, found, resolve_state,
  resolve_window_states, resolve_stale_ids, live_by_name, live_ids, or_else,
}

-- A tmux window id, or the id of a window of another session.
abbrev pub is_known_id : String → Bool
is_known_id key = is_foreign_window key || is_window_id key

-- Every live window has such an id.
abbrev pub AllKnown : List LiveWindow → Type 0
AllKnown [] = Unit {0}
AllKnown (w ∷ ws) = (is_known_id w.window_id ≡ true) × AllKnown ws

-- The ids that names lead to are known ones.
abbrev LeadsToKnown : Dict String → Type 0
LeadsToKnown by_name =
    (name : String) → truthy (found name by_name) ≡ true → is_known_id (found name by_name) ≡ true

LeadsToKnown-nil : LeadsToKnown []
unfolding found get
LeadsToKnown-nil name e = ground arith

live_by_name-LeadsToKnown :
    (ws : List LiveWindow) (d : Dict String)
    → AllKnown ws
    → LeadsToKnown d
    → LeadsToKnown (live_by_name ws d)
unfolding live_by_name found
live_by_name-LeadsToKnown [] d k h = h
live_by_name-LeadsToKnown (w ∷ ws) d k h =
    live_by_name-LeadsToKnown ws (put w.window_name w.window_id d) k.1
      λ name. ground (arith, get-put name w.window_name w.window_id d, h name, k.0)

-- Every key of the states that are kept is a known id.
abbrev KnownKeys : Dict WindowState → Type 0
KnownKeys d = (key : String) → has key d ≡ true → is_known_id key ≡ true

state-KnownKeys :
    (by_name : Dict String) (ids : List String) (key : String) (ws : WindowState)
    (p : Progress WindowState)
    → LeadsToKnown by_name
    → KnownKeys p.kept
    → KnownKeys (resolve_state by_name ids key ws p).kept
unfolding resolve_state
state-KnownKeys by_name ids key ws p leads known k h =
    let display = or_default (get key p.names) (or_else ws.window_name key) in
    let by_display = found display by_name in
    let by_key = found key by_name in
    ground (
      arith,
      get-put k key ws p.kept,
      get-put k by_display (record ws { window_name = display }) p.kept,
      get-put k by_key (record ws { window_name = key }) p.kept,
      eq_iff key k,
      eq_iff by_display k,
      eq_iff by_key k,
      leads display,
      leads key,
      known k,
    )

states-KnownKeys :
    (by_name : Dict String) (ids : List String) (d : Dict WindowState) (p : Progress WindowState)
    → LeadsToKnown by_name
    → KnownKeys p.kept
    → KnownKeys (resolve_window_states by_name ids d p).kept
unfolding resolve_window_states
states-KnownKeys by_name ids [] p leads known = known
states-KnownKeys by_name ids ((key, ws) ∷ d) p leads known =
    states-KnownKeys by_name ids d (resolve_state by_name ids key ws p) leads
      (state-KnownKeys by_name ids key ws p leads known)

-- After a recovery against live windows with known ids, every window state stands under a tmux
-- window id or a foreign id.
pub resolve_stale_ids_known :
    (live : List LiveWindow) (s : Persisted) (key : String)
    → AllKnown live
    → has key (resolve_stale_ids live s).1.window_states ≡ true
    → is_known_id key ≡ true
unfolding resolve_stale_ids
resolve_stale_ids_known live s key k h =
    states-KnownKeys (live_by_name live []) (live_ids live) s.window_states _
      (live_by_name-LeadsToKnown live [] k LeadsToKnown-nil)
      (λ j e. ground (arith, e, get-nil {V = WindowState} j)) key h
