-- ===== src/SessionMap/Sync/Laws.antt =====
-- state/session_map.py: the syncing of one window does what the entry says, and only once.
use unified_icc.Base.{
  String, Bool, true, false, not, ◌&&◌, ◌≡◌, refl, ◌≢◌, arith, if◌then◌else◌, ◌==◌, eq_iff,
  ==_of_ne, ==_refl, ap, ◌∙◌, truthy, Bool-cases, Option-cases, inl, inr,
}
use unified_icc.Base.Dict.{Dict, get, get-put}
use unified_icc.Base.Text.{lower}
use unified_icc.WindowStore.{WindowState, state_of, get_window_state}
use unified_icc.WindowStore.Access.{
  get-assign, state_of-assign, get_window_state_value, get_window_state_ne,
}
use unified_icc.Router.{Routing, get_display_name, set_display_name}
use unified_icc.SessionMap.{MapSync, store_of, field}
use unified_icc.SessionMap.Sync.{Synced, sync_fields, takes_name, sync_window}

-- The fields agree with the entry, as far as it gives them.
pub record Matches (d : Dict String) (mark_external : Bool) (w : WindowState) : Type 0 where
  pub session : w.session_id ≡ field "session_id" d
  pub directory : w.cwd ≡ field "cwd" d
  pub transcript :
      (truthy (field "transcript_path" d) && not (w.transcript_path == field "transcript_path" d))
      ≡ false
  pub provider :
      (truthy (lower (field "provider_name" d))
        && not (w.provider_name == lower (field "provider_name" d)))
      ≡ false
  pub marked : (mark_external && not w.external) ≡ false

guarded : (c : Bool) (x y : String) → (c ≡ true → x ≡ y) → (c && not (x == y)) ≡ false
guarded true x y h = ground (arith, h refl, eq_iff x y)
guarded false x y h = refl

sync_fields-Matches :
    (d : Dict String) (mark_external : Bool) (w : WindowState)
    → Matches d mark_external (sync_fields d mark_external w).state
unfolding sync_fields
sync_fields-Matches d mark_external w =
    let sid = eq_iff w.session_id (field "session_id" d) in
    let cwd = eq_iff w.cwd (field "cwd" d) in
    let transcript = eq_iff w.transcript_path (field "transcript_path" d) in
    let provider = eq_iff w.provider_name (lower (field "provider_name" d)) in
    record {
      session = ground (arith, sid, cwd);
      directory = ground (arith, sid, cwd);
      transcript =
          guarded (truthy (field "transcript_path" d))
            (sync_fields d mark_external w).state.transcript_path (field "transcript_path" d)
            λ given. ground (arith, given, sid, cwd, transcript);
      provider =
          guarded (truthy (lower (field "provider_name" d)))
            (sync_fields d mark_external w).state.provider_name (lower (field "provider_name" d))
            λ given. ground (arith, given, sid, cwd, transcript, provider);
      marked = ground arith;
    }

named-Matches :
    (d : Dict String) (mark_external : Bool) (w : WindowState) (name : String)
    → Matches d mark_external w
    → Matches d mark_external (record w { window_name = name })
named-Matches d mark_external w name m = record {
  session = m.session;
  directory = m.directory;
  transcript = m.transcript;
  provider = m.provider;
  marked = m.marked;
}

store-set_display_name :
    (w name : String) (r : Routing) → (set_display_name w name r).store ≡ r.store
unfolding set_display_name
store-set_display_name w name r = ground arith

get_display_name-set :
    (w name : String) (r : Routing) → get_display_name w (set_display_name w name r) ≡ name
unfolding get_display_name set_display_name
get_display_name-set w name r = elim (Option-cases (get w r.display_names)) [
  | inl e ↦ rw (e, get-put w w name r.display_names, ==_refl w) refl
  | inr (old, e) ↦ elim (Bool-cases (old == name)) [
    | inl same ↦ rw (e, same, e) ((eq_iff old name).0 same)
    | inr other ↦ rw (e, other, get-put w w name r.display_names, ==_refl w) refl
  ]
]

module _ (window_id : String) (d : Dict String) (mark_external : Bool) (s : MapSync) where
  -- The state that the fields are synced to.
  abbrev pub synced : Synced
  synced = sync_fields d mark_external (get_window_state window_id (store_of s)).0

  abbrev pub takes : Bool
  takes =
      takes_name d window_id
        (get_display_name window_id
          (record s.routing { store = (get_window_state window_id (store_of s)).1 }))
        synced.state

  pub state_after :
      truthy (field "session_id" d) ≡ true
      → state_of window_id (store_of (sync_window window_id d mark_external s).1) ≡ (
          if takes
          then record synced.state { window_name = field "window_name" d }
          else synced.state)
  unfolding sync_window
  state_after session = elim (Bool-cases takes) [
    | inl named ↦ rw (session, named, store-set_display_name) (state_of-assign window_id _ _)
    | inr unnamed ↦ rw (session, unnamed) (state_of-assign window_id _ _)
  ]

  pub sync_window-Matches :
      truthy (field "session_id" d) ≡ true
      → Matches d mark_external
          (state_of window_id (store_of (sync_window window_id d mark_external s).1))
  sync_window-Matches session =
      let m = sync_fields-Matches d mark_external (get_window_state window_id (store_of s)).0 in
      rw (state_after session) (elim (Bool-cases takes) [
        | inl named ↦
            rw named (named-Matches d mark_external synced.state (field "window_name" d) m)
        | inr unnamed ↦ rw unnamed m
      ])

  name-sync_fields :
      (w : WindowState) → (sync_fields d mark_external w).state.window_name ≡ w.window_name
  unfolding sync_fields
  name-sync_fields w = ground arith

  display_after :
      truthy (field "session_id" d) ≡ true
      → get_display_name window_id (sync_window window_id d mark_external s).1.routing
        ≡ (if takes then field "window_name" d else get_display_name window_id s.routing)
  unfolding sync_window get_display_name
  display_after session = elim (Bool-cases takes) [
    | inl named ↦ rw (session, named) (get_display_name-set window_id (field "window_name" d) _)
    | inr unnamed ↦ rw (session, unnamed) refl
  ]

  -- Whether the window takes the name of the entry: the entry has one, the window has none, and its
  -- display name is its id.
  abbrev pub is_unnamed : Bool
  is_unnamed =
      truthy (field "window_name" d)
      && ((get_display_name window_id s.routing == window_id)
          && not (truthy (state_of window_id (store_of s)).window_name))

  name_kept : synced.state.window_name ≡ (state_of window_id (store_of s)).window_name
  name_kept =
      name-sync_fields _
      ∙ ap (λ (w : WindowState). w.window_name) (get_window_state_value window_id (store_of s))

  takes_unnamed : takes ≡ is_unnamed
  unfolding takes_name get_display_name
  takes_unnamed =
      ap
        (λ name.
          truthy (field "window_name" d)
          && ((get_display_name window_id s.routing == window_id) && not (truthy name)))
        name_kept

  name_after :
      truthy (field "session_id" d) ≡ true
      → (state_of window_id (store_of (sync_window window_id d mark_external s).1)).window_name ≡ (
          if is_unnamed
          then field "window_name" d
          else (state_of window_id (store_of s)).window_name)
  name_after session =
      ap (λ (w : WindowState). w.window_name) (state_after session)
      ∙ name_if takes
      ∙ ap (λ b. if b then field "window_name" d else synced.state.window_name) takes_unnamed
      ∙ ap (λ name. if is_unnamed then field "window_name" d else name) name_kept
    where
      name_if :
          (b : Bool)
          → (if b
              then record synced.state { window_name = field "window_name" d }
              else synced.state).window_name
            ≡ (if b then field "window_name" d else synced.state.window_name)
      name_if true = refl
      name_if false = refl

  -- Syncing an entry with a session makes the session, the directory, and, where the entry gives
  -- them, the transcript, the provider and the mark of an external window agree with the entry.
  -- The window takes the name of the entry, as its name and its display name, exactly if the entry
  -- gives one, the window has no name and its display name is its id; both stay as they are
  -- otherwise.
  pub sync_window_lem :
      truthy (field "session_id" d) ≡ true
      → (let t = (sync_window window_id d mark_external s).1 in
          Matches d mark_external (state_of window_id (store_of t))
          × ((state_of window_id (store_of t)).window_name ≡ (
              if is_unnamed
              then field "window_name" d
              else (state_of window_id (store_of s)).window_name))
          × (get_display_name window_id t.routing ≡ (
              if is_unnamed then field "window_name" d else get_display_name window_id s.routing)))
  sync_window_lem session = (
    sync_window-Matches session,
    name_after session,
    display_after session
        ∙ ap (λ b. if b then field "window_name" d else get_display_name window_id s.routing)
            takes_unnamed,
  )

  -- Syncing a window leaves the states of all other windows as they were.
  pub sync_window_ne :
      (other : String)
      → window_id ≢ other
      → get other (store_of (sync_window window_id d mark_external s).1).window_states
        ≡ get other (store_of s).window_states
  unfolding sync_window
  sync_window_ne other ne = elim (Bool-cases (truthy (field "session_id" d))) [
    | inl session ↦ elim (Bool-cases takes) [
      | inl named ↦
          rw (session, named, store-set_display_name, get-assign, ==_of_ne window_id other ne)
            (get_window_state_ne window_id (store_of s) other ne)
      | inr unnamed ↦
          rw (session, unnamed, get-assign, ==_of_ne window_id other ne)
            (get_window_state_ne window_id (store_of s) other ne)
    ]
    | inr no_session ↦ rw no_session
  ]
