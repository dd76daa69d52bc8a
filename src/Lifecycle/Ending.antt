-- ===== src/Lifecycle/Ending.antt =====
-- core/session_lifecycle.py: which sessions the two loops of `reconcile` end.
use unified_icc.Base.{
  String, Bool, true, false, not, ◌&&◌, ◌||◌, ◌≡◌, refl, Option, none, some, [], ◌∷◌, if◌then◌else◌,
  ◌==◌, ◌>>=◌, arith, eq_iff, is_empty, points_to, contains, contains-add, Bool-cases, Option-cases,
  inl, inr,
}
use unified_icc.Base.Dict.{Dict, get, has, get-nil, get-pop}
use unified_icc.Lifecycle.{
  clear_session, SessionMap, Reconciling, end_session, reconcile_window, reconcile_changed,
  reconcile_deleted,
}

-- Every window of the map has a session id.
abbrev pub HasSessions : SessionMap → Type 0
HasSessions [] = Unit {0}
HasSessions ((_, d) ∷ m) = (has "session_id" d ≡ true) × HasSessions m

-- The session of a window in the map.
abbrev pub session_at : String → SessionMap → Option String
session_at window_id m = get window_id m >>= get "session_id"

-- The window had the session, and has it no more.
abbrev pub loses : SessionMap → String → String → Dict String → Bool
loses current session_id window_id old =
    points_to (get "session_id" old) session_id
    && not (points_to (session_at window_id current) session_id)

-- Some window of the old map had the session, and has it no more.
abbrev pub ended : SessionMap → String → SessionMap → Bool
ended current session_id [] = false
ended current session_id ((window_id, old) ∷ m) =
    loses current session_id window_id old || ended current session_id m

-- The same, for windows that are there still and for those that are gone.
abbrev pub ended_where : Bool → SessionMap → String → SessionMap → Bool
ended_where there current session_id [] = false
ended_where there current session_id ((window_id, old) ∷ m) =
    ((if there then has window_id current else not (has window_id current))
      && loses current session_id window_id old)
    || ended_where there current session_id m

pub ended_split :
    (current : SessionMap) (session_id : String) (m : SessionMap)
    → (ended_where true current session_id m || ended_where false current session_id m)
      ≡ ended current session_id m
ended_split current session_id [] = refl
ended_split current session_id ((window_id, old) ∷ m) =
    ground (arith, ended_split current session_id m)

session-get :
    (window_id : String) (d : Dict String) (m : SessionMap)
    → HasSessions m
    → get window_id m ≡ some d
    → has "session_id" d ≡ true
unfolding get
session-get window_id d [] h e = cc
session-get window_id d ((j, c) ∷ m) h e = ground (arith, session-get window_id d m h.1, h.0, e)

-- What a loop that ends the sessions of a test has done to them.
pub record Ends (ends : String → Bool) (r r' : Reconciling) : Type 0 where
  pub listed :
      (session_id : String)
      → contains session_id r'.sessions ≡ (contains session_id r.sessions || ends session_id)
  pub idle :
      (session_id : String)
      → get session_id r'.idle.last_activity
        ≡ (if ends session_id then none else get session_id r.idle.last_activity)

Ends-none : (r : Reconciling) → Ends (λ x. false) r r
Ends-none r = record { listed = λ x. ground arith; idle = λ x. refl }

Ends-one :
    (window_id session_id : String) (r : Reconciling)
    → Ends (λ x. session_id == x) r (end_session window_id session_id r)
unfolding end_session clear_session
Ends-one window_id session_id r = record {
  listed = λ x. ground (arith, contains-add x session_id r.sessions);
  idle = λ x. get-pop x session_id r.idle.last_activity;
}

pub Ends-then :
    (f g h : String → Bool) (r r' r'' : Reconciling)
    → ((x : String) → (f x || g x) ≡ h x)
    → Ends f r r'
    → Ends g r' r''
    → Ends h r r''
Ends-then f g h r r' r'' e a b = record {
  listed = λ x. ground (arith, a.listed x, b.listed x, e x);
  idle = λ x. ground (arith, a.idle x, b.idle x, e x);
}

Ends-ext :
    (f g : String → Bool) (r r' : Reconciling)
    → ((x : String) → f x ≡ g x)
    → Ends f r r'
    → Ends g r r'
Ends-ext f g r r' e a = record {
  listed = λ x. ground (arith, a.listed x, e x);
  idle = λ x. ground (arith, a.idle x, e x);
}

nonempty-session : (d : Dict String) → has "session_id" d ≡ true → is_empty d ≡ false
nonempty-session [] h = cc (get-nil {V = String} "session_id")
nonempty-session (p ∷ d) h = refl

-- What a step of a loop comes to: it does not raise, and ends the sessions of the test.
abbrev pub Reaches : (String → Bool) → Reconciling → Option Reconciling → Type 0
Reaches ends r o = (r' : Reconciling) × (o ≡ some r') × Ends ends r r'

window-Reaches :
    (current : SessionMap) (window_id : String) (old : Dict String) (o : Option (Dict String))
    (r : Reconciling)
    → get window_id current ≡ o
    → ((new : Dict String) → o ≡ some new → has "session_id" new ≡ true)
    → has "session_id" old ≡ true
    → Reaches
        (λ x. has window_id current && loses current x window_id old)
        r
        (reconcile_window window_id old o r)
unfolding reconcile_window
window-Reaches current window_id old none r e h k =
    (r, refl, Ends-ext (λ x. false) _ r r (λ x. rw e) (Ends-none r))
window-Reaches current window_id old (some new) r e h k =
    elim (Option-cases (get "session_id" old)) [
      | inl missing ↦ absurd (ground (arith, missing, k))
      | inr (old_sid, old_given) ↦ elim (Option-cases (get "session_id" new)) [
        | inl missing ↦ absurd (ground (arith, missing, h new refl))
        | inr (new_sid, new_given) ↦ elim (Bool-cases (new_sid == old_sid)) [
          | inl same ↦ (
            r,
            rw (nonempty-session new (h new refl), new_given, old_given, same),
            Ends-ext (λ x. false) _ r r
                (λ x. rw (e, old_given, new_given) (ground (arith, eq_iff new_sid old_sid, same)))
                (Ends-none r),
          )
          | inr apart ↦ (
            end_session window_id old_sid r,
            rw (nonempty-session new (h new refl), new_given, old_given, apart),
            Ends-ext (λ x. old_sid == x) _ r _
                (λ x.
                  rw (e, old_given, new_given)
                    (ground
                      (arith, eq_iff old_sid x, eq_iff new_sid x, eq_iff new_sid old_sid, apart)))
                (Ends-one window_id old_sid r),
          )
        ]
      ]
    ]

pub changed-Reaches :
    (current m : SessionMap) (r : Reconciling)
    → HasSessions current
    → HasSessions m
    → Reaches (λ x. ended_where true current x m) r (reconcile_changed current m r)
unfolding reconcile_changed
changed-Reaches current [] r c h = (r, refl, Ends-none r)
changed-Reaches current ((window_id, old) ∷ m) r c h =
    let (r', step, first) =
      window-Reaches current window_id old (get window_id current) r refl
        (λ new e. session-get window_id new current c e) h.0 in
    let (r'', rest, later) = changed-Reaches current m r' c h.1 in
    (r'', rw step rest, Ends-then _ _ _ r r' r'' (λ x. refl) first later)

deleted-one :
    (current : SessionMap) (window_id : String) (old : Dict String) (r : Reconciling)
    → has "session_id" old ≡ true
    → Reaches
        (λ x. not (has window_id current) && loses current x window_id old)
        r
        (if has window_id current
          then some r
          else (get "session_id" old >>= λ old_sid. some (end_session window_id old_sid r)))
deleted-one current window_id old r k = elim (Option-cases (get "session_id" old)) [
  | inl missing ↦ absurd (ground (arith, missing, k))
  | inr (old_sid, old_given) ↦ elim (Option-cases (get window_id current)) [
    | inl gone ↦ (
      end_session window_id old_sid r,
      rw (gone, old_given),
      Ends-ext (λ x. old_sid == x) _ r _ (λ x. rw (gone, old_given) (ground arith))
          (Ends-one window_id old_sid r),
    )
    | inr (new, there) ↦ (r, rw there, Ends-ext (λ x. false) _ r r (λ x. rw there) (Ends-none r))
  ]
]

pub deleted-Reaches :
    (current m : SessionMap) (r : Reconciling)
    → HasSessions m
    → Reaches (λ x. ended_where false current x m) r (reconcile_deleted current m r)
unfolding reconcile_deleted
deleted-Reaches current [] r h = (r, refl, Ends-none r)
deleted-Reaches current ((window_id, old) ∷ m) r h =
    let (r', step, first) = deleted-one current window_id old r h.0 in
    let (r'', rest, later) = deleted-Reaches current m r' h.1 in
    (r'', rw step rest, Ends-then _ _ _ r r' r'' (λ x. refl) first later)
