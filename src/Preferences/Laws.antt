-- ===== src/Preferences/Laws.antt =====
-- utils/user_preferences.py: what its operations do to the favorites and the offsets of a user.
use unified_icc.Base.{
  ℕ, ◌≤◌, String, true, false, not, ◌&&◌, ◌≡◌, refl, none, List, [], ◌∷◌, ◌++◌, if◌then◌else◌, ◌==◌,
  arith, or_default, is_empty, empty_nil, contains, contains-cons, contains-nil, contains-append,
  contains_taken, contains-discard, contains-select, discard, discard-IsUnique, IsUnique, take,
  take-IsUnique, length, length-take, select, Bool-cases, inl, inr, ==_refl, eq_iff,
}
use unified_icc.Base.Dict.{
  Dict, get, get-put, get-nil, pop_all, get-pop_all, keys, contains-keys, HasUniqueKeys,
}
use unified_icc.Preferences.{
  UserPreferences, schedule_save, favorites_of, set_favorites, get_user_starred, get_user_mru,
  update_user_mru, toggle_user_star, remove_first, get_user_window_offset, prune_offsets,
  prune_users, prune_stale_offsets,
}

favorites_of-set_favorites :
    (u k : String) (paths : List String) (s : UserPreferences)
    → favorites_of u k (set_favorites u k paths s) ≡ paths
unfolding set_favorites
favorites_of-set_favorites u k paths s = simp (get-put, ==_refl)

update_mru_lem :
    (resolve : String → String) (u path : String) (s : UserPreferences)
    → get_user_mru u (update_user_mru resolve u path s)
      ≡ take 5 (resolve path ∷ discard (resolve path) (get_user_mru u s))
unfolding update_user_mru get_user_mru schedule_save
update_mru_lem resolve u path s = favorites_of-set_favorites u "mru" _ s

-- After a directory is used, it is in the user's list, which has at most five entries and no
-- repetitions, if it had none before.
pub update_user_mru_bounds :
    (resolve : String → String) (u path : String) (s : UserPreferences)
    → IsUnique (get_user_mru u s)
    → (length (get_user_mru u (update_user_mru resolve u path s)) ≤ 5)
      × IsUnique (get_user_mru u (update_user_mru resolve u path s))
      × (contains (resolve path) (get_user_mru u (update_user_mru resolve u path s)) ≡ true)
update_user_mru_bounds resolve u path s unique =
    let recent = get_user_mru u s in
    let p = resolve path in
    rw (update_mru_lem resolve u path s) (
      length-take 5 (p ∷ discard p recent),
      take-IsUnique 5 (p ∷ discard p recent) (
        ground (arith, contains-discard p p recent, ==_refl p),
        discard-IsUnique p recent unique,
      ),
      contains_taken p 4 (discard p recent),
    )

contains-remove_first :
    (a x : String) (xs : List String)
    → IsUnique xs
    → contains a (remove_first x xs) ≡ (not (x == a) && contains a xs)
unfolding contains remove_first
contains-remove_first a x [] u = ground arith
contains-remove_first a x (y ∷ xs) u =
    ground (arith, contains-remove_first a x xs u.1, eq_iff y x, eq_iff y a, eq_iff x a)

starred_unfolds :
    (u : String) (s : UserPreferences) → favorites_of u "starred" s ≡ get_user_starred u s
unfolding get_user_starred
starred_unfolds u s = refl

starred-set_favorites :
    (u : String) (paths : List String) (s : UserPreferences)
    → get_user_starred u (schedule_save (set_favorites u "starred" paths s)) ≡ paths
unfolding get_user_starred schedule_save
starred-set_favorites u paths s = favorites_of-set_favorites u "starred" paths s

-- A toggle answers whether the directory is starred afterwards, which is the contrary of what was
-- the case before, and leaves every other directory as it was, where the user's list holds nothing
-- twice.
pub toggle_user_star_lem :
    (resolve : String → String) (u path x : String) (s : UserPreferences)
    → IsUnique (get_user_starred u s)
    → (let (answer, s') = toggle_user_star resolve u path s in
        (answer ≡ not (contains (resolve path) (get_user_starred u s)))
        × (contains x (get_user_starred u s')
            ≡ (if resolve path == x then answer else contains x (get_user_starred u s))))
unfolding toggle_user_star
toggle_user_star_lem resolve u path x s unique =
    let p = resolve path in
    let starred = get_user_starred u s in
    elim (Bool-cases (contains p starred)) [
      | inl e ↦
          rw (starred_unfolds u s, e, starred-set_favorites u (remove_first p starred) s)
            (refl, ground (arith, contains-remove_first x p starred unique))
      | inr e ↦
          rw (starred_unfolds u s, e, starred-set_favorites u (starred ++ p ∷ []) s)
            (
              refl,
              ground
                  (arith, contains-append x starred (p ∷ []), contains-cons x p [], contains-nil x),
            )
    ]

get-prune_offsets :
    (known : List String) (w : String) (offsets : Dict ℕ)
    → get w (prune_offsets known offsets) ≡ (if contains w known then get w offsets else none)
unfolding prune_offsets
get-prune_offsets known w offsets = ground (
  arith,
  get-pop_all w (select (λ wid. not (contains wid known)) (keys offsets)) offsets,
  contains-select (λ wid. not (contains wid known)) w (keys offsets),
  contains-keys w offsets,
)

get-empty : (w : String) (offsets : Dict ℕ) → is_empty offsets ≡ true → get w offsets ≡ none
get-empty w [] h = get-nil w
get-empty w (_ ∷ _) h = cc

absent-prune_users :
    (known : List String) (u : String) (d : Dict (Dict ℕ))
    → get u d ≡ none
    → get u (prune_users known d).1 ≡ none
unfolding prune_users get
absent-prune_users known u [] h = refl
absent-prune_users known u ((uid, offsets) ∷ d) h =
    elim (Bool-cases (is_empty (prune_offsets known offsets))) [
      | inl e ↦ rw e (ground (arith, absent-prune_users known u d))
      | inr e ↦ rw e (ground (arith, absent-prune_users known u d))
    ]

get-prune_users :
    (known : List String) (u w : String) (d : Dict (Dict ℕ))
    → HasUniqueKeys d
    → get w (or_default (get u (prune_users known d).1) [])
      ≡ (if contains w known then get w (or_default (get u d) []) else none)
unfolding prune_users get
get-prune_users known u w [] unique = ground arith
get-prune_users known u w ((uid, offsets) ∷ d) unique = elim (Bool-cases (uid == u)) [
  | inl same ↦ elim (Bool-cases (is_empty (prune_offsets known offsets))) [
    | inl e ↦
        rw (e, same)
          (ground (
            arith,
            absent-prune_users known u d,
            eq_iff uid u,
            unique.0,
            get-nil {V = ℕ} w,
            get-empty w (prune_offsets known offsets) e,
            get-prune_offsets known w offsets,
          ))
    | inr e ↦ rw (e, same) (get-prune_offsets known w offsets)
  ]
  | inr other ↦ elim (Bool-cases (is_empty (prune_offsets known offsets))) [
    | inl e ↦ rw (e, other) (get-prune_users known u w d unique.1)
    | inr e ↦ rw (e, other) (get-prune_users known u w d unique.1)
  ]
]

-- Pruning keeps the offsets of the known windows, each as it is, and no others, where no user
-- stands twice.
pub prune_stale_offsets_lem :
    (known : List String) (u w : String) (s : UserPreferences)
    → HasUniqueKeys s.user_window_offsets
    → get_user_window_offset u w (prune_stale_offsets known s).1
      ≡ (if contains w known then get_user_window_offset u w s else none)
unfolding prune_stale_offsets get_user_window_offset schedule_save
prune_stale_offsets_lem known u w s unique =
    elim (Bool-cases (prune_users known s.user_window_offsets).0) [
      | inl e ↦ rw e (get-prune_users known u w s.user_window_offsets unique)
      | inr e ↦ rw e (get-prune_users known u w s.user_window_offsets unique)
    ]

prune_offsets_none :
    (known : List String) (offsets : Dict ℕ)
    → is_empty (select (λ wid. not (contains wid known)) (keys offsets)) ≡ true
    → prune_offsets known offsets ≡ offsets
unfolding prune_offsets pop_all
prune_offsets_none known offsets h =
    rw (empty_nil (select (λ wid. not (contains wid known)) (keys offsets)) h) refl

prune_users_unchanged :
    (known : List String) (d : Dict (Dict ℕ))
    → (prune_users known d).0 ≡ false
    → (prune_users known d).1 ≡ d
unfolding prune_users
prune_users_unchanged known [] h = refl
prune_users_unchanged known ((uid, offsets) ∷ d) h =
    elim (Bool-cases (is_empty (prune_offsets known offsets))) [
      | inl e ↦ ground (arith, e, h)
      | inr e ↦
          ground (arith, e, h, prune_users_unchanged known d, prune_offsets_none known offsets)
    ]

-- Pruning that reports no change leaves the preferences as they were, and schedules no save.
pub prune_stale_offsets_unchanged :
    (known : List String) (s : UserPreferences)
    → (prune_stale_offsets known s).0 ≡ false
    → (prune_stale_offsets known s).1 ≡ s
unfolding prune_stale_offsets
prune_stale_offsets_unchanged known s h =
    elim (Bool-cases (prune_users known s.user_window_offsets).0) [
      | inl e ↦ ground (arith, e, h)
      | inr e ↦ rw (e, prune_users_unchanged known s.user_window_offsets e) refl
    ]
