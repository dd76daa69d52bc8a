-- ===== src/Preferences/Tests.antt =====
-- Preferences of a user, and the theorems at them.
use unified_icc.Base.{
  ◌≤◌, String, true, false, ◌≡◌, refl, Option, some, List, [], ◌∷◌, contains, discard, take, select,
  IsUnique, length,
}
use unified_icc.Base.Dict.{get, put, pop_all, keys, HasUniqueKeys}
use unified_icc.Preferences.{
  UserPreferences, get_user_starred, get_user_mru, update_user_mru, prune_users,
  prune_stale_offsets, set_favorites, schedule_save,
}
use unified_icc.Preferences.Laws.{update_user_mru_bounds}

abbrev resolved : String → String
resolved path = path

abbrev number : String → Option String
number s = some s

abbrev recent : List String
recent = "/a" ∷ "/b" ∷ "/c" ∷ "/d" ∷ "/e" ∷ []

abbrev preferences : UserPreferences
preferences = record {
  user_dir_favorites = ("7", ("mru", recent) ∷ ("starred", "/a" ∷ "/b" ∷ []) ∷ []) ∷ [];
  user_window_offsets = ("7", ("@1", 10) ∷ ("@2", 20) ∷ []) ∷ ("8", ("@3", 5) ∷ []) ∷ [];
  saves = 0;
}

recent_now :
    get_user_mru "7" (update_user_mru resolved "7" "/c" preferences)
    ≡ "/c" ∷ "/a" ∷ "/b" ∷ "/d" ∷ "/e" ∷ []
unfolding get_user_mru update_user_mru set_favorites schedule_save get put take discard
recent_now = refl

mru-IsUnique : IsUnique (get_user_mru "7" preferences)
unfolding get_user_mru get contains
mru-IsUnique = (refl, (refl, (refl, (refl, (refl, tt)))))

update_user_mru_bounds_example :
    (length (get_user_mru "7" (update_user_mru resolved "7" "/x" preferences)) ≤ 5)
    × IsUnique (get_user_mru "7" (update_user_mru resolved "7" "/x" preferences))
    × (contains "/x" (get_user_mru "7" (update_user_mru resolved "7" "/x" preferences)) ≡ true)
update_user_mru_bounds_example = update_user_mru_bounds resolved "7" "/x" preferences mru-IsUnique

starred-IsUnique : IsUnique (get_user_starred "7" preferences)
unfolding get_user_starred get contains
starred-IsUnique = (refl, (refl, tt))

offsets-HasUniqueKeys : HasUniqueKeys preferences.user_window_offsets
unfolding get
offsets-HasUniqueKeys = (refl, (refl, tt))

nothing_stale : (prune_stale_offsets ("@1" ∷ "@2" ∷ "@3" ∷ []) preferences).0 ≡ false
unfolding prune_stale_offsets prune_users pop_all select keys contains
nothing_stale = refl
