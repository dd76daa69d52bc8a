-- ===== src/Preferences.antt =====
-- utils/user_preferences.py: starred and recent directories, and read offsets. User ids are the
-- texts of their numbers. A user's favorites are a dict with the keys "starred" and "mru". `saves`
-- counts the calls of `_schedule_save`. `resolve` is `str(Path(path).resolve())`.
pub mod Serial
pub mod Laws
mod Tests
use unified_icc.Base.{
  ℕ, ◌+◌, String, Bool, true, false, not, ◌&&◌, ◌||◌, Option, none, some, List, [], ◌∷◌, ◌++◌,
  if◌then◌else◌, ◌==◌, or_default, contains, discard, select, take, is_empty,
}
use unified_icc.Base.Dict.{Dict, get, put, pop_all, keys}

pub record UserPreferences : Type 0 where
  pub user_dir_favorites : Dict (Dict (List String))
  pub user_window_offsets : Dict (Dict ℕ)
  pub saves : ℕ

unfoldable pub schedule_save : UserPreferences → UserPreferences
schedule_save s = record s { saves = s.saves + 1 }

unfoldable pub reset : UserPreferences → UserPreferences
reset s = record s { user_dir_favorites = []; user_window_offsets = [] }

-- `self.user_dir_favorites.get(user_id, {}).get(k, [])`
abbrev pub favorites_of : String → String → UserPreferences → List String
favorites_of user_id k s = or_default (get k (or_default (get user_id s.user_dir_favorites) [])) []

unfoldable pub get_user_starred : String → UserPreferences → List String
get_user_starred user_id s = favorites_of user_id "starred" s

unfoldable pub get_user_mru : String → UserPreferences → List String
get_user_mru user_id s = favorites_of user_id "mru" s

-- `favs[k] = paths`, where the user's favorites are made if they are missing.
unfoldable pub set_favorites : String → String → List String → UserPreferences → UserPreferences
set_favorites user_id k paths s =
    let favs = put k paths (or_default (get user_id s.user_dir_favorites) []) in
    record s { user_dir_favorites = put user_id favs s.user_dir_favorites }

-- `list.remove`, which takes the first occurrence.
unfoldable pub remove_first : String → List String → List String
remove_first x [] = []
remove_first x (y ∷ ys) = let rest = remove_first x ys in if y == x then ys else y ∷ rest

module _ (resolve : String → String) where
  unfoldable pub update_user_mru : String → String → UserPreferences → UserPreferences
  unfolding schedule_save
  update_user_mru user_id path s =
      let resolved = resolve path in
      let mru = resolved ∷ discard resolved (favorites_of user_id "mru" s) in
      schedule_save (set_favorites user_id "mru" (take 5 mru) s)

  unfoldable pub toggle_user_star : String → String → UserPreferences → Bool × UserPreferences
  unfolding schedule_save
  toggle_user_star user_id path s =
      let resolved = resolve path in
      let starred = favorites_of user_id "starred" s in
      if contains resolved starred
      then (
        false,
        schedule_save (set_favorites user_id "starred" (remove_first resolved starred) s),
      )
      else (true, schedule_save (set_favorites user_id "starred" (starred ++ resolved ∷ []) s))

unfoldable pub get_user_window_offset : String → String → UserPreferences → Option ℕ
get_user_window_offset user_id window_id s =
    get window_id (or_default (get user_id s.user_window_offsets) [])

unfoldable pub update_user_window_offset : String → String → ℕ → UserPreferences → UserPreferences
unfolding schedule_save
update_user_window_offset user_id window_id offset s = schedule_save (record s {
  user_window_offsets =
      put user_id (put window_id offset (or_default (get user_id s.user_window_offsets) []))
        s.user_window_offsets;
})

-- The offsets of a user without those of unknown windows.
unfoldable pub prune_offsets : List String → Dict ℕ → Dict ℕ
prune_offsets known offsets =
    pop_all (select (λ wid. not (contains wid known)) (keys offsets)) offsets

-- The two loops: a user that has no offset is deleted.
unfoldable pub prune_users : List String → Dict (Dict ℕ) → Bool × Dict (Dict ℕ)
unfolding prune_offsets
prune_users known [] = (false, [])
prune_users known ((uid, offsets) ∷ d) =
    let (changed, rest) = prune_users known d in
    let stale = select (λ wid. not (contains wid known)) (keys offsets) in
    let left = prune_offsets known offsets in
    if is_empty left then (true, rest) else (changed || not (is_empty stale), (uid, left) ∷ rest)

unfoldable pub prune_stale_offsets : List String → UserPreferences → Bool × UserPreferences
unfolding schedule_save
prune_stale_offsets known s =
    let (changed, offsets) = prune_users known s.user_window_offsets in
    if changed
    then (true, schedule_save (record s { user_window_offsets = offsets }))
    else (false, record s { user_window_offsets = offsets })
