-- ===== src/Preferences/Serial.antt =====
-- utils/user_preferences.py: `to_dict` and `from_dict`.
pub mod RoundTrip
use unified_icc.Base.{ℕ, String, Option, none, some, List, [], ◌∷◌, ◌>>=◌}
use unified_icc.Base.Dict.{Dict, put}
use unified_icc.Base.Json.{Json, num, arr, obj, entries, object, of_texts, texts, read_object}
use unified_icc.Preferences.{UserPreferences}

unfoldable pub offsets_to_dict : Dict ℕ → Dict Json
offsets_to_dict [] = []
offsets_to_dict ((wid, n) ∷ d) = (wid, num n) ∷ offsets_to_dict d

unfoldable pub favorites_to_dict : Dict (List String) → Dict Json
favorites_to_dict [] = []
favorites_to_dict ((k, paths) ∷ d) = (k, arr (of_texts paths)) ∷ favorites_to_dict d

-- One entry for each user.
unfoldable pub users_to_dict {ℓ} : {V : Type ℓ} → (V → Dict Json) → Dict V → Dict Json
users_to_dict f [] = []
users_to_dict f ((uid, v) ∷ d) = (uid, object (f v)) ∷ users_to_dict f d

unfoldable pub to_dict : UserPreferences → Dict Json
to_dict s =
    ("user_window_offsets", object (users_to_dict offsets_to_dict s.user_window_offsets))
    ∷ ("user_dir_favorites", object (users_to_dict favorites_to_dict s.user_dir_favorites))
    ∷ []

-- `none`, here and below, for a value of a type that the program does not expect.
unfoldable pub offsets_from_dict : Dict Json → Option (Dict ℕ)
offsets_from_dict [] = some []
offsets_from_dict ((wid, num n) ∷ d) = offsets_from_dict d >>= λ rest. some ((wid, n) ∷ rest)
offsets_from_dict (_ ∷ d) = none

unfoldable pub favorites_from_dict : Dict Json → Option (Dict (List String))
favorites_from_dict [] = some []
favorites_from_dict ((k, arr xs) ∷ d) = do
  rest ← favorites_from_dict d
  paths ← texts xs
  some ((k, paths) ∷ rest)
favorites_from_dict (_ ∷ d) = none

-- `int(uid)` as the canonical decimal text of the number, `none` for a ValueError.
module _ (int : String → Option String) where
  -- The comprehension: a later user of the same number takes the place of the earlier.
  unfoldable pub users_from_dict {ℓ} :
      {V : Type ℓ} → (Dict Json → Option V) → Dict Json → Dict V → Option (Dict V)
  users_from_dict f [] users = some users
  users_from_dict f ((uid_str, obj fs) ∷ d) users = do
    uid ← int uid_str
    v ← f (entries fs)
    users_from_dict f d (put uid v users)
  users_from_dict f (_ ∷ d) users = none

  unfoldable pub from_dict : Dict Json → UserPreferences → Option UserPreferences
  from_dict d s = do
    raw_offsets ← read_object "user_window_offsets" d
    offsets ← users_from_dict offsets_from_dict raw_offsets []
    raw_favorites ← read_object "user_dir_favorites" d
    favorites ← users_from_dict favorites_from_dict raw_favorites []
    some (record s { user_window_offsets = offsets; user_dir_favorites = favorites })
