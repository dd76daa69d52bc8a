-- ===== src/Preferences/Serial/RoundTrip.antt =====
-- utils/user_preferences.py: what `from_dict` reads back.
use unified_icc.Base.{ℕ, String, ◌≡◌, refl, Option, some, List, [], ◌∷◌}
use unified_icc.Base.Dict.{Dict, get, put, put_all, put_all-nil, HasUniqueKeys}
use unified_icc.Base.Json.{Json, object, read_object, texts-of_texts, entries-of_entries}
use unified_icc.Preferences.{UserPreferences}
use unified_icc.Preferences.Serial.{
  offsets_to_dict, favorites_to_dict, users_to_dict, to_dict, offsets_from_dict,
  favorites_from_dict, users_from_dict, from_dict,
}

-- `int` gives every user id back as it is, as it does for the decimal text of a number.
abbrev pub AreNumbers {ℓ} : {V : Type ℓ} → (String → Option String) → Dict V → Type 0
AreNumbers int [] = Unit {0}
AreNumbers int ((uid, _) ∷ d) = (int uid ≡ some uid) × AreNumbers int d

users_round_trip {ℓ} :
    {V : Type ℓ} (int : String → Option String) (to : V → Dict Json) (from : Dict Json → Option V)
    → ((v : V) → from (to v) ≡ some v)
    → (d acc : Dict V) → AreNumbers int d
    → users_from_dict int from (users_to_dict to d) acc ≡ some (put_all d acc)
unfolding users_from_dict users_to_dict put_all
users_round_trip int to from back [] acc numbers = refl
users_round_trip int to from back ((uid, v) ∷ d) acc numbers =
    rw (numbers.0, entries-of_entries (to v), back v)
      (users_round_trip int to from back d (put uid v acc) numbers.1)

offsets_round_trip : (d : Dict ℕ) → offsets_from_dict (offsets_to_dict d) ≡ some d
unfolding offsets_from_dict offsets_to_dict
offsets_round_trip [] = refl
offsets_round_trip ((w, n) ∷ d) = rw (offsets_round_trip d)

favorites_round_trip : (d : Dict (List String)) → favorites_from_dict (favorites_to_dict d) ≡ some d
unfolding favorites_from_dict favorites_to_dict
favorites_round_trip [] = refl
favorites_round_trip ((k, paths) ∷ d) = rw (favorites_round_trip d, texts-of_texts paths)

-- A dict that has the two entries of the preferences is read as them, whatever else it has, where
-- the user ids are texts of numbers and no user stands twice.
pub read_preferences :
    (int : String → Option String) (s s₀ : UserPreferences) (d : Dict Json)
    → get "user_window_offsets" d
      ≡ some (object (users_to_dict offsets_to_dict s.user_window_offsets))
    → get "user_dir_favorites" d
      ≡ some (object (users_to_dict favorites_to_dict s.user_dir_favorites))
    → AreNumbers int s.user_window_offsets
    → AreNumbers int s.user_dir_favorites
    → HasUniqueKeys s.user_window_offsets
    → HasUniqueKeys s.user_dir_favorites
    → from_dict int d s₀ ≡ some (record s { saves = s₀.saves })
unfolding from_dict read_object
read_preferences int s s₀ d offsets favorites offset_ids favorite_ids offset_keys favorite_keys =
    simp (
      offsets,
      favorites,
      entries-of_entries,
      users_round_trip int offsets_to_dict offsets_from_dict offsets_round_trip
          s.user_window_offsets [] offset_ids,
      users_round_trip int favorites_to_dict favorites_from_dict favorites_round_trip
          s.user_dir_favorites [] favorite_ids,
      put_all-nil s.user_window_offsets offset_keys,
      put_all-nil s.user_dir_favorites favorite_keys,
    )

-- The preferences that are written are read back, where the user ids are texts of numbers and no
-- user stands twice in a dict.
pub preferences_round_trip :
    (int : String → Option String) (s s₀ : UserPreferences)
    → AreNumbers int s.user_window_offsets
    → AreNumbers int s.user_dir_favorites
    → HasUniqueKeys s.user_window_offsets
    → HasUniqueKeys s.user_dir_favorites
    → from_dict int (to_dict s) s₀ ≡ some (record s { saves = s₀.saves })
unfolding to_dict get
preferences_round_trip int s s₀ = read_preferences int s s₀ (to_dict s) refl refl
