-- ===== src/Router/Serial.antt =====
-- core/channel_router.py: `to_dict` and `from_dict`, with the migration of the older format.
pub mod Loading
use unified_icc.Base.{
  ℕ, ◌+◌, String, ◌<>◌, Bool, true, false, not, ◌&&◌, ◌||◌, ◌≡◌, refl, ap, Option, none, some, List,
  [], ◌∷◌, arith, if◌then◌else◌, ◌==◌, ◌>>=◌, >>=-eq-some, Ensures, Ensures-bind, Ensures-elim,
  Bool-cases, or_default, Option-cases, inl, inr,
}
use mathlib.Core.Path.{subst}
use mathlib.Core.Option.{some-injective}
use unified_icc.Base.Dict.{
  Dict, get, put, pop, get-nil, get-cons, has, HasUniqueKeys, put-HasUniqueKeys,
}
use unified_icc.Base.Json.{read_object, Json, str, obj, entries, object, entries-of_entries}
use unified_icc.Router.{ChannelRouter, rebuild}
use unified_icc.Router.Index.{Agrees, rebuild-Agrees}

unfoldable pub texts_to_dict : Dict String → Dict Json
texts_to_dict [] = []
texts_to_dict ((k, v) ∷ d) = (k, str v) ∷ texts_to_dict d

unfoldable pub metas_to_dict : Dict (Dict String) → Dict Json
metas_to_dict [] = []
metas_to_dict ((k, v) ∷ d) = (k, object (texts_to_dict v)) ∷ metas_to_dict d

unfoldable pub to_dict : ChannelRouter → Dict Json
unfolding texts_to_dict metas_to_dict
to_dict r =
    ("channel_bindings", object (texts_to_dict r.bindings))
    ∷ ("channel_meta", object (metas_to_dict r.channel_meta))
    ∷ ("display_names", object (texts_to_dict r.display_names))
    ∷ []

-- `none`, here and below, for a value of a type that the program does not expect.
unfoldable pub texts_from : Dict Json → Option (Dict String)
texts_from [] = some []
texts_from ((k, str v) ∷ d) = texts_from d >>= λ rest. some ((k, v) ∷ rest)
texts_from (_ ∷ d) = none

unfoldable pub metas_from : Dict Json → Option (Dict (Dict String))
metas_from [] = some []
metas_from ((k, obj fs) ∷ d) = do
  rest ← metas_from d
  meta ← texts_from (entries fs)
  some ((k, meta) ∷ rest)
metas_from (_ ∷ d) = none

unfoldable pub with_bindings :
    Dict String → Dict (Dict String) → Dict String → ChannelRouter → ChannelRouter
with_bindings bindings meta names r = record r {
  bindings = bindings;
  channel_meta = meta;
  display_names = names;
  reverse = rebuild bindings [];
}

-- `int(s)` as the canonical decimal text of the number, `none` for a ValueError.
module _ (int : String → Option String) where
  -- The entries of one user: channel ids to windows.
  migrate_threads :
      String
      → Dict Json
      → Dict String × Dict (Dict String)
      → Option (Dict String × Dict (Dict String))
  migrate_threads uid [] acc = some acc
  migrate_threads uid ((tid_str, wid) ∷ d) (bindings, meta) = elim (int tid_str) [
    | none ↦ migrate_threads uid d (bindings, meta)
    | some tid ↦ elim wid [
      | str w ↦
          let channel_id = "telegram:" <> (uid <> (":" <> tid)) in
          migrate_threads uid d
            (put channel_id w bindings, put channel_id (("user_id", uid) ∷ []) meta)
      | _ ↦ none
    ]
  ]

  migrate_users :
      Dict Json → Dict String × Dict (Dict String) → Option (Dict String × Dict (Dict String))
  migrate_users [] acc = some acc
  migrate_users ((uid_str, threads) ∷ d) acc = elim (int uid_str) [
    | none ↦ migrate_users d acc
    | some uid ↦ elim threads [
      | obj fs ↦ migrate_threads uid (entries fs) acc >>= migrate_users d
      | _ ↦ migrate_users d acc
    ]
  ]

  unfoldable pub from_dict : Dict Json → ChannelRouter → Option ChannelRouter
  unfolding migrate_threads migrate_users texts_from metas_from read_object with_bindings
  from_dict d r =
      if has "channel_bindings" d
      then (do
        raw ← read_object "channel_bindings" d
        bindings ← texts_from raw
        raw_meta ← read_object "channel_meta" d
        meta ← metas_from raw_meta
        raw_names ← read_object "display_names" d
        names ← texts_from raw_names
        some (with_bindings bindings meta names r))
      else if has "thread_bindings" d
      then (do
        raw_names ← read_object "window_display_names" d
        names ← texts_from raw_names
        raw ← read_object "thread_bindings" d
        migrated ← migrate_users raw ([], [])
        some (with_bindings migrated.0 migrated.1 names r))
      else some (with_bindings [] [] [] r)
