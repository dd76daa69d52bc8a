-- ===== src/Router/Serial/Loading.antt =====
-- core/channel_router.py: what `from_dict` reads back, and that it always comes out indexed.
use unified_icc.Base.{
  String, ◌<>◌, ◌≡◌, refl, Option, none, some, [], ◌∷◌, arith, >>=-eq-some, Ensures, Ensures-bind,
  Ensures-elim, Bool-cases, Option-cases, inl, inr,
}
use mathlib.Core.Path.{subst}
use mathlib.Core.Option.{some-injective}
use unified_icc.Base.Dict.{Dict, get, has, HasUniqueKeys, put-HasUniqueKeys}
use unified_icc.Base.Json.{Json, str, obj, entries, object, read_object, entries-of_entries}
use unified_icc.Router.{ChannelRouter}
use unified_icc.Router.Serial.{
  texts_to_dict, metas_to_dict, to_dict, texts_from, metas_from, with_bindings, migrate_threads,
  migrate_users, from_dict,
}
use unified_icc.Router.Index.{Agrees, rebuild-Agrees}

texts_round_trip : (d : Dict String) → texts_from (texts_to_dict d) ≡ some d
unfolding texts_from texts_to_dict
texts_round_trip [] = refl
texts_round_trip ((k, v) ∷ d) = rw (texts_round_trip d)

metas_round_trip : (d : Dict (Dict String)) → metas_from (metas_to_dict d) ≡ some d
unfolding metas_from metas_to_dict
metas_round_trip [] = refl
metas_round_trip ((k, v) ∷ d) =
    rw (metas_round_trip d, entries-of_entries (texts_to_dict v), texts_round_trip v)

-- A dict that has the three entries of a router is read as that router, whatever else it has.
pub read_router :
    (int : String → Option String) (r r₀ : ChannelRouter) (d : Dict Json)
    → get "channel_bindings" d ≡ some (object (texts_to_dict r.bindings))
    → get "channel_meta" d ≡ some (object (metas_to_dict r.channel_meta))
    → get "display_names" d ≡ some (object (texts_to_dict r.display_names))
    → from_dict int d r₀ ≡ some (with_bindings r.bindings r.channel_meta r.display_names r₀)
unfolding from_dict read_object
read_router int r r₀ d bindings metas names =
    simp (bindings, metas, names, entries-of_entries, texts_round_trip, metas_round_trip)

-- What is written for a router is read back into any router, with the reverse index rebuilt from
-- the bindings.
pub router_round_trip :
    (int : String → Option String) (r r₀ : ChannelRouter)
    → from_dict int (to_dict r) r₀
      ≡ some (with_bindings r.bindings r.channel_meta r.display_names r₀)
unfolding to_dict get
router_round_trip int r r₀ = read_router int r r₀ (to_dict r) refl refl refl

texts_from-get-none :
    (k : String) (d : Dict Json) {b : Dict String}
    → texts_from d ≡ some b
    → get k d ≡ none
    → get k b ≡ none
unfolding texts_from get
texts_from-get-none k [] h e = ground arith
texts_from-get-none k ((j, str v) ∷ d) h e =
    let (rest, read, same) = >>=-eq-some (texts_from d) (λ b. some ((j, v) ∷ b)) h in
    ground (arith, texts_from-get-none k d read, same)
texts_from-get-none k ((j, _) ∷ d) h e = cc

texts_from-HasUniqueKeys :
    (d : Dict Json) {b : Dict String} → texts_from d ≡ some b → HasUniqueKeys d → HasUniqueKeys b
unfolding texts_from
texts_from-HasUniqueKeys [] h u = subst HasUniqueKeys (some-injective _ _ h) tt
texts_from-HasUniqueKeys ((j, str v) ∷ d) h u =
    let (rest, read, same) = >>=-eq-some (texts_from d) (λ b. some ((j, v) ∷ b)) h in
    subst HasUniqueKeys (some-injective _ _ same)
      (texts_from-get-none j d read u.0, texts_from-HasUniqueKeys d read u.1)
texts_from-HasUniqueKeys ((j, _) ∷ d) h u = cc

-- The bindings of a migration that does not fail have one entry for a channel.
abbrev UniqueResult : Option (Dict String × Dict (Dict String)) → Type 0
UniqueResult = Ensures (λ acc. HasUniqueKeys acc.0)

module _ (int : String → Option String) where
  migrate_threads-UniqueResult :
      (uid : String) (d : Dict Json) (acc : Dict String × Dict (Dict String))
      → HasUniqueKeys acc.0
      → UniqueResult (migrate_threads int uid d acc)
  unfolding migrate_threads
  migrate_threads-UniqueResult uid [] acc u = u
  migrate_threads-UniqueResult uid ((tid_str, str w) ∷ d) acc u =
      elim (Option-cases (int tid_str)) [
        | inl e ↦ rw (e, migrate_threads) (migrate_threads-UniqueResult uid d acc u)
        | inr (tid, e) ↦
            rw (e, migrate_threads)
              (migrate_threads-UniqueResult uid d _
                (put-HasUniqueKeys ("telegram:" <> (uid <> (":" <> tid))) w acc.0 u))
      ]
  migrate_threads-UniqueResult uid ((tid_str, _) ∷ d) acc u = elim (Option-cases (int tid_str)) [
    | inl e ↦ rw (e, migrate_threads) (migrate_threads-UniqueResult uid d acc u)
    | inr (tid, e) ↦ rw (e, migrate_threads) tt
  ]

  migrate_users-UniqueResult :
      (d : Dict Json) (acc : Dict String × Dict (Dict String))
      → HasUniqueKeys acc.0
      → UniqueResult (migrate_users int d acc)
  unfolding migrate_users
  migrate_users-UniqueResult [] acc u = u
  migrate_users-UniqueResult ((uid_str, obj fs) ∷ d) acc u = elim (Option-cases (int uid_str)) [
    | inl e ↦ rw (e, migrate_users) (migrate_users-UniqueResult d acc u)
    | inr (uid, e) ↦
        rw (e, migrate_users)
          (Ensures-bind (λ acc. HasUniqueKeys acc.0) (migrate_threads int uid (entries fs) acc)
            (migrate_users int d)
            (λ acc' e'. migrate_users-UniqueResult d acc' (
              Ensures-elim (λ acc. HasUniqueKeys acc.0) _
                (migrate_threads-UniqueResult uid (entries fs) acc u) e')))
  ]
  migrate_users-UniqueResult ((uid_str, _) ∷ d) acc u = elim (Option-cases (int uid_str)) [
    | inl e ↦ rw (e, migrate_users) (migrate_users-UniqueResult d acc u)
    | inr (uid, e) ↦ rw (e, migrate_users) (migrate_users-UniqueResult d acc u)
  ]

-- The bindings that a file gives in the current format, if it has them, have one entry for a
-- channel, as a parsed JSON object does.
abbrev pub HasUniqueChannels : Dict Json → Type 0
HasUniqueChannels d =
    (fs : Dict Json) → read_object "channel_bindings" d ≡ some fs → HasUniqueKeys fs

abbrev IsIndexed : ChannelRouter → Type 0
IsIndexed r = Agrees r.bindings r.reverse

with_bindings-IsIndexed :
    (b : Dict String) (m : Dict (Dict String)) (names : Dict String) (r : ChannelRouter)
    → HasUniqueKeys b
    → IsIndexed (with_bindings b m names r)
unfolding with_bindings
with_bindings-IsIndexed b m names r u = rebuild-Agrees b u

from_dict-IsIndexed :
    (int : String → Option String) (d : Dict Json) (r : ChannelRouter)
    → HasUniqueChannels d
    → Ensures IsIndexed (from_dict int d r)
unfolding from_dict
from_dict-IsIndexed int d r unique = elim (Bool-cases (has "channel_bindings" d)) [
  | inl current ↦
      rw (current, from_dict)
        (Ensures-bind IsIndexed (read_object "channel_bindings" d) _ λ raw e.
          Ensures-bind IsIndexed (texts_from raw) _ λ b eb.
            Ensures-bind IsIndexed (read_object "channel_meta" d) _ λ raw_meta _.
              Ensures-bind IsIndexed (metas_from raw_meta) _ λ m _.
                Ensures-bind IsIndexed (read_object "display_names" d) _ λ raw_names _.
                  Ensures-bind IsIndexed (texts_from raw_names) _ λ names _.
                    with_bindings-IsIndexed b m names r
                      (texts_from-HasUniqueKeys raw eb (unique raw e)))
  | inr older ↦ elim (Bool-cases (has "thread_bindings" d)) [
    | inl threads ↦
        rw (older, threads, from_dict)
          (Ensures-bind IsIndexed (read_object "window_display_names" d) _ λ raw_names _.
            Ensures-bind IsIndexed (texts_from raw_names) _ λ names _.
              Ensures-bind IsIndexed (read_object "thread_bindings" d) _ λ raw _.
                Ensures-bind IsIndexed (migrate_users int raw ([], [])) _ λ migrated e.
                  with_bindings-IsIndexed migrated.0 migrated.1 names r (
                    Ensures-elim (λ acc. HasUniqueKeys acc.0) _
                      (migrate_users-UniqueResult int raw ([], []) tt) e))
    | inr neither ↦ rw (older, neither, from_dict) (with_bindings-IsIndexed [] [] [] r tt)
  ]
]

-- Whatever is loaded without an error, in either format, where no channel stands twice in the dict
-- of bindings, the router has a reverse index that agrees with its bindings.
pub from_dict-Agrees :
    (int : String → Option String) (d : Dict Json) (r r' : ChannelRouter)
    → HasUniqueChannels d
    → from_dict int d r ≡ some r'
    → Agrees r'.bindings r'.reverse
from_dict-Agrees int d r r' unique h =
    Ensures-elim IsIndexed (from_dict int d r) (from_dict-IsIndexed int d r unique) h
