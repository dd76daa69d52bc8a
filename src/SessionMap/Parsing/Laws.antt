-- ===== src/SessionMap/Parsing/Laws.antt =====
-- state/session_map.py: what `parse_session_map` returns, against the entries of the file.
use unified_icc.Base.{
  String, true, ◌≡◌, refl, ap, ◌≢◌, Option, none, some, [], ◌∷◌, arith, ◌==◌, eq_iff, ==_refl,
  truthy, Bool-cases, inl, inr, ◌⊎◌,
}
use unified_icc.Base.Dict.{Dict, get, get-nil, get-put, HasUniqueKeys}
use unified_icc.SessionMap.{Entry, info, other, field}
use unified_icc.SessionMap.Parsing.{
  window_name_of, parsed_info, parse_named, parse_from, parse_session_map,
}

-- Where a parsed window comes from: an entry with a session, under a key that has its name.
pub record Source (prefix name : String) (p : Dict String) (raw : Dict Entry) : Type 0 where
  pub key : String
  pub entry : Dict String
  pub listed : get key raw ≡ some (info entry)
  pub named : window_name_of prefix key ≡ some name
  pub has_session : truthy (field "session_id" entry) ≡ true
  pub copied : p ≡ parsed_info entry

parse_named_cases :
    (o : Option String) (e : Entry) (result : Dict (Dict String)) (name : String) (p : Dict String)
    → get name (parse_named o e result) ≡ some p
    → ((d : Dict String) × (o ≡ some name)
        × (e ≡ info d)
        × (truthy (field "session_id" d) ≡ true)
        × (p ≡ parsed_info d))
      ⊎ (get name result ≡ some p)
unfolding parse_named
parse_named_cases none e result name p h = inr h
parse_named_cases (some n) other result name p h = inr h
parse_named_cases (some n) (info d) result name p h =
    elim (Bool-cases (truthy (field "session_id" d))) [
      | inl session ↦ elim (Bool-cases (n == name)) [
        | inl same ↦ inl (
          d,
          ap some ((eq_iff n name).0 same),
          refl,
          session,
          ground (arith, get-put name n (parsed_info d) result),
        )
        | inr apart ↦ inr (ground (arith, get-put name n (parsed_info d) result))
      ]
      | inr none_yet ↦ inr (ground arith)
    ]

parse_from_sound :
    (prefix : String) (raw : Dict Entry) (result : Dict (Dict String)) (name : String)
    (p : Dict String)
    → HasUniqueKeys raw
    → get name (parse_from prefix raw result) ≡ some p
    → Source prefix name p raw ⊎ (get name result ≡ some p)
unfolding parse_from get
parse_from_sound prefix [] result name p u h = inr h
parse_from_sound prefix ((key, e) ∷ raw) result name p u h =
    elim (parse_from_sound prefix raw (parse_named (window_name_of prefix key) e result) name p u.1
      h) [
        | inl later ↦ inl (record {
          key = later.key;
          entry = later.entry;
          listed = ground (arith, eq_iff key later.key, later.listed, u.0);
          named = later.named;
          has_session = later.has_session;
          copied = later.copied;
        })
        | inr before ↦ elim (parse_named_cases (window_name_of prefix key) e result name p before) [
          | inl (d, named, is_info, session, copied) ↦ inl (record {
            key = key;
            entry = d;
            listed = ground (arith, ==_refl key, is_info);
            named = named;
            has_session = session;
            copied = copied;
          })
          | inr earlier ↦ inr earlier
        ]
      ]

-- Every window that parse_session_map returns comes from an entry with a session whose key carries
-- the name of the window behind the prefix, or behind the legacy one where that counts, if no key
-- stands twice in the file.
pub parse_session_map_sound :
    (raw : Dict Entry) (prefix name : String) (p : Dict String)
    → HasUniqueKeys raw
    → get name (parse_session_map raw prefix) ≡ some p
    → Source prefix name p raw
unfolding parse_session_map
parse_session_map_sound raw prefix name p u h = elim (parse_from_sound prefix raw [] name p u h) [
  | inl source ↦ source
  | inr empty ↦ absurd (cc (get-nil {V = Dict String} name))
]

parse_named_keeps :
    (o : Option String) (e : Entry) (result : Dict (Dict String)) (name : String)
    → get name result ≢ none
    → get name (parse_named o e result) ≢ none
unfolding parse_named
parse_named_keeps none e result name h = h
parse_named_keeps (some n) other result name h = h
parse_named_keeps (some n) (info d) result name h =
    ground (arith, get-put name n (parsed_info d) result)

parse_from_keeps :
    (prefix : String) (raw : Dict Entry) (result : Dict (Dict String)) (name : String)
    → get name result ≢ none
    → get name (parse_from prefix raw result) ≢ none
unfolding parse_from
parse_from_keeps prefix [] result name h = h
parse_from_keeps prefix ((key, e) ∷ raw) result name h =
    parse_from_keeps prefix raw _ name
      (parse_named_keeps (window_name_of prefix key) e result name h)

put_by_entry :
    (prefix key k name : String) (d : Dict String) (e : Entry) (result : Dict (Dict String))
    → (k == key) ≡ true
    → e ≡ info d
    → window_name_of prefix key ≡ some name
    → truthy (field "session_id" d) ≡ true
    → get name (parse_named (window_name_of prefix k) e result) ≢ none
put_by_entry prefix key k name d e result same is_info named session =
    rw ((eq_iff k key).0 same, is_info, named)
      (unfold parse_named in
        rw session (ground (arith, get-put name name (parsed_info d) result, ==_refl name)))

parse_from_complete :
    (prefix key name : String) (d : Dict String) (raw : Dict Entry) (result : Dict (Dict String))
    → get key raw ≡ some (info d)
    → window_name_of prefix key ≡ some name
    → truthy (field "session_id" d) ≡ true
    → get name (parse_from prefix raw result) ≢ none
unfolding parse_from get
parse_from_complete prefix key name d [] result h named session = cc
parse_from_complete prefix key name d ((k, e) ∷ raw) result h named session =
    elim (Bool-cases (k == key)) [
      | inl same ↦
          parse_from_keeps prefix raw (parse_named (window_name_of prefix k) e result) name
            (put_by_entry prefix key k name d e result same (ground (arith, h)) named session)
      | inr apart ↦ parse_from_complete prefix key name d raw _ (ground (arith, h)) named session
    ]

-- No entry that has a session and whose key carries the name of a window is missed: the window is
-- returned, with this or another entry of the same name.
pub parse_session_map_complete :
    (raw : Dict Entry) (prefix key name : String) (d : Dict String)
    → get key raw ≡ some (info d)
    → window_name_of prefix key ≡ some name
    → truthy (field "session_id" d) ≡ true
    → get name (parse_session_map raw prefix) ≢ none
unfolding parse_session_map
parse_session_map_complete raw prefix key name d h named session =
    parse_from_complete prefix key name d raw [] h named session
