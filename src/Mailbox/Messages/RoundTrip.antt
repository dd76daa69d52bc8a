-- ===== src/Mailbox/Messages/RoundTrip.antt =====
-- utils/mailbox.py: what `from_dict` reads of a message that `to_dict` wrote.
use unified_icc.Base.{
  String, ◌≡◌, ◌∙◌, refl, ap, Option, none, some, [], ◌∷◌, if◌then◌else◌, ◌==◌, truthy, arith,
  eq_iff, Bool-cases, inl, inr,
}
use unified_icc.Base.Dict.{Dict, get, HasUniqueKeys}
use unified_icc.Base.Json.{
  Json, str, entries, of_entries, object, read_text, read_num, entries-of_entries,
}
use unified_icc.Mailbox.Messages.{
  Message, texts_of, texts_in, as_dict, is_given, given, to_dict, optional, read_optional,
  read_context, read_either, from_dict,
}

-- An empty text counts as none.
abbrev pub nonempty : Option String → Option String
nonempty none = none
nonempty (some s) = if truthy s then some s else none

-- A message with what is read of its empty fields.
abbrev pub read_back : Message → Message
read_back m = record m {
  kind = if truthy m.kind then m.kind else "request";
  reply_to = nonempty m.reply_to;
  file_path = nonempty m.file_path;
  delivered_at = nonempty m.delivered_at;
  read_at = nonempty m.read_at;
  status = if truthy m.status then m.status else "pending";
}

-- A value that a dict has, if it is written.
abbrev kept : Option Json → Option Json
kept none = none
kept (some v) = if is_given v then some v else none

get-given : (k : String) (d : Dict Json) → HasUniqueKeys d → get k (given d) ≡ kept (get k d)
unfolding given get
get-given k [] unique = refl
get-given k ((j, v) ∷ d) unique = elim (Bool-cases (j == k)) [
  | inl same ↦
      let absent : get k d ≡ none = ground (arith, unique.0, eq_iff j k, same) in
      elim (Bool-cases (is_given v)) [
        | inl e ↦ rw (e, same, e) refl
        | inr e ↦ rw (e, same, e) (get-given k d unique.1 ∙ ap kept absent)
      ]
  | inr other ↦ elim (Bool-cases (is_given v)) [
    | inl e ↦ rw (e, other) (get-given k d unique.1)
    | inr e ↦ rw (e, other) (get-given k d unique.1)
  ]
]

as_dict-HasUniqueKeys : (m : Message) → HasUniqueKeys (as_dict m)
unfolding as_dict get
as_dict-HasUniqueKeys m = (
  refl,
  (
    refl,
    (
      refl,
      (refl, (refl, (refl, (refl, (refl, (refl, (refl, (refl, (refl, (refl, (refl, tt))))))))))),
    ),
  ),
)

get-to_dict : (k : String) (m : Message) → get k (to_dict m) ≡ kept (get k (as_dict m))
unfolding to_dict
get-to_dict k m = get-given k (as_dict m) (as_dict-HasUniqueKeys m)

texts_round_trip : (d : Dict String) → texts_in (texts_of d) ≡ some d
unfolding texts_in texts_of
texts_round_trip [] = refl
texts_round_trip ((k, v) ∷ d) = rw (texts_round_trip d)

-- An empty text is read as the default.
read_text-to_dict :
    (k default s : String) (m : Message)
    → get k (as_dict m) ≡ some (str s)
    → read_text k default (to_dict m) ≡ some (if truthy s then s else default)
unfolding read_text
read_text-to_dict k default s m stored = elim (Bool-cases (truthy s)) [
  | inl e ↦ rw (get-to_dict k m, stored, e) refl
  | inr e ↦ rw (get-to_dict k m, stored, e) refl
]

empty_text : (s : String) → (if truthy s then s else "") ≡ s
empty_text s = ground (arith, eq_iff s "")

read_plain-to_dict :
    (k s : String) (m : Message)
    → get k (as_dict m) ≡ some (str s)
    → read_text k "" (to_dict m) ≡ some s
read_plain-to_dict k s m stored = read_text-to_dict k "" s m stored ∙ ap some (empty_text s)

read_optional-to_dict :
    (k : String) (o : Option String) (m : Message)
    → get k (as_dict m) ≡ some (optional o)
    → read_optional k (to_dict m) ≡ some (nonempty o)
unfolding read_optional
read_optional-to_dict k none m stored = rw (get-to_dict k m, stored) refl
read_optional-to_dict k (some s) m stored = elim (Bool-cases (truthy s)) [
  | inl e ↦ rw (get-to_dict k m, stored, e) refl
  | inr e ↦ rw (get-to_dict k m, stored, e) refl
]

-- The key of an older format is not written.
read_either-to_dict :
    (k older s : String) (m : Message)
    → get k (as_dict m) ≡ some (str s)
    → get older (as_dict m) ≡ none
    → read_either k older (to_dict m) ≡ some s
unfolding read_either read_text
read_either-to_dict k older s m stored absent = elim (Bool-cases (truthy s)) [
  | inl e ↦ rw (get-to_dict older m, absent, get-to_dict k m, stored, e) refl
  | inr e ↦
      rw (get-to_dict older m, absent, get-to_dict k m, stored, e) (ground (arith, eq_iff s "", e))
]

context_kept :
    (d : Dict Json) (c : Dict String)
    → get "context" d ≡ kept (some (object (texts_of c)))
    → read_context d ≡ some c
unfolding read_context texts_of entries of_entries
context_kept d [] h = rw h refl
context_kept d ((k, v) ∷ c) h =
    rw h
      (ap texts_in (entries-of_entries ((k, str v) ∷ texts_of c)) ∙ texts_round_trip ((k, v) ∷ c))

read_context-to_dict : (m : Message) → read_context (to_dict m) ≡ some m.context
unfolding as_dict get
read_context-to_dict m = context_kept (to_dict m) m.context (get-to_dict "context" m)

read_ttl : (m : Message) → read_num "ttl_minutes" 60 (to_dict m) ≡ some m.ttl_minutes
unfolding read_num as_dict get
read_ttl m = rw (get-to_dict "ttl_minutes" m) refl

-- Any message that is written is read back with every field as it was, but that an empty optional
-- text is read as none, an empty type as `request` and an empty status as `pending`.
pub message_round_trip : (m : Message) → from_dict (to_dict m) ≡ some (read_back m)
unfolding from_dict as_dict get
message_round_trip m = rw (
  read_plain-to_dict "id" m.id m refl,
  read_either-to_dict "from_id" "from" m.from_id m refl refl,
  read_either-to_dict "to_id" "to" m.to_id m refl refl,
  read_text-to_dict "type" "request" m.kind m refl,
  read_plain-to_dict "body" m.body m refl,
  read_plain-to_dict "subject" m.subject m refl,
  read_optional-to_dict "reply_to" m.reply_to m refl,
  read_optional-to_dict "file_path" m.file_path m refl,
  read_context-to_dict m,
  read_plain-to_dict "created_at" m.created_at m refl,
  read_optional-to_dict "delivered_at" m.delivered_at m refl,
  read_optional-to_dict "read_at" m.read_at m refl,
  read_text-to_dict "status" "pending" m.status m refl,
  read_ttl m,
)
