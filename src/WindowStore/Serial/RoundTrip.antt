-- ===== src/WindowStore/Serial/RoundTrip.antt =====
-- What `from_dict` reads back from what `to_dict` wrote.
use unified_icc.Base.{
  String, true, false, ◌≡◌, refl, sym, some, List, [], ◌∷◌, ◌++◌, arith, set_of, union, contains,
  contains-append, contains-cons, contains-nil, eq_iff, add, IsUnique,
}
use mathlib.Core.List.{append-nil, append_assoc}
use unified_icc.Base.Dict.{Dict, get-cons, get-nil, has}
use unified_icc.Base.Json.{entries-of_entries, texts-of_texts, read_text, read_bool, get-put_if}
use unified_icc.WindowStore.{
  WindowState, WindowStateStore, default_approval_mode, default_batch_mode,
}
use unified_icc.WindowStore.Serial.{
  state_to_dict, state_from_dict, states_to_dict, states_from_dict, created_to_dict,
  created_from_dict, to_dict, from_dict,
}

add_absent : (a : String) (xs : List String) → contains a xs ≡ false → add a xs ≡ xs ++ a ∷ []
unfolding add
add_absent a xs h = rw h

ruleset get_rules = (get-put_if, get-cons, get-nil)

module _ (s : WindowState) where
  read_session : read_text "session_id" "" (state_to_dict s) ≡ some s.session_id
  unfolding read_text state_to_dict
  read_session = simp get_rules

  read_cwd : read_text "cwd" "" (state_to_dict s) ≡ some s.cwd
  unfolding read_text state_to_dict
  read_cwd = simp get_rules

  read_window_name : read_text "window_name" "" (state_to_dict s) ≡ some s.window_name
  unfolding read_text state_to_dict
  read_window_name = simp get_rules (ground (arith, eq_iff s.window_name ""))

  read_transcript_path : read_text "transcript_path" "" (state_to_dict s) ≡ some s.transcript_path
  unfolding read_text state_to_dict
  read_transcript_path = simp get_rules (ground (arith, eq_iff s.transcript_path ""))

  read_notification_mode :
      read_text "notification_mode" "all" (state_to_dict s) ≡ some s.notification_mode
  unfolding read_text state_to_dict
  read_notification_mode = simp get_rules (ground (arith, eq_iff s.notification_mode "all"))

  read_provider_name : read_text "provider_name" "" (state_to_dict s) ≡ some s.provider_name
  unfolding read_text state_to_dict
  read_provider_name = simp get_rules (ground (arith, eq_iff s.provider_name ""))

  read_approval_mode :
      read_text "approval_mode" default_approval_mode (state_to_dict s) ≡ some s.approval_mode
  unfolding read_text state_to_dict
  read_approval_mode = simp get_rules (ground (arith, eq_iff s.approval_mode "normal"))

  read_batch_mode : read_text "batch_mode" default_batch_mode (state_to_dict s) ≡ some s.batch_mode
  unfolding read_text state_to_dict
  read_batch_mode = simp get_rules (ground (arith, eq_iff s.batch_mode "batched"))

  read_channel_id : read_text "channel_id" "" (state_to_dict s) ≡ some s.channel_id
  unfolding read_text state_to_dict
  read_channel_id = simp get_rules (ground (arith, eq_iff s.channel_id ""))

  read_external : read_bool "external" false (state_to_dict s) ≡ some s.external
  unfolding read_bool state_to_dict
  read_external = simp get_rules (ground arith)

  -- The state of a window is read back as it was written, whatever fields have their defaults.
  pub state_round_trip : state_from_dict (state_to_dict s) ≡ some s
  unfolding state_from_dict
  state_round_trip = rw (
    read_session, read_cwd, read_window_name, read_transcript_path, read_notification_mode,
    read_provider_name, read_approval_mode, read_batch_mode, read_external, read_channel_id,
  )

states_round_trip : (d : Dict WindowState) → states_from_dict (states_to_dict d) ≡ some d
unfolding states_to_dict states_from_dict
states_round_trip [] = refl
states_round_trip ((k, v) ∷ d) =
    rw (states_round_trip d, entries-of_entries (state_to_dict v), state_round_trip v)

-- No text of `ys` stands in `xs`.
abbrev Apart : List String → List String → Type 0
Apart xs [] = Unit {0}
Apart xs (y ∷ ys) = (contains y xs ≡ false) × Apart xs ys

Apart-snoc :
    (xs ys : List String) (x : String)
    → contains x ys ≡ false
    → Apart xs ys
    → Apart (xs ++ x ∷ []) ys
unfolding contains
Apart-snoc xs [] x h a = tt
Apart-snoc xs (y ∷ ys) x h a = (
  ground (
    arith,
    contains-append y xs (x ∷ []),
    contains-cons y x [],
    contains-nil y,
    eq_iff x y,
    eq_iff y x,
  ),
  Apart-snoc xs ys x (ground arith) a.1,
)

union-disjoint : (xs ys : List String) → IsUnique ys → Apart xs ys → union xs ys ≡ xs ++ ys
unfolding union
union-disjoint xs [] u a = sym (append-nil xs)
union-disjoint xs (y ∷ ys) u a =
    rw (add_absent y xs a.0, union-disjoint (xs ++ y ∷ []) ys u.1 (Apart-snoc xs ys y u.0 a.1))
      (append_assoc xs (y ∷ []) ys)

Apart-nil : (ys : List String) → Apart [] ys
Apart-nil [] = tt
Apart-nil (y ∷ ys) = (contains-nil y, Apart-nil ys)

set_of_unique : (ys : List String) → IsUnique ys → set_of ys ≡ ys
set_of_unique ys u = union-disjoint [] ys u (Apart-nil ys)

abbrev pub AllUnique : Dict (List String) → Type 0
AllUnique [] = Unit {0}
AllUnique ((_, ws) ∷ d) = IsUnique ws × AllUnique d

created_round_trip :
    (d : Dict (List String)) → AllUnique d → created_from_dict (created_to_dict d) ≡ some d
unfolding created_to_dict created_from_dict
created_round_trip [] u = refl
created_round_trip ((name, ws) ∷ d) u =
    rw (created_round_trip d u.1, texts-of_texts ws, set_of_unique ws u.0)

-- The states and the markers that are written for a store are read back into any store, where the
-- default application has an entry and no window stands twice under an application.
pub store_round_trip :
    (s t : WindowStateStore)
    → has "" s.created_windows ≡ true
    → AllUnique s.created_windows
    → from_dict (to_dict s) t
      ≡ some (record t { window_states = s.window_states; created_windows = s.created_windows })
unfolding to_dict from_dict
store_round_trip s t h u =
    simp
      (get-cons, entries-of_entries, states_round_trip, created_round_trip s.created_windows u, h)
