-- ===== src/TaskState/Fields.antt =====
-- utils/claude_task_state.py: how the fields of a transcript entry are read. `none` stands for an
-- exception, and for the text of a nested list or object, which is not followed.
use Prim.Native.Nat.{◌/◌}
use Prim.Native.String.{char_at}
use unified_icc.Base.{
  ◌<◌, ◌≡◌, refl, arith, Bool-cases, inl, inr, ℕ, zero, suc, ◌%◌, String, Bool, true, false, Option,
  none, some, List, [], ◌∷◌, if◌then◌else◌, ◌>>=◌, truthy, contains, ltb, eqb,
}
use unified_icc.Base.Dict.{Dict, get, keys}
use unified_icc.Base.Json.{Json, Items, null, bool, num, str, arr, obj, nil, cons, end, entries}
use unified_icc.Base.Text.{lower, strip}

unfoldable pub normal_status : String → String
normal_status s =
    let normalized = strip (lower s) in
    if contains normalized ("completed" ∷ "complete" ∷ "done" ∷ "finished" ∷ [])
    then "completed"
    else if contains normalized ("in_progress" ∷ "in-progress" ∷ "active" ∷ [])
    then "in_progress"
    else "pending"

-- `not raw_status`, for a value that is no text
is_falsy : Json → Bool
is_falsy null = true
is_falsy (bool b) = if b then false else true
is_falsy (num n) = eqb n 0
is_falsy (str s) = if truthy s then false else true
is_falsy (arr nil) = true
is_falsy (obj end) = true
is_falsy _ = false

-- `_normalize_status`. A true value that is no text has no `lower`.
unfoldable pub normalize_status : Option Json → Option String
unfolding is_falsy
normalize_status none = some "pending"
normalize_status (some (str s)) = some (if truthy s then normal_status s else "pending")
normalize_status (some j) = if is_falsy j then some "pending" else none

-- `_as_text`
unfoldable pub as_text : Option Json → String
as_text (some (str s)) = strip s
as_text _ = ""

-- `a or b` for texts
abbrev pub or_text : String → String → String
or_text a b = if truthy a then a else b

-- The digits of a number before `rest`, on fuel: one step for each digit, so `n + 1` is enough.
decimal_from : ℕ → ℕ → String → String
decimal_from zero n rest = rest
decimal_from (suc fuel) n rest =
    let more = String.◌∷◌ (char_at "0123456789" (n % 10)) rest in
    let shorter = decimal_from fuel (n / 10) more in if ltb n 10 then more else shorter

-- More fuel than the number makes no difference.
decimal_enough :
    (f g n : ℕ) (rest : String) → n < f → n < g → decimal_from f n rest ≡ decimal_from g n rest
unfolding decimal_from
decimal_enough zero g n rest h k = absurd (omega (arith, h))
decimal_enough (suc f) zero n rest h k = absurd (omega (arith, k))
decimal_enough (suc f) (suc g) n rest h k =
    let more = String.◌∷◌ (char_at "0123456789" (n % 10)) rest in
    elim (Bool-cases (ltb n 10)) [
      | inl last ↦ rw last refl
      | inr longer ↦
          rw longer (
            decimal_enough f g (n / 10) more (ground (arith, h, longer))
              (ground (arith, k, longer)))
    ]

-- `str(n)`
unfoldable pub decimal : ℕ → String
unfolding decimal_from
decimal n = decimal_from (suc n) n ""

-- `str(value)`
unfoldable pub str_of : Json → Option String
str_of null = some "None"
str_of (bool b) = some (if b then "True" else "False")
str_of (num n) = some (decimal n)
str_of (str s) = some s
str_of _ = none

unfoldable pub items_of : Items → List Json
items_of nil = []
items_of (cons x xs) = x ∷ items_of xs

texts_of : List String → List Json
texts_of [] = []
texts_of (k ∷ ks) = str k ∷ texts_of ks

characters : String → List Json
characters String.[] = []
characters (String.◌∷◌ c s) = str (String.◌∷◌ c "") ∷ characters s

-- `for value in d.get(k, [])`: a list, a dict or a text can be iterated.
unfoldable pub iterate : Option Json → Option (List Json)
unfolding items_of texts_of characters
iterate none = some []
iterate (some (arr xs)) = some (items_of xs)
iterate (some (obj fs)) = some (texts_of (keys (entries fs)))
iterate (some (str s)) = some (characters s)
iterate (some _) = none

-- `tuple(str(value) for value in values if str(value).strip())`
unfoldable pub blockers : List Json → Option (List String)
blockers [] = some []
blockers (v ∷ vs) = do
  s ← str_of v
  rest ← blockers vs
  some (if truthy (strip s) then s ∷ rest else rest)

-- `str(value).strip()` of each value
unfoldable pub stripped : List Json → Option (List String)
stripped [] = some []
stripped (v ∷ vs) = do s ← str_of v; rest ← stripped vs; some (strip s ∷ rest)

-- The items of a list that are dicts.
unfoldable pub dicts_of : Items → List (Dict Json)
dicts_of nil = []
dicts_of (cons (obj fs) xs) = entries fs ∷ dicts_of xs
dicts_of (cons _ xs) = dicts_of xs

content_blocks : Option Json → List (Dict Json)
content_blocks (some (arr xs)) = dicts_of xs
content_blocks _ = []

message_blocks : Option Json → List (Dict Json)
unfolding content_blocks
message_blocks (some (obj fs)) = content_blocks (get "content" (entries fs))
message_blocks _ = []

unfoldable pub iter_message_blocks : Dict Json → List (Dict Json)
unfolding message_blocks
iter_message_blocks entry = message_blocks (get "message" entry)
