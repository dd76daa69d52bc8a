-- ===== src/Base/Json.antt =====
-- JSON values, as the program reads and writes them in its state files. An object's fields are
-- read as a `Dict`, which keeps their order.
use Prim.Native.Nat.{ℕ}
use Prim.Native.String.{String}
use mathlib.Core.Path.{◌≡◌, refl}
use mathlib.Core.Bool.{Bool, true, false}
use mathlib.Core.Option.{Option, none, some}
use mathlib.Core.List.{List, [], ◌∷◌}
use native.Mathlib.Omega.{arith}
use unified_icc.Base.Tests.{if◌then◌else◌, ◌==◌, ◌>>=◌}
use unified_icc.Base.Dict.{Dict, get, put, get-put}

mutual
  pub data Json : Type 0 where
    null : Json
    bool : Bool → Json
    num : ℕ → Json
    str : String → Json
    arr : Items → Json
    obj : Fields → Json

  pub data Items : Type 0 where
    nil : Items
    cons : Json → Items → Items

  pub data Fields : Type 0 where
    end : Fields
    field : String → Json → Fields → Fields

unfoldable pub entries : Fields → Dict Json
entries end = []
entries (field k v fs) = (k, v) ∷ entries fs

unfoldable pub of_entries : Dict Json → Fields
of_entries [] = end
of_entries ((k, v) ∷ d) = field k v (of_entries d)

pub entries-of_entries : (d : Dict Json) → entries (of_entries d) ≡ d
unfolding entries of_entries
entries-of_entries [] = refl
entries-of_entries ((k, v) ∷ d) = rw (entries-of_entries d)

-- An object made of a dict.
abbrev pub object : Dict Json → Json
object d = obj (of_entries d)

unfoldable pub of_texts : List String → Items
of_texts [] = nil
of_texts (s ∷ ss) = cons (str s) (of_texts ss)

-- `none` if an item is no text
unfoldable pub texts : Items → Option (List String)
texts nil = some []
texts (cons (str s) xs) = texts xs >>= λ ss. some (s ∷ ss)
texts (cons _ xs) = none

pub texts-of_texts : (ss : List String) → texts (of_texts ss) ≡ some ss
unfolding texts of_texts
texts-of_texts [] = refl
texts-of_texts (s ∷ ss) = rw (texts-of_texts ss)

-- `d.get(k, default)` where the program takes the value for a text, and for a truth value. `none`
-- stands for a value of another type, which Python would store unchecked.
text_or : String → Option Json → Option String
text_or default none = some default
text_or default (some (str s)) = some s
text_or default (some _) = none

unfoldable pub read_text : String → String → Dict Json → Option String
unfolding text_or
read_text k default d = text_or default (get k d)

bool_or : Bool → Option Json → Option Bool
bool_or default none = some default
bool_or default (some (bool b)) = some b
bool_or default (some _) = none

unfoldable pub read_bool : String → Bool → Dict Json → Option Bool
unfolding bool_or
read_bool k default d = bool_or default (get k d)

num_or : ℕ → Option Json → Option ℕ
num_or default none = some default
num_or default (some (num n)) = some n
num_or default (some _) = none

unfoldable pub read_num : String → ℕ → Dict Json → Option ℕ
unfolding num_or
read_num k default d = num_or default (get k d)

-- `data.get(k, {})` where the value has to be a dict
object_of : Option Json → Option (Dict Json)
object_of none = some []
object_of (some (obj fs)) = some (entries fs)
object_of (some _) = none

unfoldable pub read_object : String → Dict Json → Option (Dict Json)
unfolding object_of
read_object k d = object_of (get k d)

-- `if c: d[k] = v`
unfoldable pub put_if {ℓ} : {V : Type ℓ} → Bool → String → V → Dict V → Dict V
put_if c k v d = if c then put k v d else d

pub get-put_if {ℓ} :
    {V : Type ℓ} (j : String) (c : Bool) (k : String) (v : V) (d : Dict V)
    → get j (put_if c k v d) ≡ (if k == j then (if c then some v else get j d) else get j d)
unfolding put_if
get-put_if j true k v d = get-put j k v d
get-put_if j false k v d = ground arith
