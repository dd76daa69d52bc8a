-- ===== src/Mailbox/Messages.antt =====
-- utils/mailbox.py: a message, and the dict that a file holds of it. A message that waits has no
-- times of delivery and reading, which `none` stands for.
pub mod RoundTrip
use unified_icc.Base.{
  ℕ, String, Bool, true, false, not, ◌&&◌, ◌||◌, Option, none, some, List, [], ◌∷◌, if◌then◌else◌,
  ◌==◌, ◌>>=◌, truthy, is_empty,
}
use unified_icc.Base.Dict.{Dict, get}
use unified_icc.Base.Json.{
  Json, null, bool, num, str, arr, obj, entries, object, read_text, read_num,
}

pub record Message : Type 0 where
  pub id : String
  pub from_id : String
  pub to_id : String
  pub kind : String
  pub body : String
  pub subject : String
  pub reply_to : Option String
  pub file_path : Option String
  pub context : Dict String
  pub created_at : String
  pub delivered_at : Option String
  pub read_at : Option String
  pub status : String
  pub ttl_minutes : ℕ

-- `None` for a field that has no text
abbrev optional : Option String → Json
optional none = null
optional (some s) = str s

unfoldable pub texts_of : Dict String → Dict Json
texts_of [] = []
texts_of ((k, v) ∷ d) = (k, str v) ∷ texts_of d

-- `asdict(self)`
unfoldable pub as_dict : Message → Dict Json
as_dict m =
    ("id", str m.id)
    ∷ ("from_id", str m.from_id)
    ∷ ("to_id", str m.to_id)
    ∷ ("type", str m.kind)
    ∷ ("body", str m.body)
    ∷ ("subject", str m.subject)
    ∷ ("reply_to", optional m.reply_to)
    ∷ ("file_path", optional m.file_path)
    ∷ ("context", object (texts_of m.context))
    ∷ ("created_at", str m.created_at)
    ∷ ("delivered_at", optional m.delivered_at)
    ∷ ("read_at", optional m.read_at)
    ∷ ("status", str m.status)
    ∷ ("ttl_minutes", num m.ttl_minutes)
    ∷ []

-- `v is not None and v != "" and v != {}`
abbrev is_given : Json → Bool
is_given null = false
is_given (str s) = truthy s
is_given (obj fs) = not (is_empty (entries fs))
is_given _ = true

unfoldable pub given : Dict Json → Dict Json
given [] = []
given ((k, v) ∷ d) = if is_given v then (k, v) ∷ given d else given d

unfoldable pub to_dict : Message → Dict Json
to_dict m = given (as_dict m)

-- `data.get(k)` where a text or `None` is expected; `none`, here and below, for a value of another
-- type, which Python would store unchecked.
optional_of : Option Json → Option (Option String)
optional_of none = some none
optional_of (some null) = some none
optional_of (some (str s)) = some (some s)
optional_of (some _) = none

unfoldable pub read_optional : String → Dict Json → Option (Option String)
unfolding optional_of
read_optional k d = optional_of (get k d)

unfoldable pub texts_in : Dict Json → Option (Dict String)
texts_in [] = some []
texts_in ((k, str v) ∷ d) = texts_in d >>= λ rest. some ((k, v) ∷ rest)
texts_in (_ ∷ d) = none

context_of : Option Json → Option (Dict String)
context_of none = some []
context_of (some (obj fs)) = texts_in (entries fs)
context_of (some _) = none

unfoldable pub read_context : Dict Json → Option (Dict String)
unfolding context_of
read_context d = context_of (get "context" d)

-- `data.get(k, data.get(older, ""))`
unfoldable pub read_either : String → String → Dict Json → Option String
read_either k older d = read_text older "" d >>= λ default. read_text k default d

unfoldable pub from_dict : Dict Json → Option Message
from_dict d = do
  id ← read_text "id" "" d
  from_id ← read_either "from_id" "from" d
  to_id ← read_either "to_id" "to" d
  kind ← read_text "type" "request" d
  body ← read_text "body" "" d
  subject ← read_text "subject" "" d
  reply_to ← read_optional "reply_to" d
  file_path ← read_optional "file_path" d
  context ← read_context d
  created_at ← read_text "created_at" "" d
  delivered_at ← read_optional "delivered_at" d
  read_at ← read_optional "read_at" d
  status ← read_text "status" "pending" d
  ttl_minutes ← read_num "ttl_minutes" 60 d
  some (record {
    id = id;
    from_id = from_id;
    to_id = to_id;
    kind = kind;
    body = body;
    subject = subject;
    reply_to = reply_to;
    file_path = file_path;
    context = context;
    created_at = created_at;
    delivered_at = delivered_at;
    read_at = read_at;
    status = status;
    ttl_minutes = ttl_minutes;
  })
