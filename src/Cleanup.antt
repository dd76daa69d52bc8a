-- ===== src/Cleanup.antt =====
-- utils/topic_state_registry.py: the registry of cleanup functions. A function is named by a text;
-- `behaves` says how a call of it ends. `calls` holds the calls made, newest first, with their
-- arguments.
pub mod Laws
mod Tests
use unified_icc.Base.{
  ℕ, String, Bool, Option, ◌>>=◌, none, some, List, [], ◌∷◌, if◌then◌else◌, truthy, or_default,
  contains, add,
}
use unified_icc.Base.Dict.{Dict, get, put}

-- A call returns, raises one of the errors that `_safe_call` catches, or another one.
pub data Ending : Type 0 where
  returns : Ending
  raises : Ending
  escapes : Ending

pub data Argument : Type 0 where
  number : ℕ → Argument
  name : String → Argument

pub record TopicStateRegistry : Type 0 where
  pub cleanups : Dict (List String)
  pub calls : List (String × List Argument)

abbrev pub valid_scopes : List String
valid_scopes = "topic" ∷ "window" ∷ "qualified" ∷ "chat" ∷ []

abbrev pub new_registry : TopicStateRegistry
new_registry = record {
  cleanups = ("topic", []) ∷ ("window", []) ∷ ("qualified", []) ∷ ("chat", []) ∷ [];
  calls = [];
}

abbrev pub bucket : String → TopicStateRegistry → List String
bucket scope r = or_default (get scope r.cleanups) []

-- `none` for the ValueError. `register` does the same when its decorator is applied.
unfoldable pub register_bound : String → String → TopicStateRegistry → Option TopicStateRegistry
register_bound scope method r =
    if contains scope valid_scopes
    then some (record r { cleanups = put scope (add method (bucket scope r)) r.cleanups })
    else none

unfoldable pub reset_buckets : Dict (List String) → Dict (List String)
reset_buckets [] = []
reset_buckets ((scope, _) ∷ d) = (scope, []) ∷ reset_buckets d

unfoldable pub reset_for_testing : TopicStateRegistry → TopicStateRegistry
reset_for_testing r = record r { cleanups = reset_buckets r.cleanups }

-- An error that is not caught ends everything.
unfoldable pub safe_call : Ending → Option TopicStateRegistry → Option TopicStateRegistry
safe_call escapes next = none
safe_call _ next = next

module _ (behaves : String → Ending) where
  unfoldable pub call_all :
      List String → List Argument → TopicStateRegistry → Option TopicStateRegistry
  call_all [] arguments r = some r
  call_all (fn ∷ fns) arguments r =
      safe_call (behaves fn)
        (call_all fns arguments (record r { calls = (fn, arguments) ∷ r.calls }))

  unfoldable pub clear_topic : ℕ → ℕ → TopicStateRegistry → Option TopicStateRegistry
  clear_topic user_id thread_id r =
      call_all (bucket "topic" r) (number user_id ∷ number thread_id ∷ []) r

  unfoldable pub clear_window : String → TopicStateRegistry → Option TopicStateRegistry
  clear_window window_id r = call_all (bucket "window" r) (name window_id ∷ []) r

  unfoldable pub clear_qualified : String → TopicStateRegistry → Option TopicStateRegistry
  clear_qualified qualified_id r = call_all (bucket "qualified" r) (name qualified_id ∷ []) r

  unfoldable pub clear_chat : ℕ → ℕ → TopicStateRegistry → Option TopicStateRegistry
  clear_chat chat_id thread_id r =
      call_all (bucket "chat" r) (number chat_id ∷ number thread_id ∷ []) r

  -- `if chat_id is not None`
  unfoldable pub clear_given : Option ℕ → ℕ → TopicStateRegistry → Option TopicStateRegistry
  clear_given none thread_id r = some r
  clear_given (some chat_id) thread_id r = clear_chat chat_id thread_id r

  -- A name that is not given is the empty one, which counts as not given.
  unfoldable pub clear_all :
      ℕ → ℕ → String → String → Option ℕ → TopicStateRegistry → Option TopicStateRegistry
  clear_all user_id thread_id window_id qualified_id chat_id r = do
    r1 ← clear_topic user_id thread_id r
    r2 ← clear_given chat_id thread_id r1
    r3 ← if truthy window_id then clear_window window_id r2 else some r2
    if truthy qualified_id then clear_qualified qualified_id r3 else some r3
