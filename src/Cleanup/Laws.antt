-- ===== src/Cleanup/Laws.antt =====
-- utils/topic_state_registry.py: a clean-up calls what is registered, whatever fails.
use unified_icc.Base.{
  ℕ, String, Bool, true, false, ◌||◌, ◌≡◌, ◌∙◌, refl, sym, ap, Option, none, some, ◌>>=◌, List, [],
  ◌∷◌, ◌++◌, map, if◌then◌else◌, truthy, any, any-append,
}
use unified_icc.Cleanup.{
  Ending, returns, raises, escapes, Argument, number, name, TopicStateRegistry, bucket, safe_call,
  call_all, clear_topic, clear_window, clear_qualified, clear_chat, clear_given, clear_all,
}

-- The calls are kept newest first.
abbrev pub recorded :
    List (String × List Argument) → List (String × List Argument) → List (String × List Argument)
recorded [] calls = calls
recorded (call ∷ more) calls = recorded more (call ∷ calls)

recorded-append :
    (cs ds calls : List (String × List Argument))
    → recorded (cs ++ ds) calls ≡ recorded ds (recorded cs calls)
recorded-append [] ds calls = refl
recorded-append (c ∷ cs) ds calls = recorded-append cs ds (c ∷ calls)

abbrev with_arguments : List Argument → List String → List (String × List Argument)
with_arguments arguments fns = map (λ fn. (fn, arguments)) fns

abbrev topic_plan : ℕ → ℕ → TopicStateRegistry → List (String × List Argument)
topic_plan user_id thread_id r =
    with_arguments (number user_id ∷ number thread_id ∷ []) (bucket "topic" r)

abbrev chat_plan : Option ℕ → ℕ → List String → List (String × List Argument)
chat_plan none thread_id fns = []
chat_plan (some chat_id) thread_id fns = with_arguments (number chat_id ∷ number thread_id ∷ []) fns

-- The functions of a scope, where the name is given.
abbrev name_plan : String → String → TopicStateRegistry → List (String × List Argument)
name_plan scope given r =
    if truthy given then with_arguments (name given ∷ []) (bucket scope r) else []

-- The functions that are to be called, in their order, with their arguments.
abbrev pub planned :
    ℕ → ℕ → String → String → Option ℕ → TopicStateRegistry → List (String × List Argument)
planned user_id thread_id window_id qualified_id chat_id r =
    topic_plan user_id thread_id r
    ++ (chat_plan chat_id thread_id (bucket "chat" r)
        ++ (name_plan "window" window_id r ++ name_plan "qualified" qualified_id r))

module _ (behaves : String → Ending) where
  abbrev is_escape : Ending → Bool
  is_escape escapes = true
  is_escape _ = false

  abbrev pub fails : String × List Argument → Bool
  fails (fn, _) = is_escape (behaves fn)

  -- All the calls are made, or one of them ends everything.
  abbrev pub outcome :
      List (String × List Argument) → TopicStateRegistry → Option TopicStateRegistry
  outcome plan r =
      if any fails plan then none else some (record r { calls = recorded plan r.calls })

  call_all-outcome :
      (fns : List String) (arguments : List Argument) (r : TopicStateRegistry)
      → call_all behaves fns arguments r ≡ outcome (with_arguments arguments fns) r
  unfolding call_all safe_call any
  call_all-outcome [] arguments r = refl
  call_all-outcome (fn ∷ fns) arguments r =
      ap (safe_call (behaves fn))
        (call_all-outcome fns arguments (record r { calls = (fn, arguments) ∷ r.calls }))
      ∙ safe_call-if (behaves fn) (any fails (with_arguments arguments fns)) _
    where
      safe_call-if :
          (e : Ending) (b : Bool) (s : TopicStateRegistry)
          → safe_call e (if b then none else some s) ≡ (if is_escape e || b then none else some s)
      safe_call-if returns b s = refl
      safe_call-if raises b s = refl
      safe_call-if escapes b s = refl

  -- Calls, and then the rest of a clean-up.
  then-outcome :
      (cs ds : List (String × List Argument)) (r : TopicStateRegistry)
      (m : Option TopicStateRegistry) (k : TopicStateRegistry → Option TopicStateRegistry)
      → m ≡ outcome cs r
      → ((calls : List (String × List Argument))
          → k (record r { calls = calls }) ≡ outcome ds (record r { calls = calls }))
      → (m >>= k) ≡ outcome (cs ++ ds) r
  then-outcome cs ds r m k e h =
      ap (λ (o : Option TopicStateRegistry). o >>= k) e
      ∙ go (any fails cs)
      ∙ sym (
          ap (λ b. if b then none else some (record r { calls = recorded (cs ++ ds) r.calls }))
            (any-append fails cs ds))
    where
      go :
          (b : Bool)
          → ((if b then none else some (record r { calls = recorded cs r.calls })) >>= k) ≡ (
              if b || any fails ds
              then none
              else some (record r { calls = recorded (cs ++ ds) r.calls }))
      go true = refl
      go false =
          h (recorded cs r.calls)
          ∙ ap (λ calls. if any fails ds then none else some (record r { calls = calls }))
              (sym (recorded-append cs ds r.calls))

  given-outcome :
      (chat_id : Option ℕ) (thread_id : ℕ) (r : TopicStateRegistry)
      → clear_given behaves chat_id thread_id r
        ≡ outcome (chat_plan chat_id thread_id (bucket "chat" r)) r
  unfolding clear_given clear_chat any
  given-outcome none thread_id r = refl
  given-outcome (some chat_id) thread_id r =
      call_all-outcome (bucket "chat" r) (number chat_id ∷ number thread_id ∷ []) r

  named-outcome :
      (scope given : String) (r : TopicStateRegistry)
      → (if truthy given then call_all behaves (bucket scope r) (name given ∷ []) r else some r)
        ≡ outcome (name_plan scope given r) r
  unfolding any
  named-outcome scope given r = go (truthy given)
    where
      go :
          (b : Bool)
          → (if b then call_all behaves (bucket scope r) (name given ∷ []) r else some r)
            ≡ outcome (if b then with_arguments (name given ∷ []) (bucket scope r) else []) r
      go true = call_all-outcome (bucket scope r) (name given ∷ []) r
      go false = refl

  -- A clean-up calls every function that is registered for the topic, and for the chat, the window
  -- and the qualified id as far as they are given, in this order and each with its own arguments,
  -- and no other one, whichever of them raise errors that are caught; an error that is not caught
  -- ends it.
  pub clear_all-outcome :
      (user_id thread_id : ℕ) (window_id qualified_id : String) (chat_id : Option ℕ)
      (r : TopicStateRegistry)
      → clear_all behaves user_id thread_id window_id qualified_id chat_id r
        ≡ outcome (planned user_id thread_id window_id qualified_id chat_id r) r
  unfolding clear_all clear_topic clear_window clear_qualified
  clear_all-outcome user_id thread_id window_id qualified_id chat_id r =
      let chats = chat_plan chat_id thread_id (bucket "chat" r) in
      let windows = name_plan "window" window_id r in
      let rest = name_plan "qualified" qualified_id r in
      then-outcome (topic_plan user_id thread_id r) (chats ++ (windows ++ rest)) r _ _
        (call_all-outcome (bucket "topic" r) (number user_id ∷ number thread_id ∷ []) r)
        (λ c1.
          then-outcome chats (windows ++ rest) (record r { calls = c1 }) _ _
            (given-outcome chat_id thread_id (record r { calls = c1 }))
            (λ c2.
              then-outcome windows rest (record r { calls = c2 }) _ _
                (named-outcome "window" window_id (record r { calls = c2 }))
                (λ c3. named-outcome "qualified" qualified_id (record r { calls = c3 }))))
