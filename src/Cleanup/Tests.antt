-- ===== src/Cleanup/Tests.antt =====
-- A registry with functions, and the theorem at it.
use unified_icc.Base.{String, ◌≡◌, some, [], ◌∷◌, ◌==◌, if◌then◌else◌}
use unified_icc.Cleanup.{Ending, returns, raises, TopicStateRegistry, new_registry, clear_all}
use unified_icc.Cleanup.Laws.{outcome, planned, clear_all-outcome}

abbrev registry : TopicStateRegistry
registry = record new_registry {
  cleanups =
      ("topic", "reset_topic" ∷ [])
      ∷ ("window", "clear_tasks" ∷ "clear_vim" ∷ [])
      ∷ ("chat", "reset_chat" ∷ [])
      ∷ [];
}

-- One of the functions of a window raises an error that is caught.
abbrev one_raises : String → Ending
one_raises fn = if fn == "clear_tasks" then raises else returns

clear_all-outcome_example :
    clear_all one_raises 1 2 "@3" "" (some 4) registry
    ≡ outcome one_raises (planned 1 2 "@3" "" (some 4) registry) registry
clear_all-outcome_example = clear_all-outcome one_raises 1 2 "@3" "" (some 4) registry
