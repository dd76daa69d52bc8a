-- ===== src/Connections/Tests.antt =====
-- Sockets, and the theorems at them.
use unified_icc.Base.{String, Bool, not, ◌&&◌, ◌||◌, ◌≡◌, refl, List, [], ◌∷◌, ◌==◌, contains}
use unified_icc.Base.Dict.{get}
use unified_icc.Connections.{
  ConnectionManager, listeners, gather, broadcast_to_channels, Request, join, leave, tell_channel,
  tell_all, serve_all,
}
use unified_icc.Connections.Laws.{Tidy, serve_all-Tidy}
use unified_icc.Connections.Broadcast.{listeners-broadcast}

abbrev only_first : String → Bool
only_first ws = ws == "ws1"

abbrev manager : ConnectionManager
manager = record {
  subscriptions = ("a", "ws1" ∷ "ws2" ∷ []) ∷ ("b", "ws2" ∷ []) ∷ [];
  global = "ws3" ∷ [];
  sent = [];
}

manager-Tidy : Tidy manager
unfolding get
manager-Tidy = (refl, refl, (refl, refl, tt))

abbrev requests : List ((String → Bool) × Request)
requests =
    (only_first, join "c" "ws4")
    ∷ (only_first, tell_channel "b" "hello")
    ∷ (only_first, leave "c" "ws4")
    ∷ (only_first, tell_all "bye")
    ∷ []

serve_all-Tidy_example : Tidy (serve_all requests manager)
serve_all-Tidy_example = serve_all-Tidy requests manager manager-Tidy

listeners-broadcast_example :
    contains "ws2" (listeners "a" (broadcast_to_channels only_first ("b" ∷ []) "hello" manager)) ≡ (
      contains "ws2" (listeners "a" manager)
      && (only_first "ws2" || not (contains "ws2" (gather ("b" ∷ []) [] manager))))
listeners-broadcast_example =
    listeners-broadcast only_first ("b" ∷ []) "hello" "ws2" "a" manager manager-Tidy
