-- ===== src/Connections.antt =====
-- server/connection_manager.py: which sockets listen to which channels. A socket is named by a text,
-- and `accepts` tells whether `send_json` succeeds for it. `sent` holds the deliveries, newest first.
-- The lock makes each block under it one step.
pub mod Laws
pub mod Broadcast
mod Tests
use unified_icc.Base.{
  ℕ, ◌+◌, String, Bool, true, false, not, ◌&&◌, ◌||◌, Option, none, some, List, [], ◌∷◌, ◌++◌,
  if◌then◌else◌, ◌==◌, or_default, contains, add, union, discard, select, is_empty, length,
}
use unified_icc.Base.Dict.{Dict, get, put, pop, keys}

pub record ConnectionManager : Type 0 where
  pub subscriptions : Dict (List String)
  pub global : List String
  pub sent : List (String × String)

abbrev pub new_manager : ConnectionManager
new_manager = record { subscriptions = []; global = []; sent = [] }

-- `self._subscriptions.get(channel_id, set())`
abbrev pub listeners : String → ConnectionManager → List String
listeners channel_id s = or_default (get channel_id s.subscriptions) []

unfoldable pub subscribe : String → String → ConnectionManager → ConnectionManager
subscribe channel_id ws s = record s {
  subscriptions = put channel_id (add ws (listeners channel_id s)) s.subscriptions;
}

without : String → String → Option (List String) → Dict (List String) → Dict (List String)
without channel_id ws none d = d
without channel_id ws (some conns) d =
    let left = discard ws conns in if is_empty left then pop channel_id d else put channel_id left d

unfoldable pub unsubscribe : String → String → ConnectionManager → ConnectionManager
unfolding without
unsubscribe channel_id ws s = record s {
  subscriptions = without channel_id ws (get channel_id s.subscriptions) s.subscriptions;
}

unfoldable pub subscribe_global : String → ConnectionManager → ConnectionManager
subscribe_global ws s = record s { global = add ws s.global }

unfoldable pub unsubscribe_global : String → ConnectionManager → ConnectionManager
unsubscribe_global ws s = record s { global = discard ws s.global }

-- `conns -= dead_set`
abbrev pub minus : List String → List String → List String
minus dead conns = select (λ ws. not (contains ws dead)) conns

-- The loop over the channels: one that nobody listens to is deleted.
unfoldable pub remove_everywhere : List String → Dict (List String) → Dict (List String)
remove_everywhere dead [] = []
remove_everywhere dead ((channel_id, conns) ∷ d) =
    let rest = remove_everywhere dead d in
    if is_empty (minus dead conns) then rest else (channel_id, minus dead conns) ∷ rest

unfoldable pub remove_connections : List String → ConnectionManager → ConnectionManager
remove_connections dead s = record s {
  subscriptions = remove_everywhere dead s.subscriptions;
  global = minus dead s.global;
}

unfoldable pub remove_connection : String → ConnectionManager → ConnectionManager
remove_connection ws s = remove_connections (ws ∷ []) s

-- The sockets of some channels, each once, after those already seen.
unfoldable pub gather : List String → List String → ConnectionManager → List String
gather [] seen s = seen
gather (channel_id ∷ ids) seen s = gather ids (union seen (listeners channel_id s)) s

module _ (accepts : String → Bool) where
  unfoldable pub deliver : List String → String → List (String × String) → List (String × String)
  deliver [] message sent = sent
  deliver (ws ∷ conns) message sent =
      deliver conns message (if accepts ws then (ws, message) ∷ sent else sent)

  -- The sockets that fail are removed afterwards, if there are any.
  unfoldable pub send_to_all : List String → String → ConnectionManager → ConnectionManager
  send_to_all conns message s =
      let dead = select (λ ws. not (accepts ws)) conns in
      let tried = record s { sent = deliver conns message s.sent } in
      if is_empty dead then tried else remove_connections dead tried

  unfoldable pub send_to : String → String → ConnectionManager → ConnectionManager
  send_to ws message s =
      if accepts ws then record s { sent = (ws, message) ∷ s.sent } else remove_connection ws s

  unfoldable pub broadcast_to_channel : String → String → ConnectionManager → ConnectionManager
  broadcast_to_channel channel_id message s = send_to_all (listeners channel_id s) message s

  unfoldable pub broadcast_to_channels :
      List String → String → ConnectionManager → ConnectionManager
  broadcast_to_channels channel_ids message s = send_to_all (gather channel_ids [] s) message s

  unfoldable pub broadcast_global : String → ConnectionManager → ConnectionManager
  broadcast_global message s = send_to_all s.global message s

unfoldable pub channel_count : ConnectionManager → ℕ
channel_count s = length s.subscriptions

unfoldable pub total_in : Dict (List String) → ℕ
total_in [] = 0
total_in ((_, conns) ∷ d) = length conns + total_in d

unfoldable pub total_connections : ConnectionManager → ℕ
total_connections s = length s.global + total_in s.subscriptions

-- What the routes ask of the manager.
pub data Request : Type 0 where
  join leave : String → String → Request
  join_global leave_global : String → Request
  tell : String → String → Request
  tell_channel : String → String → Request
  tell_channels : List String → String → Request
  tell_all : String → Request

-- A request, where the sockets fail as `accepts` says.
unfoldable pub serve : (String → Bool) → Request → ConnectionManager → ConnectionManager
serve accepts (join channel_id ws) s = subscribe channel_id ws s
serve accepts (leave channel_id ws) s = unsubscribe channel_id ws s
serve accepts (join_global ws) s = subscribe_global ws s
serve accepts (leave_global ws) s = unsubscribe_global ws s
serve accepts (tell ws message) s = send_to accepts ws message s
serve accepts (tell_channel channel_id message) s =
    broadcast_to_channel accepts channel_id message s
serve accepts (tell_channels ids message) s = broadcast_to_channels accepts ids message s
serve accepts (tell_all message) s = broadcast_global accepts message s

-- Requests in their order, each with the sockets that accept at that time.
unfoldable pub serve_all : List ((String → Bool) × Request) → ConnectionManager → ConnectionManager
serve_all [] s = s
serve_all ((accepts, r) ∷ rs) s = serve_all rs (serve accepts r s)
