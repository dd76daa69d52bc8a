-- ===== src/Connections/Laws.antt =====
-- server/connection_manager.py: no channel without listeners is kept.
use unified_icc.Base.{
  String, Bool, false, not, ◌≡◌, refl, Option, none, some, List, [], ◌∷◌, add, add_nonempty,
  discard, select, is_empty, arith, eq_iff, Bool-cases, inl, inr,
}
use unified_icc.Base.Dict.{Dict, get, get-nil, put, get-put, pop, get-pop}
use unified_icc.Connections.{
  ConnectionManager, listeners, subscribe, unsubscribe, without, minus, remove_everywhere,
  remove_connections, remove_connection, send_to_all, send_to, gather, broadcast_to_channel,
  broadcast_to_channels, broadcast_global, Request, join, leave, join_global, leave_global, tell,
  tell_channel, tell_channels, tell_all, serve, serve_all, subscribe_global, unsubscribe_global,
}

-- Each channel stands once, and has a listener.
abbrev pub IsTidy : Dict (List String) → Type 0
IsTidy [] = Unit {0}
IsTidy ((c, conns) ∷ d) = (is_empty conns ≡ false) × (get c d ≡ none) × IsTidy d

put-IsTidy :
    (c : String) (conns : List String) (d : Dict (List String))
    → is_empty conns ≡ false
    → IsTidy d
    → IsTidy (put c conns d)
unfolding put
put-IsTidy c conns [] full t = (full, get-nil c, tt)
put-IsTidy c conns ((j, v) ∷ d) full t =
    ground (arith, full, put-IsTidy c conns d full t.2, get-put j c conns d, eq_iff j c, eq_iff c j)

pop-IsTidy : (c : String) (d : Dict (List String)) → IsTidy d → IsTidy (pop c d)
unfolding pop
pop-IsTidy c [] t = tt
pop-IsTidy c ((j, v) ∷ d) t = ground (arith, pop-IsTidy c d t.2, get-pop j c d)

without-IsTidy :
    (c ws : String) (o : Option (List String)) (d : Dict (List String))
    → IsTidy d
    → IsTidy (without c ws o d)
unfolding without
without-IsTidy c ws none d t = t
without-IsTidy c ws (some conns) d t = elim (Bool-cases (is_empty (discard ws conns))) [
  | inl e ↦ rw e (pop-IsTidy c d t)
  | inr e ↦ rw e (put-IsTidy c (discard ws conns) d e t)
]

absent-remove_everywhere :
    (dead : List String) (c : String) (d : Dict (List String))
    → get c d ≡ none
    → get c (remove_everywhere dead d) ≡ none
unfolding remove_everywhere get
absent-remove_everywhere dead c [] h = refl
absent-remove_everywhere dead c ((j, conns) ∷ d) h =
    elim (Bool-cases (is_empty (minus dead conns))) [
      | inl e ↦ rw e (ground (arith, absent-remove_everywhere dead c d, h))
      | inr e ↦ rw e (ground (arith, absent-remove_everywhere dead c d, h))
    ]

remove_everywhere-IsTidy :
    (dead : List String) (d : Dict (List String)) → IsTidy d → IsTidy (remove_everywhere dead d)
unfolding remove_everywhere
remove_everywhere-IsTidy dead [] t = tt
remove_everywhere-IsTidy dead ((j, conns) ∷ d) t = elim (Bool-cases (is_empty (minus dead conns))) [
  | inl e ↦ rw e (remove_everywhere-IsTidy dead d t.2)
  | inr e ↦ rw e (e, absent-remove_everywhere dead j d t.1, remove_everywhere-IsTidy dead d t.2)
]

abbrev pub Tidy : ConnectionManager → Type 0
Tidy s = IsTidy s.subscriptions

send_to_all-Tidy :
    (accepts : String → Bool) (conns : List String) (message : String) (s : ConnectionManager)
    → Tidy s
    → Tidy (send_to_all accepts conns message s)
unfolding send_to_all remove_connections
send_to_all-Tidy accepts conns message s t =
    let dead = select (λ ws. not (accepts ws)) conns in
    elim (Bool-cases (is_empty dead)) [
      | inl e ↦ rw e t
      | inr e ↦ rw e (remove_everywhere-IsTidy dead s.subscriptions t)
    ]

serve-Tidy :
    (accepts : String → Bool) (r : Request) (s : ConnectionManager)
    → Tidy s
    → Tidy (serve accepts r s)
unfolding serve subscribe unsubscribe subscribe_global unsubscribe_global send_to remove_connection
    remove_connections broadcast_to_channel broadcast_to_channels broadcast_global
serve-Tidy accepts (join c ws) s t =
    put-IsTidy c (add ws (listeners c s)) s.subscriptions (add_nonempty ws (listeners c s)) t
serve-Tidy accepts (leave c ws) s t = without-IsTidy c ws (get c s.subscriptions) s.subscriptions t
serve-Tidy accepts (join_global ws) s t = t
serve-Tidy accepts (leave_global ws) s t = t
serve-Tidy accepts (tell ws message) s t = elim (Bool-cases (accepts ws)) [
  | inl e ↦ rw e t
  | inr e ↦ rw e (remove_everywhere-IsTidy (ws ∷ []) s.subscriptions t)
]
serve-Tidy accepts (tell_channel c message) s t =
    send_to_all-Tidy accepts (listeners c s) message s t
serve-Tidy accepts (tell_channels ids message) s t =
    send_to_all-Tidy accepts (gather ids [] s) message s t
serve-Tidy accepts (tell_all message) s t = send_to_all-Tidy accepts s.global message s t

-- Whatever was asked of a manager, in any order and with any failures of sockets, each channel
-- that it keeps stands once and has a listener, where this held before.
pub serve_all-Tidy :
    (rs : List ((String → Bool) × Request)) (s : ConnectionManager) → Tidy s → Tidy (serve_all rs s)
unfolding serve_all
serve_all-Tidy [] s t = t
serve_all-Tidy ((accepts, r) ∷ rs) s t =
    serve_all-Tidy rs (serve accepts r s) (serve-Tidy accepts r s t)
