-- ===== src/Connections/Broadcast.antt =====
-- server/connection_manager.py: who hears a broadcast, and who is removed after it.
use unified_icc.Base.{
  String, Bool, not, ◌&&◌, ◌||◌, ◌≡◌, ap, List, [], ◌∷◌, ◌==◌, or_default, contains, contains-nil,
  union, union-IsUnique, contains-union, select, contains-select, is_empty, empty_nil, IsUnique,
  any, arith, eq_iff, Bool-cases, inl, inr,
}
use unified_icc.Base.Dict.{Dict, get}
use unified_icc.Connections.{
  ConnectionManager, listeners, minus, remove_everywhere, remove_connections, send_to_all, gather,
  broadcast_to_channels,
}
use unified_icc.Connections.Laws.{IsTidy, Tidy}

contains-removed :
    (ws c : String) (dead : List String) (d : Dict (List String))
    → IsTidy d
    → contains ws (or_default (get c (remove_everywhere dead d)) [])
      ≡ (not (contains ws dead) && contains ws (or_default (get c d) []))
unfolding remove_everywhere get
contains-removed ws c dead [] t = ground (arith, contains-nil ws)
contains-removed ws c dead ((j, conns) ∷ d) t =
    let rest = contains-removed ws c dead d t.2 in
    let left = contains-select (λ x. not (contains x dead)) ws conns in
    elim (Bool-cases (j == c)) [
      | inl same ↦ elim (Bool-cases (is_empty (minus dead conns))) [
        | inl e ↦
            rw (e, same)
              (ground (
                arith,
                rest,
                left,
                ap (contains ws) (empty_nil (minus dead conns) e),
                contains-nil ws,
                t.1,
                eq_iff j c,
                same,
              ))
        | inr e ↦ rw (e, same) left
      ]
      | inr other ↦ elim (Bool-cases (is_empty (minus dead conns))) [
        | inl e ↦ rw (e, other) rest
        | inr e ↦ rw (e, other) rest
      ]
    ]

module _ (accepts : String → Bool) where
  abbrev failed : List String → List String
  failed = select (λ ws. not (accepts ws))

  -- After a broadcast to some channels, every channel has the listeners that it had, less those
  -- that were sent the message and failed, where each channel stood once and had a listener.
  pub listeners-broadcast :
      (ids : List String) (message ws c : String) (s : ConnectionManager)
      → Tidy s
      → contains ws (listeners c (broadcast_to_channels accepts ids message s))
        ≡ (contains ws (listeners c s) && (accepts ws || not (contains ws (gather ids [] s))))
  unfolding broadcast_to_channels send_to_all remove_connections
  listeners-broadcast ids message ws c s t =
      let conns = gather ids [] s in
      let dead = contains-select (λ x. not (accepts x)) ws conns in
      elim (Bool-cases (is_empty (failed conns))) [
        | inl e ↦
            rw e
              (ground (arith, dead, ap (contains ws) (empty_nil (failed conns) e), contains-nil ws))
        | inr e ↦
            rw e (ground (arith, dead, contains-removed ws c (failed conns) s.subscriptions t))
      ]

gather_from :
    (ids seen : List String) (ws : String) (s : ConnectionManager)
    → contains ws (gather ids seen s)
      ≡ (contains ws seen || any (λ c. contains ws (listeners c s)) ids)
unfolding gather any
gather_from [] seen ws s = ground arith
gather_from (c ∷ ids) seen ws s = ground (
  arith,
  gather_from ids (union seen (listeners c s)) ws s,
  contains-union ws seen (listeners c s),
)

gather-IsUnique :
    (ids seen : List String) (s : ConnectionManager) → IsUnique seen → IsUnique (gather ids seen s)
unfolding gather
gather-IsUnique [] seen s u = u
gather-IsUnique (c ∷ ids) seen s u =
    gather-IsUnique ids (union seen (listeners c s)) s (union-IsUnique seen (listeners c s) u)

-- A message to some channels is sent once to each socket that listens to one of them, and to no
-- other.
pub gather_once :
    (ids : List String) (ws : String) (s : ConnectionManager)
    → IsUnique (gather ids [] s)
      × (contains ws (gather ids [] s) ≡ any (λ c. contains ws (listeners c s)) ids)
gather_once ids ws s =
    (gather-IsUnique ids [] s tt, ground (arith, gather_from ids [] ws s, contains-nil ws))
