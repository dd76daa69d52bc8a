-- ===== src/Router/Binding.antt =====
-- core/channel_router.py: what `bind` leaves, and what it kills.
use unified_icc.Base.{
  String, false, ◌≡◌, ap, ◌≢◌, none, some, [], ◌∷◌, ◌++◌, arith, if◌then◌else◌, ◌==◌, eq_iff,
  ==_refl, ==_of_ne, points_to, contains-nil, is_empty,
}
use unified_icc.Base.Dict.{get, pop, get-put, get-pop}
use unified_icc.Router.{Routing, channels_of, append_channel, leave, apply_binding, bind}
use unified_icc.Router.Index.{IsConsistent, Agrees-ext, link-Agrees}
use unified_icc.Router.Eviction.{
  leave-AgreesBut, bindings-leave, points_to-true, Emptied, evict_stale-Emptied, channels_of-leave,
  channels_of-pop_empty, pop_empty-Agrees,
}

-- What `bind` leaves in a consistent routing, where the channel was not bound to the window.
pub record Bound (c w : String) (s s' : Routing) : Type 0 where
  pub consistent : IsConsistent s'
  pub bound : get c s'.bindings ≡ some w
  pub alone : channels_of w s'.reverse ≡ c ∷ []
  pub others :
      (k : String)
      → get k s'.bindings ≡ (
          if k == c
          then some w
          else if points_to (get k s.bindings) w
          then none
          else get k s.bindings)
  pub killed : s'.kills ≡ (
      if is_empty (channels_of w s.reverse)
      then (leave c (get c s.bindings) s).kills
      else w ∷ (leave c (get c s.bindings) s).kills)

bound_lem :
    (c w user_id display_name : String) (s s' : Routing)
    → Emptied c w (channels_of w s.reverse) (leave c (get c s.bindings) s) s'
    → IsConsistent s
    → Bound c w s (apply_binding c w user_id display_name s')
unfolding apply_binding append_channel
bound_lem c w user_id display_name s s' h a = record {
  consistent =
      Agrees-ext
        (λ k. ground (
          arith,
          get-put k c w s'.bindings,
          get-put k c w (pop c s'.bindings),
          get-pop k c s'.bindings,
        ))
        (link-Agrees c w (ground (arith, get-pop c c s'.bindings, ==_refl c))
          (pop_empty-Agrees w h.emptied h.agrees));
  bound = ground (arith, get-put c c w s'.bindings, ==_refl c);
  alone = ground (
    arith,
    get-put w w (channels_of w (pop w s'.reverse) ++ c ∷ []) (pop w s'.reverse),
    channels_of-pop_empty w w s'.reverse h.emptied,
    h.emptied,
    ==_refl w,
  );
  others = λ k. ground (
    arith,
    get-put k c w s'.bindings,
    eq_iff c k,
    eq_iff k c,
    h.removed k,
    a.lists k w,
    ap (get k) (bindings-leave c (get c s.bindings) s),
  );
  killed = h.killed;
}

-- In a routing whose reverse index agrees with its bindings, binding a channel to a window that it
-- is not bound to already never raises. The index agrees again afterwards, the channel is bound to
-- the window and is its only channel, the other bindings to the window are gone and all further
-- ones stay, and the window is killed in addition exactly if it had a channel.
pub bind-Bound :
    (c w user_id display_name : String) (s : Routing)
    → IsConsistent s
    → get c s.bindings ≢ some w
    → (s' : Routing) × (bind c w user_id display_name s ≡ some s') × Bound c w s s'
unfolding bind
bind-Bound c w user_id display_name s a new =
    let l = leave c (get c s.bindings) s in
    let ds = channels_of w s.reverse in
    let same : channels_of w l.reverse ≡ ds = channels_of-leave c w (get c s.bindings) s new in
    let fresh : points_to (get c s.bindings) w ≡ false =
      ground (arith, points_to-true (get c s.bindings) w, new) in
    let la = leave-AgreesBut c s a in
    let (s', freed, h) = evict_stale-Emptied c w ds l la same (rw (a.lists c w) fresh) (a.once w) in
    (
      apply_binding c w user_id display_name s',
      rw (fresh, same, freed),
      bound_lem c w user_id display_name s s' h a,
    )

-- In a consistent routing, binding a channel to a window that it is not bound to and another
-- channel is takes the window from that channel, and kills the very window that the channel is
-- bound to afterwards.
pub bind_kills_taken :
    (c d w user_id display_name : String) (s : Routing)
    → IsConsistent s
    → get c s.bindings ≢ some w
    → get d s.bindings ≡ some w
    → (s' : Routing) × (bind c w user_id display_name s ≡ some s')
      × (get c s'.bindings ≡ some w)
      × (get d s'.bindings ≡ none)
      × (s'.kills ≡ w ∷ (leave c (get c s.bindings) s).kills)
bind_kills_taken c d w user_id display_name s a new taken =
    let (s', done, h) = bind-Bound c w user_id display_name s a new in
    (
      s',
      done,
      h.bound,
      ground (arith, h.others d, ==_of_ne d c (λ same. new (rw (← same) taken)), taken, ==_refl w),
      ground (arith, h.killed, a.lists d w, taken, ==_refl w, contains-nil d),
    )
