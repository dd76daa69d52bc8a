-- ===== src/Router/Eviction.antt =====
-- core/channel_router.py: how `bind` frees a channel and a window of their old bindings.
use unified_icc.Base.{
  String, true, false, ◌≡◌, refl, ap, sym, ◌∙◌, ◌≢◌, Option, none, some, List, [], ◌∷◌, arith,
  if◌then◌else◌, ◌==◌, eq_iff, ==_refl, points_to, contains, contains-nil, contains-cons, discard,
  discard_absent, IsUnique, is_empty, Option-cases, inl, inr,
}
use unified_icc.Base.Dict.{Dict, get, pop, get-pop}
use unified_icc.Router.{
  Routing, channels_of, remove_from_reverse, is_orphan, retire, leave, evict, evict_stale,
}
use unified_icc.Router.Index.{Agrees, IsConsistent, Agrees-ext, channels_of-remove, unlink-Agrees}

module _ (w : String) (s : Routing) where
  bindings-retire : (retire w s).bindings ≡ s.bindings
  unfolding retire
  bindings-retire = ground arith

  reverse-retire : (retire w s).reverse ≡ s.reverse
  unfolding retire
  reverse-retire = ground arith

  kills-retire : (retire w s).kills ≡ (if is_orphan w s then w ∷ s.kills else s.kills)
  unfolding retire
  kills-retire = ground arith

-- A channel that is about to be bound has left its old window: the index agrees with the bindings
-- of the other channels.
abbrev AgreesBut : String → Routing → Type 0
AgreesBut c s = Agrees (pop c s.bindings) s.reverse

pub leave-AgreesBut :
    (c : String) (s : Routing) → IsConsistent s → AgreesBut c (leave c (get c s.bindings) s)
leave-AgreesBut c s a = elim (Option-cases (get c s.bindings)) [
  | inl e ↦
      rw e (unfold leave in Agrees-ext (λ k. ground (arith, get-pop k c s.bindings, eq_iff c k)) a)
  | inr (old, e) ↦
      rw e (unfold leave in rw (bindings-retire, reverse-retire) (unlink-Agrees c old e a))
]

pub bindings-leave :
    (c : String) (o : Option String) (s : Routing) → (leave c o s).bindings ≡ s.bindings
unfolding leave
bindings-leave c none s = refl
bindings-leave c (some old) s = bindings-retire old _

pub points_to-true : (o : Option String) (w : String) → points_to o w ≡ true → o ≡ some w
points_to-true none w h = cc
points_to-true (some v) w h = ap some ((eq_iff v w).0 h)

discard_head : (d : String) (ds : List String) → contains d ds ≡ false → discard d (d ∷ ds) ≡ ds
unfolding discard
discard_head d ds h = rw (==_refl d) (discard_absent d ds h)

-- What evicting the channel `d` of the window `w` leaves.
record Evicted (c w d : String) (s s' : Routing) : Type 0 where
  agrees : AgreesBut c s'
  removed : s'.bindings ≡ pop d s.bindings
  listed : channels_of w s'.reverse ≡ discard d (channels_of w s.reverse)
  killed :
      s'.kills ≡ (if is_empty (discard d (channels_of w s.reverse)) then w ∷ s.kills else s.kills)

evict-Evicted :
    (c w d : String) (s : Routing)
    → AgreesBut c s
    → d ≢ c
    → contains d (channels_of w s.reverse) ≡ true
    → (s' : Routing) × (evict w d s ≡ some s') × Evicted c w d s s'
evict-Evicted c w d s a ne listed =
    let bound : get d (pop c s.bindings) ≡ some w =
      points_to-true (get d (pop c s.bindings)) w (sym (a.lists d w) ∙ listed) in
    let bound' : get d s.bindings ≡ some w =
      ground (arith, bound, get-pop d c s.bindings, eq_iff c d) in
    let moved = record s {
      router = record s.router {
        bindings = pop d s.bindings;
        channel_meta = pop d s.channel_meta;
        reverse = remove_from_reverse d w s.reverse;
      };
    } in
    let left : channels_of w (remove_from_reverse d w s.reverse)
        ≡ discard d (channels_of w s.reverse) =
      ground (arith, channels_of-remove w d w s.reverse, ==_refl w) in
    (
      retire w moved,
      unfold evict in rw bound',
      record {
        agrees =
            rw (bindings-retire w moved, reverse-retire w moved)
              (Agrees-ext
                (λ k. ground (
                  arith,
                  get-pop k c (pop d s.bindings),
                  get-pop k d s.bindings,
                  get-pop k d (pop c s.bindings),
                  get-pop k c s.bindings,
                ))
                (unlink-Agrees d w bound a));
        removed = bindings-retire w moved;
        listed = rw (reverse-retire w moved) left;
        killed = kills-retire w moved ∙ rw left;
      },
    )

-- What evicting all the channels `ds` of the window `w` leaves.
pub record Emptied (c w : String) (ds : List String) (s s' : Routing) : Type 0 where
  pub agrees : AgreesBut c s'
  pub emptied : channels_of w s'.reverse ≡ []
  pub removed :
      (k : String) → get k s'.bindings ≡ (if contains k ds then none else get k s.bindings)
  pub killed : s'.kills ≡ (if is_empty ds then s.kills else w ∷ s.kills)

pub evict_stale-Emptied :
    (c w : String) (ds : List String) (s : Routing)
    → AgreesBut c s
    → channels_of w s.reverse ≡ ds
    → contains c ds ≡ false
    → IsUnique ds
    → (s' : Routing) × (evict_stale c w ds s ≡ some s') × Emptied c w ds s s'
unfolding evict_stale
evict_stale-Emptied c w [] s a e absent u =
    (s, refl, record { agrees = a; emptied = e; removed = λ k. rw contains-nil; killed = refl })
evict_stale-Emptied c w (d ∷ ds) s a e absent u =
    let other : (d == c) ≡ false = ground (arith, absent, contains-cons c d ds) in
    let (s₁, evicted, h) =
      evict-Evicted c w d s a (λ same. ground (arith, other, same, ==_refl c))
        (rw e (ground (arith, contains-cons d d ds, ==_refl d))) in
    let left : discard d (d ∷ ds) ≡ ds = discard_head d ds u.0 in
    let (s₂, rest, h') =
      evict_stale-Emptied c w ds s₁ h.agrees (h.listed ∙ rw e left)
        (ground (arith, absent, contains-cons c d ds)) u.1 in
    (
      s₂,
      rw (other, evicted) rest,
      record {
        agrees = h'.agrees;
        emptied = h'.emptied;
        removed = λ k. ground (
          arith,
          h'.removed k,
          contains-cons k d ds,
          ap (get k) h.removed,
          get-pop k d s.bindings,
        );
        killed = ground (arith, h'.killed, h.killed, ap (discard d) e, left);
      },
    )

pub channels_of-leave :
    (c w : String) (o : Option String) (s : Routing)
    → o ≢ some w
    → channels_of w (leave c o s).reverse ≡ channels_of w s.reverse
unfolding leave
channels_of-leave c w none s ne = refl
channels_of-leave c w (some old) s ne =
    rw (reverse-retire, channels_of-remove w c old s.reverse) (ground (arith, eq_iff old w, ne))

pub channels_of-pop_empty :
    (v w : String) (r : Dict (List String))
    → channels_of w r ≡ []
    → channels_of v (pop w r) ≡ channels_of v r
channels_of-pop_empty v w r e = ground (arith, get-pop v w r, eq_iff w v)

pub pop_empty-Agrees :
    (w : String) {b : Dict String} {r : Dict (List String)}
    → channels_of w r ≡ []
    → Agrees b r
    → Agrees b (pop w r)
pop_empty-Agrees w {b} {r} e a = record {
  lists = λ c v. rw (channels_of-pop_empty v w r e) (a.lists c v);
  nonempty = λ v. ground (arith, get-pop v w r, a.nonempty v);
  once = λ v. rw (channels_of-pop_empty v w r e) (a.once v);
}
