-- ===== src/Router/Unbinding.antt =====
-- core/channel_router.py: what `unbind` and `unbind_window` leave, and what they kill.
use unified_icc.Base.{
  String, Bool, true, ◌≡◌, ap, sym, ◌∙◌, ◌≢◌, Option, none, some, ◌∷◌, arith, if◌then◌else◌, ◌==◌,
  eq_iff, points_to, contains, contains-nil, is_empty, Bool-cases, Option-cases, inl, inr,
}
use unified_icc.Base.Dict.{get, pop, get-pop, pop_all, get-pop_all}
use unified_icc.Router.{Routing, channels_of, remove_from_reverse, unbind, unbind_window}
use unified_icc.Router.Index.{IsConsistent, unlink-Agrees}

points_to_once :
    (o : Option String) (w v : String) → points_to o w ≡ true → points_to o v ≡ true → w ≡ v
points_to_once none w v h k = cc
points_to_once (some u) w v h k = sym ((eq_iff u w).0 h) ∙ (eq_iff u v).0 k

-- unbind removes the binding of its channel and no other.
pub get-unbind :
    (c k : String) (s : Routing)
    → get k (unbind c s).bindings ≡ (if c == k then none else get k s.bindings)
unfolding unbind
get-unbind c k s = ground (arith, get-pop k c s.bindings, eq_iff c k)

-- In a consistent routing, unbind leaves a reverse index that agrees with the bindings.
pub unbind-IsConsistent : (c : String) (s : Routing) → IsConsistent s → IsConsistent (unbind c s)
unfolding unbind
unbind-IsConsistent c s a = elim (Option-cases (get c s.bindings)) [
  | inl e ↦ rw (e, unbind) a
  | inr (w, e) ↦
      let freed = unlink-Agrees c w e a in
      elim (Bool-cases (is_empty (channels_of w (remove_from_reverse c w s.reverse)))) [
        | inl orphan ↦ rw (e, unbind, orphan) freed
        | inr held ↦ rw (e, unbind, held) freed
      ]
]

-- `unbind` kills the window of a bound channel even where the window keeps another channel, which
-- goes on resolving to it; it kills nothing for a channel that is not bound.
pub kills-unbind :
    (c : String) (s : Routing)
    → (unbind c s).kills ≡ (elim (get c s.bindings) [ none ↦ s.kills | some w ↦ w ∷ s.kills ])
unfolding unbind
kills-unbind c s = ground arith

-- A window that two different channels are bound to is killed when one of them is unbound, and the
-- other channel is bound to it still.
pub unbind_kills_shared :
    (c d w : String) (s : Routing)
    → c ≢ d
    → get c s.bindings ≡ some w
    → get d s.bindings ≡ some w
    → ((unbind c s).kills ≡ w ∷ s.kills) × (get d (unbind c s).bindings ≡ some w)
unbind_kills_shared c d w s ne bound shared =
    (kills-unbind c s ∙ rw bound, ground (arith, get-unbind c d s, eq_iff c d, shared))

module _ (w : String) (kill : Bool) (s : Routing) where
  bindings-unbind_window :
      (unbind_window w kill s).1.bindings ≡ pop_all (channels_of w s.reverse) s.bindings
  unfolding unbind_window
  bindings-unbind_window = ground arith

  reverse-unbind_window : (unbind_window w kill s).1.reverse ≡ pop w s.reverse
  unfolding unbind_window
  reverse-unbind_window = ground arith

  -- In a consistent routing, unbind_window removes the bindings to its window and no others,
  -- returns exactly the channels that were bound to it, and kills the window exactly if it is told
  -- to.
  pub unbind_window_lem :
      IsConsistent s
      → ((c : String) → contains c (unbind_window w kill s).0 ≡ points_to (get c s.bindings) w)
        × ((c : String)
            → get c (unbind_window w kill s).1.bindings
              ≡ (if points_to (get c s.bindings) w then none else get c s.bindings))
        × ((unbind_window w kill s).1.kills ≡ (if kill then w ∷ s.kills else s.kills))
  unfolding unbind_window
  unbind_window_lem a = (
    λ c. a.lists c w,
    λ c. ground (
      arith,
      ap (get c) bindings-unbind_window,
      get-pop_all c (channels_of w s.reverse) s.bindings,
      a.lists c w,
    ),
    ground arith,
  )

  -- In a consistent routing, unbind_window leaves a reverse index that agrees with the bindings.
  pub unbind_window-IsConsistent : IsConsistent s → IsConsistent (unbind_window w kill s).1
  unbind_window-IsConsistent a =
      rw (bindings-unbind_window, reverse-unbind_window)
        (record {
          lists = λ c v. ground (
            arith,
            get-pop v w s.reverse,
            get-pop_all c (channels_of w s.reverse) s.bindings,
            a.lists c w,
            a.lists c v,
            eq_iff w v,
            contains-nil c,
            points_to_once (get c s.bindings) w v,
          );
          nonempty = λ v. ground (arith, get-pop v w s.reverse, a.nonempty v);
          once = λ v. ground (arith, get-pop v w s.reverse, a.once v);
        })
