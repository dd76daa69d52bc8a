-- ===== src/Router/Index.antt =====
-- core/channel_router.py: the reverse index against the bindings.
use unified_icc.Base.{
  String, true, ◌≡◌, refl, ◌≢◌, Option, none, some, List, [], ◌∷◌, ◌++◌, arith, if◌then◌else◌, ◌==◌,
  eq_iff, ==_refl, points_to, contains, contains-nil, contains-cons, contains-append,
  contains-discard, discard, discard-IsUnique, append-IsUnique, IsUnique, Bool-cases, inl, inr,
}
use unified_icc.Base.Dict.{Dict, get, put, pop, get-nil, get-put, get-pop, has, HasUniqueKeys}
use unified_icc.Router.{Routing, channels_of, remove_from_reverse, append_channel, rebuild}

-- The index lists a channel under a window exactly when the channel is bound to it, once, and has
-- no window with an empty list.
pub record Agrees (bindings : Dict String) (reverse : Dict (List String)) : Type 0 where
  pub lists :
      (channel_id window_id : String)
      → contains channel_id (channels_of window_id reverse)
        ≡ points_to (get channel_id bindings) window_id
  pub nonempty : (window_id : String) → get window_id reverse ≢ some []
  pub once : (window_id : String) → IsUnique (channels_of window_id reverse)

abbrev pub IsConsistent : Routing → Type 0
IsConsistent s = Agrees s.bindings s.reverse

pub Agrees-ext :
    {b b' : Dict String} {r : Dict (List String)}
    → ((k : String) → get k b' ≡ get k b)
    → Agrees b r
    → Agrees b' r
Agrees-ext same a = record {
  lists = λ c w. rw same (a.lists c w);
  nonempty = a.nonempty;
  once = a.once;
}

pub channels_of-remove :
    (v c w : String) (r : Dict (List String))
    → channels_of v (remove_from_reverse c w r)
      ≡ (if w == v then discard c (channels_of v r) else channels_of v r)
unfolding remove_from_reverse discard
channels_of-remove v c w r = elim (Bool-cases (w == v)) [
  | inl same ↦
      let e : w ≡ v = (eq_iff w v).0 same in
      rw e (ground (arith, get-pop v v r, get-put v v (discard c (channels_of v r)) r, ==_refl v))
  | inr other ↦ ground (arith, get-pop v w r, get-put v w (discard c (channels_of w r)) r)
]

remove_nonempty :
    (v c w : String) (r : Dict (List String))
    → get v r ≢ some []
    → get v (remove_from_reverse c w r) ≢ some []
unfolding remove_from_reverse
remove_nonempty v c w r h =
    ground (arith, get-pop v w r, get-put v w (discard c (channels_of w r)) r)

-- A bound channel leaves the bindings and the index together.
pub unlink-Agrees :
    (c w : String) {b : Dict String} {r : Dict (List String)}
    → get c b ≡ some w
    → Agrees b r
    → Agrees (pop c b) (remove_from_reverse c w r)
unlink-Agrees c w {b} {r} bound a = record {
  lists = λ d v. ground (
    arith,
    channels_of-remove v c w r,
    contains-discard d c (channels_of v r),
    get-pop d c b,
    a.lists d v,
    eq_iff c d,
    eq_iff w v,
  );
  nonempty = λ v. remove_nonempty v c w r (a.nonempty v);
  once = λ v. ground (
    arith,
    channels_of-remove v c w r,
    discard-IsUnique c (channels_of v r) (a.once v),
    a.once v,
  );
}

append-ne-nil {ℓ} : {A : Type ℓ} (xs : List A) (x : A) → xs ++ x ∷ [] ≢ []
append-ne-nil [] x h = cc
append-ne-nil (y ∷ ys) x h = cc

-- A channel that is not bound enters both.
pub link-Agrees :
    (c w : String) {b : Dict String} {r : Dict (List String)}
    → get c b ≡ none
    → Agrees b r
    → Agrees (put c w b) (append_channel c w r)
unfolding append_channel
link-Agrees c w {b} {r} free a =
    let listed = channels_of w r ++ c ∷ [] in
    record {
      lists = λ d v. ground (
        arith,
        get-put v w listed r,
        get-put d c w b,
        contains-append d (channels_of w r) (c ∷ []),
        contains-cons d c [],
        contains-nil d,
        a.lists d v,
        a.lists d w,
        eq_iff c d,
        eq_iff w v,
      );
      nonempty = λ v.
          ground (arith, get-put v w listed r, a.nonempty v, append-ne-nil (channels_of w r) c);
      once = λ v. ground (
        arith,
        get-put v w listed r,
        a.once v,
        a.once w,
        a.lists c w,
        append-IsUnique c (channels_of w r),
      );
    }

-- The bindings that a rebuild has read, over those that it began with.
abbrev read_over : Dict String → Dict String → String → Option String
read_over d b k = elim (get k d) [ none ↦ get k b | some w ↦ some w ]

rebuild_from :
    (d : Dict String) (b : Dict String) (r : Dict (List String))
    → HasUniqueKeys d
    → ((k : String) → has k d ≡ true → get k b ≡ none)
    → Agrees b r
    → (b' : Dict String) × ((k : String) → get k b' ≡ read_over d b k) × Agrees b' (rebuild d r)
unfolding rebuild get
rebuild_from [] b r u apart a = (b, λ k. refl, a)
rebuild_from ((c, w) ∷ d) b r u apart a =
    let (b', same, a') =
      rebuild_from d (put c w b) (append_channel c w r) u.1
        (λ k h. ground (arith, get-put k c w b, apart k, eq_iff c k))
        (link-Agrees c w (apart c (ground (arith, ==_refl c))) a) in
    (b', λ k. ground (arith, same k, get-put k c w b, eq_iff c k), a')

Agrees-nil : Agrees [] []
unfolding get
Agrees-nil = record { lists = λ c w. contains-nil c; nonempty = λ w h. cc; once = λ w. tt }

-- The index that is rebuilt from any bindings agrees with them.
pub rebuild-Agrees : (b : Dict String) → HasUniqueKeys b → Agrees b (rebuild b [])
unfolding get
rebuild-Agrees b u =
    let (b', same, a) = rebuild_from b [] [] u (λ k h. get-nil k) Agrees-nil in
    Agrees-ext (λ k. ground (arith, same k, get-nil {V = String} k)) a
