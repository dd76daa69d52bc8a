-- ===== src/WindowStore/Created.antt =====
-- tmux/window_state_store.py: the markers of created windows, which guard the fallback scan.
use unified_icc.Base.{
  ◌⊎◌, Option, String, Bool, true, false, not, ◌&&◌, ◌||◌, ◌≡◌, refl, ◌≢◌, none, some, List, [],
  ◌∷◌, arith, ◌==◌, eq_iff, ==_refl, contains, contains-nil, contains-add, contains-discard,
  contains-union, union, discard, discard-IsUnique, add, add-IsUnique, IsUnique, Bool-cases, inl,
  inr,
}
use unified_icc.Base.Dict.{
  Dict, get, put, get-put, has, HasUniqueKeys, put-HasUniqueKeys, set_default,
}
use unified_icc.WindowStore.{
  WindowStateStore, created_of, mark_window_created, is_created_window, discard_everywhere,
  remove_created_window, get_created_windows, union_all, new_store,
}

get-discard_everywhere_absent :
    (app w : String) (d : Dict (List String))
    → get app d ≡ none
    → get app (discard_everywhere w d) ≡ none
unfolding discard_everywhere get
get-discard_everywhere_absent app w [] h = refl
get-discard_everywhere_absent app w ((name, ws) ∷ d) h =
    ground (arith, get-discard_everywhere_absent app w d)

created_of-discard_everywhere :
    (app w : String) (d : Dict (List String))
    → HasUniqueKeys d
    → created_of app (discard_everywhere w d) ≡ discard w (created_of app d)
unfolding discard_everywhere get discard
created_of-discard_everywhere app w [] u = refl
created_of-discard_everywhere app w ((name, ws) ∷ d) u = ground (
  arith,
  created_of-discard_everywhere app w d u.1,
  get-discard_everywhere_absent app w d,
  eq_iff name app,
)

created_of-set_default :
    (app : String) (d : Dict (List String))
    → created_of app (set_default "" [] d) ≡ created_of app d
created_of-set_default app d = ground (arith, get-put app "" [] d, eq_iff "" app)

-- A window counts as created for the application it was marked for, and for every application if
-- that was the default one; marking one window changes nothing for another.
pub is_created-mark :
    (window_id app_name other app : String) (s : WindowStateStore)
    → is_created_window other app (mark_window_created window_id app_name s) ≡ (
        (window_id == other) && ((app_name == "") || (app_name == app))
        || is_created_window other app s)
unfolding is_created_window mark_window_created
is_created-mark window_id app_name other app s = ground (
  arith,
  get-put "" app_name (add window_id (created_of app_name s.created_windows)) s.created_windows,
  get-put app app_name (add window_id (created_of app_name s.created_windows)) s.created_windows,
  contains-add other window_id (created_of app_name s.created_windows),
  eq_iff app_name "",
  eq_iff app_name app,
)

-- After remove_created_window no application counts the window as created, and every other window
-- counts as it did, where no application has two entries.
pub is_created-remove :
    (window_id other app : String) (s : WindowStateStore)
    → HasUniqueKeys s.created_windows
    → is_created_window other app (remove_created_window window_id s)
      ≡ (not (window_id == other) && is_created_window other app s)
unfolding is_created_window remove_created_window
is_created-remove window_id other app s u =
    let d = discard_everywhere window_id s.created_windows in
    rw (created_of-set_default app d, created_of-set_default "" d)
      (rw
        (
          created_of-discard_everywhere app window_id s.created_windows u,
          created_of-discard_everywhere "" window_id s.created_windows u,
        )
        (ground (
          arith,
          contains-discard other window_id (created_of app s.created_windows),
          contains-discard other window_id (created_of "" s.created_windows),
        )))

-- Some application has the window.
abbrev any_created : String → Dict (List String) → Bool
any_created w [] = false
any_created w ((_, ws) ∷ d) = contains w ws || any_created w d

contains-union_all :
    (w : String) (result : List String) (d : Dict (List String))
    → contains w (union_all result d) ≡ (contains w result || any_created w d)
unfolding union_all
contains-union_all w result [] = ground arith
contains-union_all w result ((name, ws) ∷ d) =
    ground (arith, contains-union_all w (union result ws) d, contains-union w result ws)

any_created-discard_everywhere :
    (v w : String) (d : Dict (List String))
    → any_created v (discard_everywhere w d) ≡ (not (w == v) && any_created v d)
unfolding discard_everywhere
any_created-discard_everywhere v w [] = ground arith
any_created-discard_everywhere v w ((name, ws) ∷ d) =
    ground (arith, any_created-discard_everywhere v w d, contains-discard v w ws, contains-nil v)

any_created-put_missing :
    (v : String) (d : Dict (List String))
    → has "" d ≡ false
    → any_created v (put "" [] d) ≡ any_created v d
unfolding put get contains
any_created-put_missing v [] h = refl
any_created-put_missing v ((name, ws) ∷ d) h = ground (arith, any_created-put_missing v d)

any_created-set_default :
    (v : String) (d : Dict (List String)) → any_created v (set_default "" [] d) ≡ any_created v d
any_created-set_default v d = elim (Bool-cases (has "" d)) [
  | inl there ↦ rw there
  | inr missing ↦ rw missing (any_created-put_missing v d missing)
]

-- The list of all created windows loses the removed window and nothing else.
pub get_created-remove :
    (window_id other : String) (s : WindowStateStore)
    → contains other (get_created_windows "" (remove_created_window window_id s))
      ≡ (not (window_id == other) && contains other (get_created_windows "" s))
unfolding get_created_windows remove_created_window
get_created-remove window_id other s = ground (
  arith,
  contains-union_all other [] s.created_windows,
  contains-union_all other [] (set_default "" [] (discard_everywhere window_id s.created_windows)),
  any_created-set_default other (discard_everywhere window_id s.created_windows),
  any_created-discard_everywhere other window_id s.created_windows,
  contains-nil other,
)

unless_default :
    (app : String) (o : Option (List String))
    → (o ≡ some [] → app ≡ "")
    → (o ≢ some []) ⊎ (app ≡ "")
unless_default app o h = elim (Bool-cases (app == "")) [
  | inl default ↦ inr ((eq_iff app "").0 default)
  | inr other ↦ inl (λ e. ground (arith, (eq_iff app "").1 (h e), other))
]

-- Every application has one entry, the default one has one always, and no other entry is empty.
pub record IsTidy (d : Dict (List String)) : Type 0 where
  pub unique_keys : HasUniqueKeys d
  pub has_default : has "" d ≡ true
  pub nonempty : (app : String) → (get app d ≢ some []) ⊎ (app ≡ "")
  pub sets : (app : String) → IsUnique (created_of app d)

discard_everywhere-HasUniqueKeys :
    (w : String) (d : Dict (List String)) → HasUniqueKeys d → HasUniqueKeys (discard_everywhere w d)
unfolding discard_everywhere
discard_everywhere-HasUniqueKeys w [] u = tt
discard_everywhere-HasUniqueKeys w ((name, ws) ∷ d) u =
    ground (arith, discard_everywhere-HasUniqueKeys w d u.1, get-discard_everywhere_absent name w d)

-- No entry that the loop leaves is empty.
discard_everywhere_nonempty :
    (app w : String) (d : Dict (List String)) → get app (discard_everywhere w d) ≢ some []
unfolding discard_everywhere get
discard_everywhere_nonempty app w [] h = cc
discard_everywhere_nonempty app w ((name, ws) ∷ d) h =
    ground (arith, discard_everywhere_nonempty app w d)

-- remove_created_window keeps the markers tidy: one entry for each application, the default one
-- always there, no other entry empty, and no window twice in an entry.
pub remove-IsTidy :
    (window_id : String) (s : WindowStateStore)
    → IsTidy s.created_windows
    → IsTidy (remove_created_window window_id s).created_windows
unfolding remove_created_window
remove-IsTidy window_id s t =
    let d = discard_everywhere window_id s.created_windows in
    let unique = discard_everywhere-HasUniqueKeys window_id s.created_windows t.unique_keys in
    record {
      unique_keys = ground (arith, unique, put-HasUniqueKeys "" [] d);
      has_default = ground (arith, get-put "" "" [] d, ==_refl "");
      nonempty = λ app. unless_default app _ λ e. ground (
        arith,
        e,
        discard_everywhere_nonempty app window_id s.created_windows,
        get-put app "" [] d,
        eq_iff "" app,
      );
      sets = λ app.
          rw
            (
              created_of-set_default app d,
              created_of-discard_everywhere app window_id s.created_windows t.unique_keys,
            )
            (discard-IsUnique window_id (created_of app s.created_windows) (t.sets app));
    }

add-ne-nil : (a : String) (xs : List String) → add a xs ≢ []
unfolding add contains
add-ne-nil a [] h = cc
add-ne-nil a (x ∷ xs) h = ground arith

pub mark-IsTidy :
    (window_id app_name : String) (s : WindowStateStore)
    → IsTidy s.created_windows
    → IsTidy (mark_window_created window_id app_name s).created_windows
unfolding mark_window_created
mark-IsTidy window_id app_name s t =
    let windows = add window_id (created_of app_name s.created_windows) in
    record {
      unique_keys = put-HasUniqueKeys app_name windows s.created_windows t.unique_keys;
      has_default = ground (arith, get-put "" app_name windows s.created_windows, t.has_default);
      nonempty = λ app. unless_default app _ λ e. ground (
        arith,
        e,
        get-put app app_name windows s.created_windows,
        t.nonempty app,
        add-ne-nil window_id (created_of app_name s.created_windows),
      );
      sets = λ app. ground (
        arith,
        get-put app app_name windows s.created_windows,
        t.sets app,
        t.sets app_name,
        add-IsUnique window_id (created_of app_name s.created_windows),
      );
    }

pub new_store-IsTidy : IsTidy new_store.created_windows
unfolding get contains
new_store-IsTidy = record {
  unique_keys = (refl, tt);
  has_default = refl;
  nonempty = λ app. unless_default app _ λ h. ground (arith, h, eq_iff "" app);
  sets = λ app. ground (arith, eq_iff "" app);
}
