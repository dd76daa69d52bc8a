-- ===== src/Session/Audit/Laws.antt =====
-- core/session.py: what the categories of an audit stand for, and that the prunings answer them.
use unified_icc.Base.{
  ℕ, ◌+◌, String, Bool, false, not, ◌&&◌, ◌||◌, ◌≡◌, refl, List, [], ◌∷◌, ◌++◌, ◌==◌, arith,
  contains, collect, any, length, length-collect, Bool-cases, inl, inr,
}
use unified_icc.Base.Dict.{Dict, keys}
use unified_icc.Session.{
  SessionManager, window_states, window_display_names, channel_bindings, nested_items, window_of,
  key_of, bound_windows, in_use, get_session_map_window_ids,
}
use unified_icc.Session.Audit.{
  AuditIssue, drifts, issue, reports, ghost_bindings, orphaned_display_names,
  orphaned_group_chat_ids, stale_window_states, stale_offsets, display_name_drifts,
  orphaned_windows, audit_state,
}

reports-append :
    (c : String) (xs ys : List AuditIssue) → reports c (xs ++ ys) ≡ (reports c xs || reports c ys)
unfolding reports
reports-append c [] ys = refl
reports-append c (x ∷ xs) ys = ground (arith, reports-append c xs ys)

reports-collect {ℓ} :
    {A : Type ℓ} (c k : String) (p : A → Bool) (detail : A → String) (xs : List A)
    → reports c (collect p (λ x. issue k (detail x)) xs) ≡ ((k == c) && any p xs)
unfolding reports collect any
reports-collect c k p detail [] = ground arith
reports-collect c k p detail (x ∷ xs) = elim (Bool-cases (p x)) [
  | inl e ↦ rw e (ground (arith, reports-collect c k p detail xs))
  | inr e ↦ rw e (ground (arith, reports-collect c k p detail xs))
]

-- A binding to a window that is not live.
abbrev is_ghost : List String → String × String × String → Bool
is_ghost live i = not (contains (window_of i) live)

-- A window that is neither live nor in use.
abbrev pub is_orphan : List String → SessionManager → String → Bool
is_orphan live s wid = not (contains wid live) && not (contains wid (in_use s))

-- An offset for a window that is neither live nor in use.
abbrev pub is_unknown : List String → String × String × ℕ → Bool
is_unknown known i = not (contains (key_of i) known)

-- A live window that is not bound, but that the session map or a state knows.
abbrev is_unbound : SessionManager → String → Bool
is_unbound s wid =
    not (contains wid (bound_windows s))
    && contains wid (get_session_map_window_ids s ++ keys (window_states s))

-- A window that is neither in the session map, nor bound, nor live.
abbrev pub is_untracked : List String → SessionManager → String → Bool
is_untracked live s wid =
    not (contains wid (get_session_map_window_ids s))
    && (not (contains wid (bound_windows s)) && not (contains wid live))

reports-group : (c : String) (s : SessionManager) → reports c (orphaned_group_chat_ids s) ≡ false
unfolding orphaned_group_chat_ids keys collect reports
reports-group c s = refl

module _ (repr : String → String) where
  -- What an audit reports in each category.
  reports-audit :
      (c : String) (live : List String) (windows : List (String × String)) (s : SessionManager)
      → reports c (audit_state repr live windows s).issues ≡ (
          ("ghost_binding" == c) && any (is_ghost live) (nested_items (channel_bindings s))
          || (("orphaned_display_name" == c)
                && any (is_orphan live s) (keys (window_display_names s))
              || (("stale_window_state" == c) && any (is_untracked live s) (keys (window_states s))
                  || (("stale_offset" == c)
                        && any
                            (is_unknown (live ++ in_use s))
                            (nested_items s.preferences.user_window_offsets)
                      || (("display_name_drift" == c)
                            && any (drifts (window_display_names s)) windows
                          || ("orphaned_window" == c) && any (is_unbound s) live)))))
  unfolding audit_state ghost_bindings orphaned_display_names stale_window_states stale_offsets
      display_name_drifts orphaned_windows
  reports-audit c live windows s = simp (reports-append, reports-collect, reports-group)

  pub reports-orphan :
      (live : List String) (windows : List (String × String)) (s : SessionManager)
      → reports "orphaned_display_name" (audit_state repr live windows s).issues
        ≡ any (is_orphan live s) (keys (window_display_names s))
  reports-orphan live windows s =
      rw (reports-audit "orphaned_display_name" live windows s) (ground arith)

  pub reports-offset :
      (live : List String) (windows : List (String × String)) (s : SessionManager)
      → reports "stale_offset" (audit_state repr live windows s).issues
        ≡ any (is_unknown (live ++ in_use s)) (nested_items s.preferences.user_window_offsets)
  reports-offset live windows s = rw (reports-audit "stale_offset" live windows s) (ground arith)

  -- The bindings that are live and the ghost bindings that an audit reports are all bindings.
  pub audit-counts :
      (live : List String) (windows : List (String × String)) (s : SessionManager)
      → (audit_state repr live windows s).live_binding_count + length (ghost_bindings live s)
        ≡ (audit_state repr live windows s).total_bindings
  unfolding audit_state ghost_bindings
  audit-counts live windows s =
      length-collect (λ i. contains (window_of i) live) (λ i. i) _
        (nested_items (channel_bindings s))
