-- ===== src/Session/Audit.antt =====
-- core/session.py: `audit_state`, the read-only comparison of the state with the live windows.
pub mod Laws
pub mod Pruned
use unified_icc.Base.{
  ℕ, String, ◌<>◌, Bool, true, false, not, ◌&&◌, ◌||◌, Option, none, some, List, [], ◌∷◌, ◌++◌,
  if◌then◌else◌, ◌==◌, truthy, or_default, contains, collect, length, is_empty,
}
use unified_icc.Base.Dict.{Dict, get, keys, put_all}
use unified_icc.WindowStore.{WindowState}
use unified_icc.Router.{get_display_name}
use unified_icc.Session.{
  SessionManager, routing_of, window_states, window_display_names, channel_bindings, group_chat_ids,
  nested_items, window_of, key_of, bound_windows, bound_keys, in_use, get_session_map_window_ids,
}

pub record AuditIssue : Type 0 where
  pub category : String
  pub detail : String
  pub fixable : Bool

pub record AuditResult : Type 0 where
  pub issues : List AuditIssue
  pub total_bindings : ℕ
  pub live_binding_count : ℕ

-- Some issue has the category.
unfoldable pub reports : String → List AuditIssue → Bool
reports category [] = false
reports category (i ∷ is) = (i.category == category) || reports category is

abbrev is_fixable : AuditIssue → Bool
is_fixable i = i.fixable

unfoldable pub fixable_count : AuditResult → ℕ
fixable_count r = length (collect is_fixable (λ i. i) r.issues)

unfoldable pub has_issues : AuditResult → Bool
has_issues r = not (is_empty r.issues)

-- Every issue that the audit makes is fixable.
abbrev pub issue : String → String → AuditIssue
issue category detail = record { category = category; detail = detail; fixable = true }

unfoldable pub ghost_bindings : List String → SessionManager → List AuditIssue
ghost_bindings live s =
    collect (λ i. not (contains (window_of i) live))
      (λ (uid, tid, wid). issue "ghost_binding" (
        "user:"
        <> (uid
            <> (" thread:"
                <> (tid
                    <> (" window:"
                        <> (wid <> (" (" <> (get_display_name wid (routing_of s) <> ")")))))))))
      (nested_items (channel_bindings s))

unfoldable pub orphaned_display_names : List String → SessionManager → List AuditIssue
orphaned_display_names live s =
    collect (λ wid. not (contains wid live) && not (contains wid (in_use s)))
      (λ wid.
        issue "orphaned_display_name"
          (wid <> (" (" <> (get_display_name wid (routing_of s) <> ")"))))
      (keys (window_display_names s))

unfoldable pub orphaned_group_chat_ids : SessionManager → List AuditIssue
orphaned_group_chat_ids s =
    collect (λ k. not (contains k (bound_keys s)))
      (λ k. issue "orphaned_group_chat_id" ("key " <> k)) (keys group_chat_ids)

-- `self.window_states[wid].window_name or wid`, for a window that has a state
abbrev shown_name : String → Option WindowState → String
shown_name wid none = wid
shown_name wid (some ws) = if truthy ws.window_name then ws.window_name else wid

unfoldable pub stale_window_states : List String → SessionManager → List AuditIssue
stale_window_states live s =
    collect
      (λ wid.
        not (contains wid (get_session_map_window_ids s))
        && (not (contains wid (bound_windows s)) && not (contains wid live)))
      (λ wid.
        issue "stale_window_state"
          (wid <> (" (" <> (shown_name wid (get wid (window_states s)) <> ")"))))
      (keys (window_states s))

unfoldable pub stale_offsets : List String → SessionManager → List AuditIssue
stale_offsets live s =
    collect (λ i. not (contains (key_of i) (live ++ in_use s)))
      (λ (uid, wid, _). issue "stale_offset" ("user " <> (uid <> (", window " <> wid))))
      (nested_items s.preferences.user_window_offsets)

-- The stored name, if it is not empty, differs from the one that tmux has.
abbrev pub drifts : Dict String → String × String → Bool
drifts names (wid, tmux_name) =
    let stored = or_default (get wid names) "" in truthy stored && not (stored == tmux_name)

-- `repr` is Python's, of a text.
module _ (repr : String → String) where
  unfoldable pub display_name_drifts : List (String × String) → SessionManager → List AuditIssue
  display_name_drifts live_windows s =
      collect (drifts (window_display_names s))
        (λ (wid, tmux_name). issue "display_name_drift" (
          wid
          <> (": stored="
              <> (repr (or_default (get wid (window_display_names s)) "")
                  <> (" tmux=" <> repr tmux_name)))))
        live_windows

  unfoldable pub orphaned_windows :
      List String → List (String × String) → SessionManager → List AuditIssue
  orphaned_windows live live_windows s =
      collect
        (λ wid.
          not (contains wid (bound_windows s))
          && contains wid (get_session_map_window_ids s ++ keys (window_states s)))
        (λ wid.
          issue "orphaned_window"
            (wid <> (" (" <> (or_default (get wid (put_all live_windows [])) wid <> ")"))))
        live

  unfoldable pub audit_state : List String → List (String × String) → SessionManager → AuditResult
  audit_state live live_windows s =
      let bindings = nested_items (channel_bindings s) in
      record {
        issues =
            ghost_bindings live s
            ++ (orphaned_display_names live s
                ++ (orphaned_group_chat_ids s
                    ++ (stale_window_states live s
                        ++ (stale_offsets live s
                            ++ (display_name_drifts live_windows s
                                ++ orphaned_windows live live_windows s)))));
        total_bindings = length bindings;
        live_binding_count = length (collect (λ i. contains (window_of i) live) (λ i. i) bindings);
      }
