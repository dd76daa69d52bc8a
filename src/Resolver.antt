-- ===== src/Resolver.antt =====
-- tmux/window_resolver.py: the formats of window ids, and the startup recovery of stale ids. The
-- display names that the three loops share are threaded through them. User and thread ids are the
-- texts of their numbers.
pub mod Unchanged
pub mod Kept
mod Tests
use unified_icc.Base.{
  ℕ, String, Bool, true, false, not, ◌&&◌, ◌||◌, Option, none, some, List, [], ◌∷◌, if◌then◌else◌,
  truthy, or_default, contains, add, set_of, starts_with, is_empty,
}
use unified_icc.Base.Dict.{Dict, get, put, pop}
use unified_icc.Base.Text.{is_digit, contains_text, drop_prefix}
use unified_icc.WindowStore.{WindowState}

pub record LiveWindow : Type 0 where
  pub window_id : String
  pub window_name : String

unfoldable pub is_window_id : String → Bool
unfolding is_digit drop_prefix
is_window_id key = starts_with key "@" && is_digit (drop_prefix "@" key)

abbrev pub emdash_session_prefix : String
emdash_session_prefix = "emdash-"

unfoldable pub is_foreign_window : String → Bool
unfolding contains_text
is_foreign_window window_id = contains_text ":" window_id && not (starts_with window_id "@")

-- `live_by_name` and `live_ids`
unfoldable pub live_by_name : List LiveWindow → Dict String → Dict String
live_by_name [] d = d
live_by_name (w ∷ ws) d = live_by_name ws (put w.window_name w.window_id d)

unfoldable pub live_ids : List LiveWindow → List String
live_ids [] = []
live_ids (w ∷ ws) = w.window_id ∷ live_ids ws

-- `new_id := live_by_name.get(name)` where an empty id counts as none
unfoldable pub found : String → Dict String → String
found name by_name = or_default (get name by_name) ""

-- `a or b` for texts
abbrev pub or_else : String → String → String
or_else a b = if truthy a then a else b

-- What a loop has built so far.
pub record Progress (V : Type 0) : Type 0 where
  pub kept : Dict V
  pub names : Dict String
  pub changed : Bool

module _ (by_name : Dict String) (ids : List String) where
  -- One round of the loop of `_resolve_window_states`.
  unfoldable pub resolve_state : String → WindowState → Progress WindowState → Progress WindowState
  unfolding found
  resolve_state key ws p =
      let display = or_default (get key p.names) (or_else ws.window_name key) in
      let new_id = found display by_name in
      let named_id = found key by_name in
      if is_foreign_window key
      then record p { kept = put key ws p.kept }
      else if is_window_id key
      then (if contains key ids
          then record p { kept = put key ws p.kept }
          else if truthy new_id
          then record p {
            kept = put new_id (record ws { window_name = display }) p.kept;
            names = pop key (put new_id display p.names);
            changed = true;
          }
          else record p { kept = put key ws p.kept })
      else if truthy named_id
      then record p {
        kept = put named_id (record ws { window_name = key }) p.kept;
        names = put named_id key p.names;
        changed = true;
      }
      else record p { changed = true }

  unfoldable pub resolve_window_states :
      Dict WindowState → Progress WindowState → Progress WindowState
  resolve_window_states [] p = p
  resolve_window_states ((key, ws) ∷ d) p = resolve_window_states d (resolve_state key ws p)

  -- One round of the inner loop of `_resolve_thread_bindings`.
  unfoldable pub resolve_binding : String → String → Progress String → Progress String
  unfolding found
  resolve_binding tid val p =
      let name = or_default (get val p.names) val in
      let new_id = found name by_name in
      let named_id = found val by_name in
      if is_foreign_window val
      then record p { kept = put tid val p.kept }
      else if is_window_id val
      then (if contains val ids
          then record p { kept = put tid val p.kept }
          else if truthy new_id
          then record p {
            kept = put tid new_id p.kept;
            names = put new_id name p.names;
            changed = true;
          }
          else record p { kept = put tid val p.kept })
      else if truthy named_id
      then record p {
        kept = put tid named_id p.kept;
        names = put named_id val p.names;
        changed = true;
      }
      else record p { changed = true }

  unfoldable pub resolve_bindings : Dict String → Progress String → Progress String
  resolve_bindings [] p = p
  resolve_bindings ((tid, val) ∷ d) p = resolve_bindings d (resolve_binding tid val p)

  -- The outer loop. A user without bindings is left out, as the last loop deletes it.
  unfoldable pub resolve_thread_bindings :
      Dict (Dict String) → Progress (Dict String) → Progress (Dict String)
  resolve_thread_bindings [] p = p
  resolve_thread_bindings ((uid, bindings) ∷ d) p =
      let q =
        resolve_bindings bindings (record { kept = []; names = p.names; changed = p.changed }) in
      resolve_thread_bindings d (record {
        kept = if is_empty q.kept then p.kept else put uid q.kept p.kept;
        names = q.names;
        changed = q.changed;
      })

  -- One round of the inner loop of `_resolve_offsets`, which changes no name.
  unfoldable pub resolve_offset : String → ℕ → Progress ℕ → Progress ℕ
  unfolding found
  resolve_offset key offset p =
      let new_id = found (or_default (get key p.names) key) by_name in
      let named_id = found key by_name in
      if is_foreign_window key
      then record p { kept = put key offset p.kept }
      else if is_window_id key
      then (if contains key ids
          then record p { kept = put key offset p.kept }
          else if truthy new_id
          then record p { kept = put new_id offset p.kept; changed = true }
          else record p { changed = true })
      else if truthy named_id
      then record p { kept = put named_id offset p.kept; changed = true }
      else record p { changed = true }

  unfoldable pub resolve_user_offsets : Dict ℕ → Progress ℕ → Progress ℕ
  resolve_user_offsets [] p = p
  resolve_user_offsets ((key, offset) ∷ d) p = resolve_user_offsets d (resolve_offset key offset p)

  unfoldable pub resolve_offsets : Dict (Dict ℕ) → Progress (Dict ℕ) → Progress (Dict ℕ)
  resolve_offsets [] p = p
  resolve_offsets ((uid, offsets) ∷ d) p =
      let q =
        resolve_user_offsets offsets (record { kept = []; names = p.names; changed = p.changed }) in
      resolve_offsets d
        (record { kept = put uid q.kept p.kept; names = q.names; changed = q.changed })

-- The dicts that `resolve_stale_ids` updates in place.
pub record Persisted : Type 0 where
  pub window_states : Dict WindowState
  pub thread_bindings : Dict (Dict String)
  pub user_window_offsets : Dict (Dict ℕ)
  pub window_display_names : Dict String

unfoldable pub resolve_stale_ids : List LiveWindow → Persisted → Bool × Persisted
resolve_stale_ids live s =
    let by_name = live_by_name live [] in
    let ids = live_ids live in
    let p =
      resolve_window_states by_name ids s.window_states
        (record { kept = []; names = s.window_display_names; changed = false }) in
    let q =
      resolve_thread_bindings by_name ids s.thread_bindings
        (record { kept = []; names = p.names; changed = p.changed }) in
    let r =
      resolve_offsets by_name ids s.user_window_offsets
        (record { kept = []; names = q.names; changed = q.changed }) in
    (
      r.changed,
      record {
        window_states = p.kept;
        thread_bindings = q.kept;
        user_window_offsets = r.kept;
        window_display_names = r.names;
      },
    )
