-- ===== src/TaskState/Entries.antt =====
-- utils/claude_task_state.py: what whole transcript entries do to the tasks of a window.
use unified_icc.Base.{
  String, Bool, false, not, ◌||◌, Option, none, some, List, [], ◌∷◌, if◌then◌else◌, ◌==◌, ◌>>=◌,
  truthy, or_default,
}
use unified_icc.Base.Dict.{Dict, get, put}
use unified_icc.Base.Json.{Json, str, arr, obj, end, entries}
use unified_icc.TaskState.{WindowTaskState, ClaudeTaskStateStore, new_tasks_of, state_for}
use unified_icc.TaskState.Fields.{as_text, iter_message_blocks}
use unified_icc.TaskState.Apply.{
  Outcome, apply_task_create, apply_task_update, finalize_task_create,
}
use unified_icc.TaskState.Listing.{replace_from_todos, replace_from_task_list}

-- `changed |= step(state)`
abbrev pub after : Bool → Option Outcome → Option Outcome
after changed none = none
after changed (some (c, w)) = some (changed || c, w)

-- `d.get(k) == s`
abbrev pub is_text : Option Json → String → Bool
is_text (some (str t)) s = t == s
is_text _ s = false

unfoldable pub apply_tool_use : Dict Json → WindowTaskState → Option Outcome
apply_tool_use block w =
    let name = get "name" block in
    let input = or_default (get "input" block) (obj end) in
    if is_text name "TaskCreate"
    then some (apply_task_create (as_text (get "id" block)) input w)
    else if is_text name "TaskUpdate"
    then apply_task_update input w
    else if is_text name "TodoWrite"
    then replace_from_todos input w
    else some (false, w)

unfoldable pub apply_tool_uses : List (Dict Json) → Outcome → Option Outcome
apply_tool_uses [] p = some p
apply_tool_uses (block ∷ blocks) (changed, w) =
    after changed
      (if is_text (get "type" block) "tool_use" then apply_tool_use block w else some (false, w))
    >>= apply_tool_uses blocks

unfoldable pub apply_assistant_entry : Dict Json → WindowTaskState → Option Outcome
apply_assistant_entry entry w = apply_tool_uses (iter_message_blocks entry) (false, w)

-- `entry.get("toolUseResult", {})`, or an empty dict for what is none.
abbrev pub tool_result_of : Option Json → Dict Json
tool_result_of (some (obj fs)) = entries fs
tool_result_of _ = []

abbrev pub finalize_if : String → Option Json → WindowTaskState → Option Outcome
finalize_if tool_use_id (some (obj fs)) w =
    if truthy tool_use_id then finalize_task_create tool_use_id (entries fs) w else some (false, w)
finalize_if tool_use_id _ w = some (false, w)

abbrev pub replace_if : Option Json → Outcome → Option Outcome
replace_if (some (arr xs)) (changed, w) = after changed (replace_from_task_list xs w)
replace_if _ p = some p

unfoldable pub apply_tool_result : Dict Json → Dict Json → WindowTaskState → Option Outcome
apply_tool_result result block w =
    finalize_if (as_text (get "tool_use_id" block)) (get "task" result) w
    >>= replace_if (get "tasks" result)

unfoldable pub apply_tool_results : Dict Json → List (Dict Json) → Outcome → Option Outcome
apply_tool_results result [] p = some p
apply_tool_results result (block ∷ blocks) (changed, w) =
    after changed (
      if is_text (get "type" block) "tool_result"
      then apply_tool_result result block w
      else some (false, w))
    >>= apply_tool_results result blocks

unfoldable pub apply_user_entry : Dict Json → WindowTaskState → Option Outcome
apply_user_entry entry w =
    apply_tool_results (tool_result_of (get "toolUseResult" entry)) (iter_message_blocks entry)
      (false, w)

unfoldable pub apply_entry : Dict Json → WindowTaskState → Option Outcome
apply_entry entry w =
    if is_text (get "type" entry) "assistant"
    then apply_assistant_entry entry w
    else if is_text (get "type" entry) "user"
    then apply_user_entry entry w
    else some (false, w)

unfoldable pub apply_all : List (Dict Json) → Outcome → Option Outcome
apply_all [] p = some p
apply_all (entry ∷ rest) (changed, w) = after changed (apply_entry entry w) >>= apply_all rest

unfoldable pub apply_entries :
    String → String → List (Dict Json) → ClaudeTaskStateStore → Option (Bool × ClaudeTaskStateStore)
apply_entries window_id session_id transcript s =
    if not (truthy window_id) || not (truthy session_id)
    then some (false, s)
    else (apply_all transcript (false, state_for session_id (get window_id s.window_states))
        >>= λ p. some (p.0, record s { window_states = put window_id p.1 s.window_states }))

unfoldable pub rebuild_from_entries :
    String → String → List (Dict Json) → ClaudeTaskStateStore → Option (Bool × ClaudeTaskStateStore)
rebuild_from_entries window_id session_id transcript s =
    apply_entries window_id session_id transcript
      (record s { window_states = put window_id (new_tasks_of session_id) s.window_states })
