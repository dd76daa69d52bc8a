-- ===== src/TaskState/Tests.antt =====
-- Transcripts to run the task tracking on, and the theorems at them.
use unified_icc.Base.{String, true, ◌≡◌, refl, some, List, [], ◌∷◌, contains}
use unified_icc.Base.Dict.{Dict, get, put, pop}
use unified_icc.Base.Json.{Json, str, arr, nil, cons, object, entries, of_entries}
use unified_icc.Base.Text.{lower, strip}
use unified_icc.TaskState.{ClaudeTaskItem, WindowTaskState, ClaudeTaskStateStore, new_task_store}
use unified_icc.TaskState.Fields.{
  normal_status, normalize_status, as_text, iterate, blockers, stripped, dicts_of,
  iter_message_blocks,
}
use unified_icc.TaskState.Apply.{
  apply_task_create, created_item, store_item, finalize_task_create, add_blockers, remove_blockers,
  updated_item, apply_task_update,
}
use unified_icc.TaskState.Entries.{
  apply_tool_use, apply_tool_uses, apply_assistant_entry, apply_tool_result, apply_tool_results,
  apply_user_entry, apply_entry, apply_all, apply_entries,
}
use unified_icc.TaskState.Sound.Transcript.{AllSound, apply_entries-AllSound}
use unified_icc.TaskState.Snapshot.{ClaudeTaskSnapshot, get_snapshot}
use unified_icc.TaskState.Snapshot.Laws.{Shows, get_snapshot-Shows}

-- An entry of one block.
abbrev entry_of : String → Dict Json → Dict Json
entry_of kind block =
    ("type", str kind) ∷ ("message", object (("content", arr (cons (object block) nil)) ∷ [])) ∷ []

abbrev create_entry : Dict Json
create_entry = entry_of "assistant" (
    ("type", str "tool_use")
    ∷ ("id", str "t1")
    ∷ ("name", str "TaskCreate")
    ∷ ("input", object (("subject", str "Write tests") ∷ []))
    ∷ [])

abbrev created_entry : Dict Json
created_entry =
    ("toolUseResult", object (("task", object (("id", str "1") ∷ [])) ∷ []))
    ∷ entry_of "user" (("type", str "tool_result") ∷ ("tool_use_id", str "t1") ∷ [])

abbrev update_entry : Dict Json
update_entry = entry_of "assistant" (
    ("type", str "tool_use")
    ∷ ("name", str "TaskUpdate")
    ∷ ("input", object (("taskId", str "1") ∷ ("status", str "Active") ∷ []))
    ∷ [])

abbrev transcript : List (Dict Json)
transcript = create_entry ∷ created_entry ∷ update_entry ∷ []

abbrev active_task : ClaudeTaskItem
active_task = record {
  task_id = "1";
  subject = "Write tests";
  description = "";
  active_form = "";
  status = "in_progress";
  blocked_by = [];
  order = 1;
  owner = "";
}

abbrev window_tasks : WindowTaskState
window_tasks = record {
  session_id = "s1";
  tasks = ("1", active_task) ∷ [];
  pending_creates = [];
  next_order = 2;
}

abbrev tracked : ClaudeTaskStateStore
tracked = record new_task_store { window_states = ("@1", window_tasks) ∷ [] }

tracks : apply_entries "@1" "s1" transcript new_task_store ≡ some (true, tracked)
unfolding apply_entries apply_all apply_entry apply_assistant_entry apply_user_entry apply_tool_uses
    apply_tool_use apply_tool_results apply_tool_result apply_task_create finalize_task_create
    created_item store_item apply_task_update updated_item normalize_status normal_status as_text
    iterate blockers stripped add_blockers remove_blockers dicts_of iter_message_blocks entries
    of_entries lower strip contains get put pop
tracks = refl

apply_entries-AllSound_example : AllSound tracked.window_states
apply_entries-AllSound_example =
    apply_entries-AllSound "@1" "s1" transcript new_task_store tracked true tt tracks

window-tracked : get "@1" tracked.window_states ≡ some window_tasks
unfolding get
window-tracked = refl

get_snapshot-Shows_example :
    (x : ClaudeTaskSnapshot) × (get_snapshot "@1" tracked ≡ some x) × Shows window_tasks.tasks x
get_snapshot-Shows_example = get_snapshot-Shows "@1" tracked window_tasks window-tracked refl
