-- ===== src/TaskState/Snapshot.antt =====
-- utils/claude_task_state.py: the snapshot of the tasks of a window.
pub mod Laws
use unified_icc.Base.{
  ℕ, suc, ◌-◌, String, Bool, Option, none, some, List, [], ◌∷◌, if◌then◌else◌, ◌==◌, ltb, length,
  is_empty,
}
use unified_icc.Base.Dict.{Dict, get}
use unified_icc.TaskState.{ClaudeTaskItem, WindowTaskState, ClaudeTaskStateStore}

pub record ClaudeTaskSnapshot : Type 0 where
  pub items : List ClaudeTaskItem
  pub done_count : ℕ
  pub open_count : ℕ
  pub active_task_id : Option String

unfoldable pub total_count : ClaudeTaskSnapshot → ℕ
total_count x = length x.items

-- One step of the stable `sorted(..., key=lambda item: item.order)`.
unfoldable pub insert_item : ClaudeTaskItem → List ClaudeTaskItem → List ClaudeTaskItem
insert_item t [] = t ∷ []
insert_item t (u ∷ us) =
    let rest = insert_item t us in if ltb t.order u.order then t ∷ u ∷ us else u ∷ rest

unfoldable pub sort_items : Dict ClaudeTaskItem → List ClaudeTaskItem → List ClaudeTaskItem
sort_items [] sorted = sorted
sort_items ((_, t) ∷ d) sorted = sort_items d (insert_item t sorted)

-- `sum(1 for item in items if f(item))`
unfoldable pub count : (ClaudeTaskItem → Bool) → List ClaudeTaskItem → ℕ
count f [] = 0
count f (t ∷ ts) = let rest = count f ts in if f t then suc rest else rest

abbrev pub is_completed : ClaudeTaskItem → Bool
is_completed t = t.status == "completed"

unfoldable pub active_of : List ClaudeTaskItem → Option String
active_of [] = none
active_of (t ∷ ts) =
    let rest = active_of ts in if t.status == "in_progress" then some t.task_id else rest

unfoldable pub snapshot_of : Dict ClaudeTaskItem → ClaudeTaskSnapshot
snapshot_of tasks =
    let items = sort_items tasks [] in
    record {
      items = items;
      done_count = count is_completed items;
      open_count = length items - count is_completed items;
      active_task_id = active_of items;
    }

abbrev pub snapshot_in : Option WindowTaskState → Option ClaudeTaskSnapshot
snapshot_in none = none
snapshot_in (some w) = if is_empty w.tasks then none else some (snapshot_of w.tasks)

unfoldable pub get_snapshot : String → ClaudeTaskStateStore → Option ClaudeTaskSnapshot
get_snapshot window_id s = snapshot_in (get window_id s.window_states)
