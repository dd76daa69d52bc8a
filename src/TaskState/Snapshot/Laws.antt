-- ===== src/TaskState/Snapshot/Laws.antt =====
-- utils/claude_task_state.py: a snapshot has the tasks of its window, in order, and counts them.
use unified_icc.Base.{
  ℕ, suc, ◌+◌, ◌≤◌, String, Bool, true, false, not, ◌&&◌, ◌≡◌, refl, some, List, [], ◌∷◌,
  if◌then◌else◌, ltb, arith, length, is_empty,
}
use unified_icc.Base.Dict.{Dict, get}
use unified_icc.TaskState.{ClaudeTaskItem, WindowTaskState, ClaudeTaskStateStore}
use unified_icc.TaskState.Snapshot.{
  ClaudeTaskSnapshot, total_count, insert_item, sort_items, count, is_completed, snapshot_of,
  get_snapshot,
}

-- No item of the list has an order below `n`.
abbrev all_from : ℕ → List ClaudeTaskItem → Bool
all_from n [] = true
all_from n (t ∷ ts) = not (ltb t.order n) && all_from n ts

abbrev pub is_sorted : List ClaudeTaskItem → Bool
is_sorted [] = true
is_sorted (t ∷ ts) = all_from t.order ts && is_sorted ts

-- How many tasks of the dict pass the test.
abbrev pub count_tasks : (ClaudeTaskItem → Bool) → Dict ClaudeTaskItem → ℕ
count_tasks f [] = 0
count_tasks f ((_, t) ∷ d) = if f t then suc (count_tasks f d) else count_tasks f d

all_from-insert :
    (n : ℕ) (t : ClaudeTaskItem) (ts : List ClaudeTaskItem)
    → all_from n (insert_item t ts) ≡ (not (ltb t.order n) && all_from n ts)
unfolding insert_item
all_from-insert n t [] = refl
all_from-insert n t (u ∷ us) = ground (arith, all_from-insert n t us)

all_from_below :
    (m n : ℕ) (ts : List ClaudeTaskItem)
    → ltb n m ≡ false
    → all_from n ts ≡ true
    → all_from m ts ≡ true
all_from_below m n [] h a = refl
all_from_below m n (t ∷ ts) h a = ground (arith, all_from_below m n ts h, a, h)

is_sorted-insert :
    (t : ClaudeTaskItem) (ts : List ClaudeTaskItem)
    → is_sorted ts ≡ true
    → is_sorted (insert_item t ts) ≡ true
unfolding insert_item
is_sorted-insert t [] h = refl
is_sorted-insert t (u ∷ us) h = ground (
  arith,
  is_sorted-insert t us,
  all_from-insert u.order t us,
  all_from_below t.order u.order us,
  h,
)

is_sorted-sort :
    (d : Dict ClaudeTaskItem) (ts : List ClaudeTaskItem)
    → is_sorted ts ≡ true
    → is_sorted (sort_items d ts) ≡ true
unfolding sort_items
is_sorted-sort [] ts h = h
is_sorted-sort ((_, t) ∷ d) ts h = is_sorted-sort d (insert_item t ts) (is_sorted-insert t ts h)

count-insert :
    (f : ClaudeTaskItem → Bool) (t : ClaudeTaskItem) (ts : List ClaudeTaskItem)
    → count f (insert_item t ts) ≡ (if f t then suc (count f ts) else count f ts)
unfolding insert_item count
count-insert f t [] = refl
count-insert f t (u ∷ us) = ground (arith, count-insert f t us)

count-sort :
    (f : ClaudeTaskItem → Bool) (d : Dict ClaudeTaskItem) (ts : List ClaudeTaskItem)
    → count f (sort_items d ts) ≡ count_tasks f d + count f ts
unfolding sort_items
count-sort f [] ts = omega arith
count-sort f ((_, t) ∷ d) ts =
    ground (arith, count-sort f d (insert_item t ts), count-insert f t ts)

count_below : (f : ClaudeTaskItem → Bool) (ts : List ClaudeTaskItem) → count f ts ≤ length ts
unfolding count
count_below f [] = omega arith
count_below f (t ∷ ts) = ground (arith, count_below f ts)

-- What a snapshot of the tasks is: all of them, by their order, with as many done as have been
-- completed, and the others open.
pub record Shows (tasks : Dict ClaudeTaskItem) (x : ClaudeTaskSnapshot) : Type 0 where
  pub sorted : is_sorted x.items ≡ true
  pub same_items : (f : ClaudeTaskItem → Bool) → count f x.items ≡ count_tasks f tasks
  pub done : x.done_count ≡ count_tasks is_completed tasks
  pub all_counted : x.done_count + x.open_count ≡ total_count x

count-sorted :
    (f : ClaudeTaskItem → Bool) (tasks : Dict ClaudeTaskItem)
    → count f (sort_items tasks []) ≡ count_tasks f tasks
unfolding count
count-sorted f tasks = ground (arith, count-sort f tasks [])

snapshot-Shows : (tasks : Dict ClaudeTaskItem) → Shows tasks (snapshot_of tasks)
unfolding snapshot_of total_count
snapshot-Shows tasks = record {
  sorted = is_sorted-sort tasks [] refl;
  same_items = λ f. count-sorted f tasks;
  done = count-sorted is_completed tasks;
  all_counted = omega (arith, count_below is_completed (sort_items tasks []));
}

-- A window that has tasks has a snapshot. It has each task as often as the window has it, sorted
-- by the order, counts as done those that have been completed, and as open the others.
pub get_snapshot-Shows :
    (window_id : String) (s : ClaudeTaskStateStore) (w : WindowTaskState)
    → get window_id s.window_states ≡ some w
    → is_empty w.tasks ≡ false
    → (x : ClaudeTaskSnapshot) × (get_snapshot window_id s ≡ some x) × Shows w.tasks x
unfolding get_snapshot
get_snapshot-Shows window_id s w e tasked =
    (snapshot_of w.tasks, rw (e, tasked), snapshot-Shows w.tasks)
