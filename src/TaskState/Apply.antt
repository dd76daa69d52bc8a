-- ===== src/TaskState/Apply.antt =====
-- utils/claude_task_state.py: what the blocks of transcript entries do to the tasks of a window. A
-- step returns whether it changed the state, and the state; `none` is an exception.
use unified_icc.Base.{
  ◌+◌, String, Bool, true, false, not, ◌&&◌, Option, none, some, List, [], ◌∷◌, ◌++◌, if◌then◌else◌,
  ◌==◌, ◌>>=◌, truthy, contains, discard, eqb, length,
}
use unified_icc.Base.Dict.{Dict, get, put, pop}
use unified_icc.Base.Json.{Json, str, obj, entries}
use unified_icc.TaskState.{ClaudeTaskItem, PendingTaskCreate, WindowTaskState}
use unified_icc.TaskState.Fields.{normalize_status, as_text, or_text, iterate, blockers, stripped}

abbrev pub Outcome : Type 0
Outcome = Bool × WindowTaskState

abbrev same_texts : List String → List String → Bool
same_texts [] [] = true
same_texts (a ∷ xs) (b ∷ ys) = (a == b) && same_texts xs ys
same_texts _ _ = false

-- Equality of the frozen dataclass.
abbrev same_item : ClaudeTaskItem → ClaudeTaskItem → Bool
same_item t u =
    (t.task_id == u.task_id)
    && ((t.subject == u.subject)
        && ((t.description == u.description)
            && ((t.active_form == u.active_form)
                && ((t.status == u.status)
                    && (same_texts t.blocked_by u.blocked_by
                        && (eqb t.order u.order && (t.owner == u.owner)))))))

abbrev same_pending : PendingTaskCreate → PendingTaskCreate → Bool
same_pending p q =
    (p.subject == q.subject)
    && ((p.description == q.description)
        && ((p.active_form == q.active_form) && eqb p.order q.order))

abbrev is_item : Option ClaudeTaskItem → ClaudeTaskItem → Bool
is_item none u = false
is_item (some t) u = same_item t u

abbrev is_pending : Option PendingTaskCreate → PendingTaskCreate → Bool
is_pending none q = false
is_pending (some p) q = same_pending p q

-- Every item of the first dict is in the second.
unfoldable pub includes : Dict ClaudeTaskItem → Dict ClaudeTaskItem → Bool
includes [] e = true
includes ((k, t) ∷ d) e = is_item (get k e) t && includes d e

-- Equality of dicts, which does not look at the order.
abbrev pub same_tasks : Dict ClaudeTaskItem → Dict ClaudeTaskItem → Bool
same_tasks d e = eqb (length d) (length e) && includes d e

unfoldable pub apply_task_create : String → Json → WindowTaskState → Outcome
apply_task_create tool_use_id (obj fs) w =
    let d = entries fs in
    let pending : PendingTaskCreate = record {
      subject = as_text (get "subject" d);
      description = as_text (get "description" d);
      active_form = as_text (get "activeForm" d);
      order = w.next_order;
    } in
    let counted = record w { next_order = w.next_order + 1 } in
    if not (truthy tool_use_id)
    then (false, w)
    else if is_pending (get tool_use_id w.pending_creates) pending
    then (false, counted)
    else (true, record counted { pending_creates = put tool_use_id pending w.pending_creates })
apply_task_create tool_use_id _ w = (false, w)

-- The item that the result of a creation describes.
unfoldable pub created_item : PendingTaskCreate → Dict Json → Option ClaudeTaskItem
created_item p d = do
  status ← normalize_status (get "status" d)
  values ← iterate (get "blockedBy" d)
  blocked_by ← blockers values
  some (record {
    task_id = as_text (get "id" d);
    subject = or_text (as_text (get "subject" d)) p.subject;
    description = or_text (as_text (get "description" d)) p.description;
    active_form = or_text (as_text (get "activeForm" d)) p.active_form;
    status = status;
    blocked_by = blocked_by;
    order = p.order;
    owner = as_text (get "owner" d);
  })

-- `if previous == item: return False` and the assignment
unfoldable pub store_item : String → ClaudeTaskItem → WindowTaskState → Outcome
store_item task_id t w =
    if is_item (get task_id w.tasks) t
    then (false, w)
    else (true, record w { tasks = put task_id t w.tasks })

unfoldable pub finalize_from :
    Option PendingTaskCreate → Dict Json → WindowTaskState → Option Outcome
finalize_from none d w = some (false, w)
finalize_from (some p) d w =
    if truthy (as_text (get "id" d))
    then (created_item p d >>= λ t. some (store_item t.task_id t w))
    else some (false, w)

-- The pending creation goes, whatever comes of it.
unfoldable pub finalize_task_create : String → Dict Json → WindowTaskState → Option Outcome
unfolding finalize_from
finalize_task_create tool_use_id d w =
    finalize_from (get tool_use_id w.pending_creates) d
      (record w { pending_creates = pop tool_use_id w.pending_creates })

unfoldable pub add_blockers : List String → List String → List String
add_blockers [] blocked_by = blocked_by
add_blockers (b ∷ bs) blocked_by =
    add_blockers bs
      (if truthy b && not (contains b blocked_by) then blocked_by ++ b ∷ [] else blocked_by)

unfoldable pub remove_blockers : List String → List String → List String
remove_blockers [] blocked_by = blocked_by
remove_blockers (b ∷ bs) blocked_by = remove_blockers bs (discard b blocked_by)

-- A status that is no text leaves the old one.
abbrev pub updated_status : Option Json → String → Option String
updated_status (some (str s)) old = normalize_status (some (str s))
updated_status _ old = some old

unfoldable pub updated_item : ClaudeTaskItem → Dict Json → Option ClaudeTaskItem
updated_item t d = do
  more ← iterate (get "addBlockedBy" d) >>= stripped
  less ← iterate (get "removeBlockedBy" d) >>= stripped
  status ← updated_status (get "status" d) t.status
  some (record t {
    subject = or_text (as_text (get "subject" d)) t.subject;
    description = or_text (as_text (get "description" d)) t.description;
    active_form = or_text (as_text (get "activeForm" d)) t.active_form;
    status = status;
    blocked_by = remove_blockers less (add_blockers more t.blocked_by);
  })

unfoldable pub update_from :
    String → Option ClaudeTaskItem → Dict Json → WindowTaskState → Option Outcome
update_from task_id none d w = some (false, w)
update_from task_id (some t) d w = updated_item t d >>= λ u. some (store_item task_id u w)

unfoldable pub apply_task_update : Json → WindowTaskState → Option Outcome
unfolding update_from
apply_task_update (obj fs) w =
    let task_id = as_text (get "taskId" (entries fs)) in
    if truthy task_id
    then update_from task_id (get task_id w.tasks) (entries fs) w
    else some (false, w)
apply_task_update _ w = some (false, w)
