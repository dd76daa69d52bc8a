-- ===== src/TaskState/Sound/Transcript.antt =====
-- utils/claude_task_state.py: whole transcripts keep the tasks of all windows sound.
use unified_icc.Base.{
  String, Bool, true, false, not, ◌||◌, ◌≡◌, refl, Option, none, some, List, [], ◌∷◌, if◌then◌else◌,
  ◌==◌, truthy, or_default, Ensures-bind, Ensures-elim, Bool-cases, inl, inr,
}
use unified_icc.Base.Dict.{Dict, get, put}
use unified_icc.Base.Json.{Json, null, bool, num, str, arr, obj, end, entries}
use unified_icc.TaskState.{WindowTaskState, ClaudeTaskStateStore, state_for}
use unified_icc.TaskState.Fields.{as_text}
use unified_icc.TaskState.Apply.{Outcome}
use unified_icc.TaskState.Listing.{replace_from_task_list}
use unified_icc.TaskState.Entries.{
  apply_tool_use, apply_tool_uses, apply_assistant_entry, apply_tool_result, apply_tool_results,
  apply_user_entry, apply_entry, apply_all, apply_entries,
}
use unified_icc.TaskState.Entries.{after, finalize_if, replace_if, tool_result_of, is_text}
use unified_icc.TaskState.Fields.{iter_message_blocks}
use unified_icc.TaskState.Sound.{IsSound, Keeps}
use unified_icc.TaskState.Sound.Steps.{create-IsSound, finalize-IsSound, update-IsSound}
use unified_icc.TaskState.Sound.Replaced.{task_list-IsSound, todos-IsSound}

after-IsSound : (c : Bool) (o : Option Outcome) → Keeps o → Keeps (after c o)
after-IsSound c none k = k
after-IsSound c (some p) k = k

-- A step that keeps what is sound, where a test allows it.
if-Keeps :
    (b : Bool) (o : Option Outcome) (c : Bool) (w : WindowTaskState)
    → IsSound w
    → Keeps o
    → Keeps (if b then o else some (c, w))
if-Keeps true o c w a k = k
if-Keeps false o c w a k = a

tool_use-IsSound :
    (block : Dict Json) (w : WindowTaskState) → IsSound w → Keeps (apply_tool_use block w)
unfolding apply_tool_use
tool_use-IsSound block w a =
    let input = or_default (get "input" block) (obj end) in
    elim (Bool-cases (is_text (get "name" block) "TaskCreate")) [
      | inl create ↦ rw create (create-IsSound (as_text (get "id" block)) input w a)
      | inr other ↦ elim (Bool-cases (is_text (get "name" block) "TaskUpdate")) [
        | inl update ↦ rw (other, update) (update-IsSound input w a)
        | inr rest ↦
            rw (other, rest)
              (if-Keeps (is_text (get "name" block) "TodoWrite") _ false w a
                (todos-IsSound input w a))
      ]
    ]

tool_uses-IsSound :
    (blocks : List (Dict Json)) (p : Outcome) → IsSound p.1 → Keeps (apply_tool_uses blocks p)
unfolding apply_tool_uses
tool_uses-IsSound [] p a = a
tool_uses-IsSound (block ∷ blocks) (changed, w) a =
    let step =
      if is_text (get "type" block) "tool_use" then apply_tool_use block w else some (false, w) in
    Ensures-bind (λ p. IsSound p.1) (after changed step) (apply_tool_uses blocks)
      λ q e. tool_uses-IsSound blocks q (
        Ensures-elim (λ p. IsSound p.1) (after changed step)
          (after-IsSound changed step (
            if-Keeps (is_text (get "type" block) "tool_use") _ false w a
              (tool_use-IsSound block w a)))
          e)

finalize_if-IsSound :
    (id : String) (o : Option Json) (w : WindowTaskState) → IsSound w → Keeps (finalize_if id o w)
finalize_if-IsSound id none w a = a
finalize_if-IsSound id (some (obj fs)) w a =
    if-Keeps (truthy id) _ false w a (finalize-IsSound id (entries fs) w a)
finalize_if-IsSound id (some null) w a = a
finalize_if-IsSound id (some (bool b)) w a = a
finalize_if-IsSound id (some (num n)) w a = a
finalize_if-IsSound id (some (str t)) w a = a
finalize_if-IsSound id (some (arr xs)) w a = a

replace_if-IsSound : (o : Option Json) (p : Outcome) → IsSound p.1 → Keeps (replace_if o p)
replace_if-IsSound none p a = a
replace_if-IsSound (some (arr xs)) (changed, w) a =
    after-IsSound changed (replace_from_task_list xs w) (task_list-IsSound xs w a)
replace_if-IsSound (some null) p a = a
replace_if-IsSound (some (bool b)) p a = a
replace_if-IsSound (some (num n)) p a = a
replace_if-IsSound (some (str t)) p a = a
replace_if-IsSound (some (obj fs)) p a = a

tool_result-IsSound :
    (result block : Dict Json) (w : WindowTaskState)
    → IsSound w
    → Keeps (apply_tool_result result block w)
unfolding apply_tool_result
tool_result-IsSound result block w a =
    let id = as_text (get "tool_use_id" block) in
    Ensures-bind (λ p. IsSound p.1) (finalize_if id (get "task" result) w) _
      λ p e. replace_if-IsSound (get "tasks" result) p (
        Ensures-elim (λ p. IsSound p.1) (finalize_if id (get "task" result) w)
          (finalize_if-IsSound id (get "task" result) w a) e)

tool_results-IsSound :
    (result : Dict Json) (blocks : List (Dict Json)) (p : Outcome)
    → IsSound p.1
    → Keeps (apply_tool_results result blocks p)
unfolding apply_tool_results
tool_results-IsSound result [] p a = a
tool_results-IsSound result (block ∷ blocks) (changed, w) a =
    let is_result = is_text (get "type" block) "tool_result" in
    let step = if is_result then apply_tool_result result block w else some (false, w) in
    Ensures-bind (λ p. IsSound p.1) (after changed step) (apply_tool_results result blocks)
      λ q e. tool_results-IsSound result blocks q (
        Ensures-elim (λ p. IsSound p.1) (after changed step)
          (after-IsSound changed step
            (if-Keeps is_result _ false w a (tool_result-IsSound result block w a)))
          e)

entry-IsSound : (entry : Dict Json) (w : WindowTaskState) → IsSound w → Keeps (apply_entry entry w)
unfolding apply_entry apply_assistant_entry apply_user_entry
entry-IsSound entry w a = elim (Bool-cases (is_text (get "type" entry) "assistant")) [
  | inl assistant ↦ rw assistant (tool_uses-IsSound (iter_message_blocks entry) (false, w) a)
  | inr other ↦ rw other (
      if-Keeps (is_text (get "type" entry) "user") _ false w a (
        tool_results-IsSound (tool_result_of (get "toolUseResult" entry))
          (iter_message_blocks entry) (false, w) a))
]

all-IsSound :
    (transcript : List (Dict Json)) (p : Outcome) → IsSound p.1 → Keeps (apply_all transcript p)
unfolding apply_all
all-IsSound [] p a = a
all-IsSound (entry ∷ rest) (changed, w) a =
    Ensures-bind (λ p. IsSound p.1) (after changed (apply_entry entry w)) (apply_all rest)
      λ q e. all-IsSound rest q (
        Ensures-elim (λ p. IsSound p.1) (after changed (apply_entry entry w))
          (after-IsSound changed (apply_entry entry w) (entry-IsSound entry w a)) e)

-- The tasks of every window are sound.
abbrev pub AllSound : Dict WindowTaskState → Type 0
AllSound [] = Unit {0}
AllSound ((k, w) ∷ d) = IsSound w × AllSound d

AllSound-put :
    (k : String) (w : WindowTaskState) (d : Dict WindowTaskState)
    → IsSound w
    → AllSound d
    → AllSound (put k w d)
unfolding put
AllSound-put k w [] a h = (a, tt)
AllSound-put k w ((j, v) ∷ d) a h = elim (Bool-cases (j == k)) [
  | inl same ↦ rw same (a, h.1)
  | inr apart ↦ rw apart (h.0, AllSound-put k w d a h.1)
]

state_for-IsSound :
    (session_id k : String) (d : Dict WindowTaskState)
    → AllSound d
    → IsSound (state_for session_id (get k d))
unfolding get
state_for-IsSound session_id k [] h = refl
state_for-IsSound session_id k ((j, w) ∷ d) h = elim (Bool-cases (j == k)) [
  | inl same ↦ rw same (elim (Bool-cases (w.session_id == session_id)) [
    | inl current ↦ rw current h.0
    | inr ended ↦ rw ended refl
  ])
  | inr apart ↦ rw apart (state_for-IsSound session_id k d h.1)
]

-- Whatever a transcript says, where it is applied without an error and the tasks of every window
-- were sound, they are sound afterwards: each task stands under its own id, was numbered before
-- the next number, and has a known status.
pub apply_entries-AllSound :
    (window_id session_id : String) (transcript : List (Dict Json)) (s s' : ClaudeTaskStateStore)
    (changed : Bool)
    → AllSound s.window_states
    → apply_entries window_id session_id transcript s ≡ some (changed, s')
    → AllSound s'.window_states
unfolding apply_entries
apply_entries-AllSound window_id session_id transcript s s' changed h e =
    Ensures-elim (λ p. AllSound p.1.window_states) (apply_entries window_id session_id transcript s)
      (elim (Bool-cases (not (truthy window_id) || not (truthy session_id))) [
        | inl unnamed ↦ rw unnamed h
        | inr named ↦ rw named (
            Ensures-bind (λ p. AllSound p.1.window_states) (apply_all transcript _) _
              λ p f.
                AllSound-put window_id p.1 s.window_states
                  (Ensures-elim (λ p. IsSound p.1) (apply_all transcript _)
                    (all-IsSound transcript _
                      (state_for-IsSound session_id window_id s.window_states h))
                    f)
                  h)
      ])
      e
