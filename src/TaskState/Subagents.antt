-- ===== src/TaskState/Subagents.antt =====
-- utils/claude_task_state.py: the subagents of the windows.
use Prim.Native.String.{slice}
use unified_icc.Base.{ℕ, String, List, [], ◌∷◌, if◌then◌else◌, truthy, or_default, length, is_empty}
use unified_icc.Base.Dict.{Dict, get, put, pop}

-- `_active_subagents`
abbrev pub Subagents : Type 0
Subagents = Dict (Dict String)

abbrev pub agents_of : String → Subagents → Dict String
agents_of window_id s = or_default (get window_id s) []

unfoldable pub add_subagent : String → String → String → Subagents → ℕ × Subagents
add_subagent window_id subagent_id name s =
    let agents = put subagent_id name (agents_of window_id s) in
    (length agents, put window_id agents s)

-- `subagent_id[:12] or "subagent"`, for an id of single-byte characters
abbrev pub fallback_name : String → String
fallback_name subagent_id =
    let short = slice subagent_id 0 12 in if truthy short then short else "subagent"

unfoldable pub remove_subagent : String → String → Subagents → (String × ℕ) × Subagents
remove_subagent window_id subagent_id s =
    let agents = agents_of window_id s in
    let left = pop subagent_id agents in
    let s' = if is_empty left then pop window_id s else put window_id left s in
    if is_empty agents then ((fallback_name subagent_id, 0), s) else (
      (
        or_default (get subagent_id agents) (fallback_name subagent_id),
        length (agents_of window_id s'),
      ),
      s',
    )

values_of : Dict String → List String
values_of [] = []
values_of ((_, v) ∷ d) = v ∷ values_of d

unfoldable pub get_subagent_names : String → Subagents → List String
unfolding values_of
get_subagent_names window_id s = values_of (agents_of window_id s)

unfoldable pub clear_subagents : String → Subagents → Subagents
clear_subagents window_id s = pop window_id s
