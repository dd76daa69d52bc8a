-- ===== src/Transcripts/Reader.antt =====
-- protocol/transcript_reader.py: a session file that is polled, for a provider that reads
-- incrementally. What the provider makes of entries is a parameter, and its tasks are recorded: `tasks`
-- holds its calls, newest first. Modification times are numbers of ticks.
pub mod Growth
pub mod Frame
mod Tests
use unified_icc.Base.{
  ℕ, String, Bool, false, not, ◌&&◌, Option, none, some, List, [], ◌∷◌, if◌then◌else◌, ◌==◌, ltb,
  truthy, or_default, is_empty,
}
use unified_icc.Base.Dict.{Dict, get, put, pop}
use unified_icc.Base.Json.{Json}
use unified_icc.Monitor.{MonitorState, TrackedSession, get_session, update_session, remove_session}
use unified_icc.Lifecycle.{IdleTracker, SessionMap, record_activity}
use unified_icc.Events.{EventFile}
use unified_icc.Transcripts.{read_new_lines}

pub record AgentMessage : Type 0 where
  pub text : String
  pub role : String
  pub content_type : String
  pub is_complete : Bool
  pub phase : Option String
  pub tool_use_id : Option String
  pub tool_name : Option String

pub record NewMessage : Type 0 where
  pub session_id : String
  pub text : String
  pub is_complete : Bool
  pub content_type : String
  pub phase : Option String
  pub tool_use_id : Option String
  pub role : String
  pub tool_name : Option String

pub record AgentProvider : Type 0 where
  pub supports_task_tracking : Bool
  pub loads : String → Option (Dict Json)
  pub parse_transcript_entries :
      List (Dict Json) → Dict Json → Option String → List AgentMessage × Dict Json

pub data TaskCall : Type 0 where
  seeded : String → String → String → TaskCall
  applied : String → String → List (Dict Json) → TaskCall

pub record TranscriptReader : Type 0 where
  pub state : MonitorState
  pub idle_tracker : IdleTracker
  pub pending_tools : Dict (Dict Json)
  pub file_mtimes : Dict ℕ
  pub tasks : List TaskCall

unfoldable pub clear_session : String → TranscriptReader → TranscriptReader
clear_session session_id r = record r {
  state = remove_session session_id r.state;
  file_mtimes = pop session_id r.file_mtimes;
  pending_tools = pop session_id r.pending_tools;
}

-- `details.get("session_id") == session_id`
abbrev pub is_of : String → Option String → Bool
is_of session_id none = false
is_of session_id (some other) = other == session_id

unfoldable pub session_cwd : String → SessionMap → Option String
session_cwd session_id [] = none
session_cwd session_id ((_, details) ∷ current_map) =
    if is_of session_id (get "session_id" details)
    then get "cwd" details
    else session_cwd session_id current_map

-- The messages that have a text.
unfoldable pub messages_from : String → List AgentMessage → List NewMessage
messages_from session_id [] = []
messages_from session_id (entry ∷ entries) =
    let rest = messages_from session_id entries in
    if truthy entry.text
    then record {
      session_id = session_id;
      text = entry.text;
      is_complete = entry.is_complete;
      content_type = entry.content_type;
      phase = entry.phase;
      tool_use_id = entry.tool_use_id;
      role = entry.role;
      tool_name = entry.tool_name;
    }
      ∷ rest
    else rest

unfoldable pub keep_pending : String → Dict Json → Dict (Dict Json) → Dict (Dict Json)
keep_pending session_id remaining d =
    if is_empty remaining then pop session_id d else put session_id remaining d

-- What `stat` gives: the time of the modification and the size, or an error.
abbrev pub Stat : Type 0
Stat = Option (ℕ × ℕ)

-- A poll of the file of a session: its window, the session map, the clock, and the file.
pub record Poll : Type 0 where
  pub session_id : String
  pub file_path : String
  pub window_id : String
  pub current_map : SessionMap
  pub now : ℕ
  pub stat : Stat
  pub file : EventFile

-- The file has not been modified since the last poll and has nothing behind the offset.
abbrev pub is_unchanged : ℕ → ℕ → ℕ → ℕ → Bool
is_unchanged current_mtime last_mtime current_size offset =
    not (ltb last_mtime current_mtime) && not (ltb offset current_size)

module _ (provider : AgentProvider) where
  -- A session that is seen first is tracked from the end of its file.
  unfoldable pub start_tracking : Poll → TranscriptReader → TranscriptReader
  start_tracking poll r =
      let (current_mtime, file_size) = or_default poll.stat (0, 0) in
      record r {
        state =
            update_session
              (record {
                session_id = poll.session_id;
                file_path = poll.file_path;
                last_byte_offset = file_size;
              })
              r.state;
        file_mtimes = put poll.session_id current_mtime r.file_mtimes;
        tasks =
            if provider.supports_task_tracking && truthy poll.window_id
            then seeded poll.window_id poll.session_id poll.file_path ∷ r.tasks
            else r.tasks;
      }

  -- The reader after it has read some entries up to an offset, and parsed them.
  unfoldable pub advance :
      Poll
      → ℕ
      → TrackedSession
      → List (Dict Json) × ℕ
      → Dict Json
      → TranscriptReader
      → TranscriptReader
  advance poll current_mtime tracked (new_entries, offset) remaining r = record r {
    state = update_session (record tracked { last_byte_offset = offset }) r.state;
    idle_tracker =
        if is_empty new_entries
        then r.idle_tracker
        else record_activity poll.now poll.session_id none r.idle_tracker;
    pending_tools = keep_pending poll.session_id remaining r.pending_tools;
    file_mtimes = put poll.session_id current_mtime r.file_mtimes;
    tasks =
        if provider.supports_task_tracking && truthy poll.window_id
        then applied poll.window_id poll.session_id new_entries ∷ r.tasks
        else r.tasks;
  }

  unfoldable pub read_on :
      Poll → ℕ → TrackedSession → TranscriptReader → TranscriptReader × List NewMessage
  read_on poll current_mtime tracked r =
      let new_entries = read_new_lines provider.loads poll.file tracked.last_byte_offset in
      let carry = or_default (get poll.session_id r.pending_tools) [] in
      let cwd = session_cwd poll.session_id poll.current_map in
      let (agent_messages, remaining) = provider.parse_transcript_entries new_entries.0 carry cwd in
      (
        advance poll current_mtime tracked new_entries remaining r,
        messages_from poll.session_id agent_messages,
      )

  unfoldable pub process_tracked :
      Stat → Poll → TrackedSession → TranscriptReader → TranscriptReader × List NewMessage
  process_tracked none poll tracked r = (r, [])
  process_tracked (some (current_mtime, current_size)) poll tracked r =
      let last_mtime = or_default (get poll.session_id r.file_mtimes) 0 in
      if is_unchanged current_mtime last_mtime current_size tracked.last_byte_offset
      then (r, [])
      else read_on poll current_mtime tracked r

  unfoldable pub process_known :
      Option TrackedSession → Poll → TranscriptReader → TranscriptReader × List NewMessage
  process_known none poll r = (start_tracking poll r, [])
  process_known (some tracked) poll r = process_tracked poll.stat poll tracked r

  -- `_process_session_file`: the reader, and the messages that are appended to `new_messages`.
  unfoldable pub process_session_file : Poll → TranscriptReader → TranscriptReader × List NewMessage
  process_session_file poll r = process_known (get_session poll.session_id r.state) poll r
