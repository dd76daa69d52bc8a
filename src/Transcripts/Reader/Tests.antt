-- ===== src/Transcripts/Reader/Tests.antt =====
-- A session file that grows between two polls, and the theorems at it.
use Prim.Native.String.{len}
use unified_icc.Base.{
  ◌<>◌, String, true, false, ◌≡◌, refl, Option, none, some, List, [], ◌∷◌, if◌then◌else◌, any,
}
use unified_icc.Base.Dict.{Dict, get}
use unified_icc.Base.Json.{Json, str}
use unified_icc.Base.Text.{strip, ends_with}
use unified_icc.Monitor.{missing, get_session}
use unified_icc.Events.{holds}
use unified_icc.Events.Lines.{lines, begin_line}
use unified_icc.Transcripts.{skipped, parse_line}
use unified_icc.Transcripts.Laws.{is_held, all_entries}
use unified_icc.Transcripts.Reader.{
  AgentMessage, AgentProvider, Poll, TranscriptReader, process_session_file,
}
use unified_icc.Transcripts.Reader.Growth.{Reports, reported, process_session_file-Reports}
use unified_icc.Transcripts.Reader.Frame.{SameFor, is_own, process_session_file-SameFor}

-- A line that ends with a brace has an object.
abbrev parsed : String → Option (Dict Json)
parsed line = if ends_with line "}" then some (("text", str line) ∷ []) else none

abbrev agent_message : Option Json → AgentMessage
agent_message (some (str s)) = record {
  text = s;
  role = "assistant";
  content_type = "text";
  is_complete = true;
  phase = none;
  tool_use_id = none;
  tool_name = none;
}
agent_message _ = record {
  text = "";
  role = "user";
  content_type = "text";
  is_complete = true;
  phase = none;
  tool_use_id = none;
  tool_name = none;
}

abbrev messages_of : List (Dict Json) → List AgentMessage
messages_of [] = []
messages_of (d ∷ ds) = agent_message (get "text" d) ∷ messages_of ds

-- A provider whose entries are messages, after one without a text, and that keeps the pending tools.
abbrev claude : AgentProvider
claude = record {
  supports_task_tracking = true;
  loads = parsed;
  parse_transcript_entries = λ entries carry cwd. (agent_message none ∷ messages_of entries, carry);
}

abbrev seen : String
seen = "{1}\n{2}\n"

abbrev appended : String
appended = "{3}\n{4}\n"

abbrev first_poll : Poll
first_poll = record {
  session_id = "s1";
  file_path = "/tmp/s1.jsonl";
  window_id = "@1";
  current_map = [];
  now = 5;
  stat = some (7, len seen);
  file = holds seen;
}

abbrev second_poll : Poll
second_poll = record {
  session_id = "s1";
  file_path = "/tmp/s1.jsonl";
  window_id = "@1";
  current_map = [];
  now = 6;
  stat = some (8, len (seen <> appended));
  file = holds (seen <> appended);
}

abbrev reader : TranscriptReader
reader = record {
  state = record {
    state_file = missing;
    can_write = true;
    tracked_sessions =
        ("s2", record { session_id = "s2"; file_path = "/tmp/s2.jsonl"; last_byte_offset = 4 })
        ∷ ("s3", record { session_id = "s3"; file_path = "/tmp/s3.jsonl"; last_byte_offset = 9 })
        ∷ [];
    events_offset = 0;
    dirty = false;
  };
  idle_tracker = record { last_activity = ("s2", 3) ∷ ("s3", 4) ∷ [] };
  pending_tools = [];
  file_mtimes = ("s2", 2) ∷ ("s3", 1) ∷ [];
  tasks = [];
}

good : any (is_held parsed) (lines appended) ≡ false
unfolding any lines begin_line parse_line strip ends_with
good = refl

begins : skipped appended ≡ 0
unfolding skipped
begins = refl

unseen : get_session "s1" reader.state ≡ none
unfolding get_session get
unseen = refl

process_session_file-Reports_example :
    (let (s, reported_first) = process_session_file claude first_poll reader in
      (reported_first ≡ [])
      × Reports claude "s1"
          (reported claude second_poll reader (all_entries parsed (lines appended)))
          (len (seen <> appended))
          (process_session_file claude second_poll s))
process_session_file-Reports_example =
    process_session_file-Reports claude first_poll second_poll 7 8 seen appended reader unseen refl
      refl refl refl refl begins good

own : is_own "s2" (get_session "s2" reader.state) ≡ true
unfolding get_session get
own = refl

abbrev other : Poll
other = record second_poll { session_id = "s2" }

process_session_file-SameFor_example :
    SameFor "s3" reader (process_session_file claude other reader).0
process_session_file-SameFor_example =
    process_session_file-SameFor claude "s3" other reader refl own
