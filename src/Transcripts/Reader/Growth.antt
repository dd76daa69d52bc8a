-- ===== src/Transcripts/Reader/Growth.antt =====
-- protocol/transcript_reader.py: what the polls report of a file that grows.
use Prim.Native.String.{len}
use text.Mathlib.TextPositions.{len-append}
use mathlib.Core.List.{append-nil}
use unified_icc.Base.{
  ◌∷◌, collect, truthy, ℕ, ◌+◌, String, ◌<>◌, true, false, ◌≡◌, ◌∙◌, refl, sym, ap, Option, none,
  some, List, [], ltb, any, or_default, eq_iff, arith, if◌then◌else◌, ◌==◌,
}
use unified_icc.Base.Dict.{Dict, get, get-put}
use unified_icc.Base.Json.{Json}
use unified_icc.Monitor.{TrackedSession, get_session, update_session}
use unified_icc.Events.{holds}
use unified_icc.Events.Lines.{lines, size, size-lines}
use unified_icc.Transcripts.{skipped, read_entries, read_new_lines}
use unified_icc.Transcripts.Laws.{is_held, all_entries, read_entries-append, read_from}
use unified_icc.Transcripts.Reader.{
  AgentMessage, AgentProvider, NewMessage, Poll, Stat, TranscriptReader, start_tracking, advance,
  read_on, messages_from, session_cwd, process_tracked, process_known, process_session_file,
  is_unchanged,
}

-- A reading that begins at an object reads all of a text whose lines do not hold it up.
read_part :
    (loads : String → Option (Dict Json)) (a t : String)
    → skipped t ≡ 0
    → any (is_held loads) (lines t) ≡ false
    → read_new_lines loads (holds (a <> t)) (len a) ≡ (all_entries loads (lines t), len (a <> t))
unfolding read_entries
read_part loads a t begins good =
    read_from loads a t begins
    ∙ ap (λ ls. read_entries loads ls (len a)) (sym (append-nil (lines t)))
    ∙ read_entries-append loads (lines t) [] (len a) good
    ∙ ap (λ es. (es, len a + size (lines t))) (append-nil (all_entries loads (lines t)))
    ∙ ap (λ n. (all_entries loads (lines t), n)) (omega (arith, size-lines t, len-append a t))

-- A message of the agent as one of the session.
abbrev pub announced : String → AgentMessage → NewMessage
announced session_id m = record {
  session_id = session_id;
  text = m.text;
  is_complete = m.is_complete;
  content_type = m.content_type;
  phase = m.phase;
  tool_use_id = m.tool_use_id;
  role = m.role;
  tool_name = m.tool_name;
}

messages_from-collect :
    (session_id : String) (ms : List AgentMessage)
    → messages_from session_id ms ≡ collect (λ m. truthy m.text) (announced session_id) ms
unfolding messages_from collect
messages_from-collect session_id [] = refl
messages_from-collect session_id (m ∷ ms) =
    ap (λ rest. if truthy m.text then announced session_id m ∷ rest else rest)
      (messages_from-collect session_id ms)

module _ (provider : AgentProvider) where
  -- The messages of some entries that have a text, for a session with its pending tools.
  abbrev pub reported : Poll → TranscriptReader → List (Dict Json) → List NewMessage
  reported poll r entries =
      collect (λ m. truthy m.text) (announced poll.session_id)
        (provider.parse_transcript_entries entries
          (or_default (get poll.session_id r.pending_tools) [])
          (session_cwd poll.session_id poll.current_map)).0

  abbrev pub offset_in : Option TrackedSession → Option ℕ
  offset_in none = none
  offset_in (some tracked) = some tracked.last_byte_offset

  -- What a poll has reported, and how far the session has been read.
  pub record Reports (session_id : String) (messages : List NewMessage) (offset : ℕ)
      (p : TranscriptReader × List NewMessage) : Type 0 where
    pub reports : p.1 ≡ messages
    pub reached : offset_in (get_session session_id p.0.state) ≡ some offset

  offset-update :
      (session_id : String) (x : TrackedSession) (r : TranscriptReader)
      → (x.session_id == session_id) ≡ true
      → get_session session_id (update_session x r.state) ≡ some x
  unfolding get_session update_session
  offset-update session_id x r own =
      ground (arith, own, get-put session_id x.session_id x r.state.tracked_sessions)

  read_on-Reports :
      (q : Poll) (n : ℕ) (a t : String) (tracked : TrackedSession) (r : TranscriptReader)
      → read_new_lines provider.loads q.file tracked.last_byte_offset
        ≡ (all_entries provider.loads (lines t), len (a <> t))
      → (tracked.session_id == q.session_id) ≡ true
      → Reports q.session_id
          (reported q r (all_entries provider.loads (lines t)))
          (len (a <> t))
          (read_on provider q n tracked r)
  unfolding read_on advance
  read_on-Reports q n a t tracked r e own = record {
    reports =
        messages_from-collect q.session_id _
        ∙ ap (λ (p : List (Dict Json) × ℕ). reported q r p.0) e;
    reached =
        ap offset_in (offset-update q.session_id _ r own)
        ∙ ap (λ (p : List (Dict Json) × ℕ). some p.1) e;
  }

  -- A session that is tracked up to the end of a text, and whose file has grown since.
  pub grown-Reports :
      (q : Poll) (n : ℕ) (a t : String) (tracked : TrackedSession) (r : TranscriptReader)
      → get_session q.session_id r.state ≡ some tracked
      → (tracked.session_id == q.session_id) ≡ true
      → tracked.last_byte_offset ≡ len a
      → q.stat ≡ some (n, len (a <> t))
      → q.file ≡ holds (a <> t)
      → ltb 0 (len t) ≡ true
      → skipped t ≡ 0
      → any (is_held provider.loads) (lines t) ≡ false
      → Reports q.session_id
          (reported q r (all_entries provider.loads (lines t)))
          (len (a <> t))
          (process_session_file provider q r)
  unfolding process_session_file process_known process_tracked
  grown-Reports q n a t tracked r found own at_end stat file more begins good =
      let last = or_default (get q.session_id r.file_mtimes) 0 in
      let changed : is_unchanged n last (len (a <> t)) tracked.last_byte_offset ≡ false =
        ground (arith, at_end, more, len-append a t) in
      let e : process_session_file provider q r ≡ read_on provider q n tracked r =
        ap (λ f. process_known provider f q r) found
        ∙ ap (λ st. process_tracked provider st q tracked r) stat
        ∙ ap (λ b. if b then (r, []) else read_on provider q n tracked r) changed in
      rw e (
        read_on-Reports q n a t tracked r
          (ap (λ f. read_new_lines provider.loads f tracked.last_byte_offset) file
            ∙ ap (λ o. read_new_lines provider.loads (holds (a <> t)) o) at_end
            ∙ read_part provider.loads a t begins good)
          own)

  -- A session file is first seen with one text, and polled again when another has been appended to
  -- it. The first poll reports nothing. The second one reports, in their order and with their
  -- fields, exactly those messages that the provider makes of the appended lines and that have a
  -- text, and leaves the session at the end of the file, where the appended text begins as an
  -- object and none of its lines holds the reader up.
  pub process_session_file-Reports :
      (p q : Poll) (m n : ℕ) (a t : String) (r : TranscriptReader)
      → get_session q.session_id r.state ≡ none
      → p.session_id ≡ q.session_id
      → p.stat ≡ some (m, len a)
      → q.stat ≡ some (n, len (a <> t))
      → q.file ≡ holds (a <> t)
      → ltb 0 (len t) ≡ true
      → skipped t ≡ 0
      → any (is_held provider.loads) (lines t) ≡ false
      → (let (s, first) = process_session_file provider p r in
          (first ≡ [])
          × Reports q.session_id
              (reported q r (all_entries provider.loads (lines t)))
              (len (a <> t))
              (process_session_file provider q s))
  unfolding process_session_file process_known start_tracking
  process_session_file-Reports p q m n a t r unseen same seen stat file more begins good =
      let e : process_session_file provider p r ≡ (start_tracking provider p r, []) =
        ap (λ f. process_known provider f p r) (ap (λ i. get_session i r.state) same ∙ unseen) in
      let own : (p.session_id == q.session_id) ≡ true =
        ground (arith, same, eq_iff p.session_id q.session_id) in
      let tracked : TrackedSession = record {
        session_id = p.session_id;
        file_path = p.file_path;
        last_byte_offset = (or_default p.stat (0, 0)).1;
      } in
      let s = start_tracking provider p r in
      rw e (
        refl,
        grown-Reports q n a t tracked s (offset-update q.session_id tracked r own) own
            (ap (λ (st : Stat). (or_default {A = ℕ × ℕ} st (0, 0)).1) seen) stat file more begins
            good,
      )
