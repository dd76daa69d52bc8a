-- ===== src/Transcripts/Reader/Frame.antt =====
-- protocol/transcript_reader.py: the poll of one session leaves the others alone.
use unified_icc.Base.{
  ℕ, String, Bool, true, false, ◌≡◌, refl, Option, none, some, List, [], ◌==◌, or_default, is_empty,
  eq_iff, arith, if◌then◌else◌,
}
use unified_icc.Base.Dict.{Dict, get, get-put, get-pop}
use unified_icc.Base.Json.{Json}
use unified_icc.Monitor.{MonitorState, TrackedSession, get_session, update_session}
use unified_icc.Lifecycle.{IdleTracker, record_activity, get_last_activity}
use unified_icc.Transcripts.Reader.{
  AgentProvider, NewMessage, Poll, TranscriptReader, Stat, start_tracking, advance, read_on,
  is_unchanged, process_tracked, process_known, process_session_file, keep_pending,
}

-- The session that is tracked under an id, if any, has this id.
abbrev pub is_own : String → Option TrackedSession → Bool
is_own session_id none = true
is_own session_id (some tracked) = tracked.session_id == session_id

-- What the reader has of a session is the same.
pub record SameFor (other : String) (r s : TranscriptReader) : Type 0 where
  pub session : get_session other s.state ≡ get_session other r.state
  pub mtime : get other s.file_mtimes ≡ get other r.file_mtimes
  pub pending : get other s.pending_tools ≡ get other r.pending_tools
  pub activity : get_last_activity other s.idle_tracker ≡ get_last_activity other r.idle_tracker

abbrev same : (other : String) (r : TranscriptReader) → SameFor other r r
same other r = record { session = refl; mtime = refl; pending = refl; activity = refl }

get_session-update :
    (other : String) (x : TrackedSession) (s : MonitorState)
    → (x.session_id == other) ≡ false
    → get_session other (update_session x s) ≡ get_session other s
unfolding get_session update_session
get_session-update other x s apart =
    ground (arith, apart, get-put other x.session_id x s.tracked_sessions)

get-keep :
    (other session_id : String) (remaining : Dict Json) (d : Dict (Dict Json))
    → (session_id == other) ≡ false
    → get other (keep_pending session_id remaining d) ≡ get other d
unfolding keep_pending
get-keep other session_id remaining d apart =
    ground (arith, apart, get-put other session_id remaining d, get-pop other session_id d)

activity_kept :
    (b : Bool) (other session_id : String) (now : ℕ) (t : IdleTracker)
    → (session_id == other) ≡ false
    → get_last_activity other (if b then t else record_activity now session_id none t)
      ≡ get_last_activity other t
unfolding get_last_activity record_activity
activity_kept true other session_id now t apart = refl
activity_kept false other session_id now t apart =
    ground (arith, apart, get-put other session_id now t.last_activity)

module _ (provider : AgentProvider) (other : String) (poll : Poll) where
  start-SameFor :
      (r : TranscriptReader)
      → (poll.session_id == other) ≡ false
      → SameFor other r (start_tracking provider poll r)
  unfolding start_tracking
  start-SameFor r apart = record {
    session = get_session-update other _ r.state apart;
    mtime =
        ground (
          arith,
          apart,
          get-put other poll.session_id (or_default poll.stat (0, 0)).0 r.file_mtimes,
        );
    pending = refl;
    activity = refl;
  }

  advance-SameFor :
      (mtime : ℕ) (tracked : TrackedSession) (new_entries : List (Dict Json) × ℕ)
      (remaining : Dict Json) (r : TranscriptReader)
      → (poll.session_id == other) ≡ false
      → (tracked.session_id == poll.session_id) ≡ true
      → SameFor other r (advance provider poll mtime tracked new_entries remaining r)
  unfolding advance
  advance-SameFor mtime tracked new_entries remaining r apart own =
      let away : (tracked.session_id == other) ≡ false =
        ground (arith, apart, own, eq_iff tracked.session_id poll.session_id) in
      record {
        session = get_session-update other _ r.state away;
        mtime = ground (arith, apart, get-put other poll.session_id mtime r.file_mtimes);
        pending = get-keep other poll.session_id remaining r.pending_tools apart;
        activity =
            activity_kept (is_empty new_entries.0) other poll.session_id poll.now r.idle_tracker
              apart;
      }

  if_SameFor :
      (b : Bool) (r : TranscriptReader) (p : TranscriptReader × List NewMessage)
      → SameFor other r p.0
      → SameFor other r (if b then (r, []) else p).0
  if_SameFor true r p s = same other r
  if_SameFor false r p s = s

  tracked-SameFor :
      (stat : Stat) (tracked : TrackedSession) (r : TranscriptReader)
      → (poll.session_id == other) ≡ false
      → (tracked.session_id == poll.session_id) ≡ true
      → SameFor other r (process_tracked provider stat poll tracked r).0
  unfolding process_tracked read_on
  tracked-SameFor none tracked r apart own = same other r
  tracked-SameFor (some (mtime, size)) tracked r apart own =
      if_SameFor
        (is_unchanged mtime (or_default (get poll.session_id r.file_mtimes) 0) size
          tracked.last_byte_offset)
        r (read_on provider poll mtime tracked r) (advance-SameFor mtime tracked _ _ r apart own)

  known-SameFor :
      (found : Option TrackedSession) (r : TranscriptReader)
      → (poll.session_id == other) ≡ false
      → is_own poll.session_id found ≡ true
      → SameFor other r (process_known provider found poll r).0
  unfolding process_known
  known-SameFor none r apart own = start-SameFor r apart
  known-SameFor (some tracked) r apart own = tracked-SameFor poll.stat tracked r apart own

-- A poll of a session changes nothing for another one: its offset, the time of its file, its
-- pending tools and its activity stay, where the polled session is tracked under its own id, if at
-- all.
pub process_session_file-SameFor :
    (provider : AgentProvider) (other : String) (poll : Poll) (r : TranscriptReader)
    → (poll.session_id == other) ≡ false
    → is_own poll.session_id (get_session poll.session_id r.state) ≡ true
    → SameFor other r (process_session_file provider poll r).0
unfolding process_session_file
process_session_file-SameFor provider other poll r apart own =
    known-SameFor provider other poll (get_session poll.session_id r.state) r apart own
