-- ===== src/Lib.antt =====
-- unified_icc: the state that connects chat channels to tmux windows of coding agents.
--
-- A channel (a chat thread of some platform) is bound to a window (a tmux window in which an agent
-- runs). The program keeps pieces of state that have to stay in step:
--   * the channel router, which maps channels to windows and windows back to their channels;
--   * the window store, with the session, the provider and the modes of each window;
--   * the session map, a file that the agents' hook writes and that is synced into the store;
--   * the tasks of the agents and the lifecycle of their sessions;
--   * the log of the hook and the transcripts of the sessions, which are read as they grow, and the
--     sockets that listen to channels;
--   * the messages that windows leave each other in a mailbox;
--   * the persisted copies of all this, which are repaired at startup, when tmux may have given
--     the windows new ids.
-- The router removes the store's markers of windows that it gives up; the session map syncs into
-- the store and names windows through the router; the recovery works on the persisted dicts.
--
-- Files, with the code that each models:
--   Base, Base/*            lists as sets, dicts as association lists in the order of insertion,
--                           texts, JSON values
--   WindowStore, with
--     Modes, Created, Sessions, Serial, Access
--                           src/unified_icc/tmux/window_state_store.py
--   Router, with
--     Index, Eviction, Binding, Unbinding, Serial
--                           src/unified_icc/core/channel_router.py
--   Resolver, with
--     Unchanged, Kept       src/unified_icc/tmux/window_resolver.py
--   SessionMap, with
--     Parsing, Sync, Loading, Pruning
--                           src/unified_icc/state/session_map.py
--   TaskState, with
--     Fields, Apply, Listing, Entries, Sound, Completion, Snapshot,
--     Subagents
--                           src/unified_icc/utils/claude_task_state.py
--   Lifecycle, with
--     Ending, Laws          src/unified_icc/core/session_lifecycle.py,
--                           src/unified_icc/utils/idle_tracker.py
--   Monitor, with Laws      src/unified_icc/state/monitor_state.py
--   Preferences, with Serial, Laws
--                           src/unified_icc/utils/user_preferences.py
--   Session, with
--     Audit, Serial, Naming, Startup
--                           src/unified_icc/core/session.py
--   Mailbox, with
--     Names, Messages, Sending, Sweeping
--                           src/unified_icc/utils/mailbox.py
--   Events, with Lines, Laws
--                           src/unified_icc/events/event_reader.py
--   Connections, with Laws, Broadcast
--                           src/unified_icc/server/connection_manager.py
--   Transcripts, with Laws, Losses, Reader
--                           src/unified_icc/protocol/transcript_reader.py
--   Persistence, with Laws
--                           src/unified_icc/state/state_persistence.py
--   Cleanup, with Laws      src/unified_icc/utils/topic_state_registry.py
--
-- A routing is consistent where its reverse index agrees with its bindings. Each method of a class
-- is a function by clauses that takes the state and returns the new one.
-- The state of a component is a record whose fields are the attributes of its class. A method that
-- may raise returns an Option, with `none` for the exception. A set is a list that operations keep
-- free of duplicates. A dict is an association list: a store replaces in place or appends, as in
-- Python, and a missing key is `none`. A callback is recorded: `saves` counts the scheduled saves,
-- `kills` lists the killed windows, `switches` the reported switches of provider. Loops over dicts
-- and lists are structural recursion. Only the decimal digits of a number are made on fuel, for
-- which the number and one more is enough.
--
-- Not modelled: the file writes themselves, the calls of tmux, the clock, the logging; `int(s)` of
-- the migration and `json.loads` of a line are parameters. The hook, the routes of the server, the
-- command line, the chat front ends, the providers and the parsers of transcript entries are input
-- and output around the modelled state. A file that cannot be read is a value of its own. Lower case,
-- digits and white space are those of ASCII. Where the program would make the text of a nested JSON
-- list or object, the step returns `none`.
pub mod Base
pub mod WindowStore
pub mod Router
pub mod Resolver
pub mod SessionMap
pub mod TaskState
pub mod Lifecycle
pub mod Monitor
pub mod Preferences
pub mod Session
pub mod Mailbox
pub mod Events
pub mod Connections
pub mod Transcripts
pub mod Persistence
pub mod Cleanup
