-- ===== src/Lib.antt =====
-- A model of the room workspace: a broker through which agents and people share chat rooms, a daemon
-- with a registry of users, and plugins that keep a taskboard and a backlog.
--
-- The parts and the files that model them:
--
--   Base        tests, lists, association lists (a HashMap), texts as Rust's std treats them: prefixes,
--               decimal numbers, lines, blanks, and files of one serialized value a line.
--   Protocol    crates/room-protocol/src/lib.rs: Events has EventType, EventFilter and SubscriptionTier,
--               EventFilter reads a filter, Mentions is parse_mentions, Make the constructors of messages
--               and parse_client_line, Schema the schemas of commands, Message the enum of messages with
--               its accessors and set_seq, MessageId the printed ids of messages, and Rooms the
--               configuration and the ids of rooms.
--   Registry    crates/room-daemon/src/registry.rs: State has the records, load and save; Users, Tokens
--               and Teams one function for each method of UserRegistry, with TeamChecker of
--               crates/room-daemon/src/plugin/bridge.rs; Operations collects those that change state.
--               Invariant, Consistent, Laws and Membership are the proofs.
--   Taskboard   crates/room-plugin-taskboard/src: Task is task.rs; State is the plugin's state and
--               sweep_expired of lib.rs; Work and Review decide on the task that a handler of handlers.rs
--               has found, and Handlers finds it and commits the decision; Listing has the listings;
--               Plugin is Plugin::handle. Effects, Moves, Steps, Sound, Sweep, Closed, Ids, Storage,
--               Replies and Orphan are the proofs. Registry's team_checker is what the handlers ask
--               about teams.
--   Queue       crates/room-daemon/src/plugin/queue.rs: Store is the backlog and its file, Handlers the
--               commands; Backlog and Saved are the proofs.
--   Query       crates/room-daemon/src/query.rs: Filter is QueryFilter, which Satisfies explains.
--   Broker      crates/room-daemon/src/broker: Auth is auth.rs, Fanout is fanout.rs with append of
--               ../history.rs, Admin is admin.rs on the fields of RoomState (state.rs) that it uses;
--               Handshake has the two parsers of handshake.rs. Room adds the other fields of
--               RoomState with their setters and files; Commands is commands/: Validate, Status (the commands
--               that change the room), Team, Reports and Help (what they tell), and Route, which is
--               route_command; Session is session.rs. Permissions, Sequence, Private, Kick,
--               Commands.Accepted, Session.Mentions and Session.Outsiders are the proofs. Auth calls the
--               registry in daemon mode, and Admin both Auth's maps and the fanout; a session's line goes
--               through Protocol.Make, Route, and the fanout.
--   History     crates/room-daemon/src/history.rs: File reads the messages that the fanout appended, and
--               starts a room's counter from them; Resume and Reload are the proofs.
--   Poll        crates/room-cli/src/oneshot/poll: Cursor is poll_messages and pull_messages of mod.rs with
--               the cursor file of ../token.rs; Filters is filter_tier.rs and filter_events.rs with the
--               files of crates/room-daemon/src/broker/persistence.rs; Commands is the history mode of
--               commands.rs, which uses QueryFilter and the history. Asked says what its answer is to be;
--               Parts, Once, Tested, Sorted and Wanted are the proofs.
--   Agents      crates/room-daemon/src/broker/agent_cleanup.rs: Cleanup, on an operating system that is a
--               record of parameters; Terminated are the proofs.
--   Plugins     Host is PluginRegistry of crates/room-daemon/src/plugin/mod.rs, and Flag and Dispatch are
--               crates/room-daemon/src/broker/commands/plugin.rs, which checks a command as Broker.Commands
--               does and runs it in a room or, by --room, in another one; a plugin's handler is a parameter.
--               Indexed and Crossing are the proofs.
--   Daemon      RoomId, Rooms: validate_room_id, DaemonState and the requests CREATE and DESTROY of
--               crates/room-daemon/src/broker/daemon; Lifecycle are the proofs about its rooms. A room that
--               is created has the token map and the registry the daemon has then: in the code both stay
--               shared.
--   Tui         crates/room-cli/src/tui: Text is what it uses of Rust's String, with positions that count
--               bytes and a panic at a position inside a character; Display is display.rs, Widgets
--               widgets.rs, Parse parse.rs, and Input input.rs with the handlers of each key, of which Keys
--               has those that edit or move and handle_key. Announcements is a proof on Parse and
--               the broker, Display.Cursor and Rows are the proofs on the
--               wrapping, Input.Valid the invariant of the input box, and Input.Safe that keys keep it.
--
-- State is passed explicitly: a handler takes the state and returns it with its result, and what is
-- behind a mutex for the length of a handler is one step. A command's clock, fresh UUIDs, and whether a
-- write of a file succeeds come in an Env; a write that fails leaves any rest in the file. The error of a
-- call is a value, and what was changed before it stays changed.
--
-- Parameters: serde_json is a Codec, a pair of functions that may fail; where a theorem relies on it, it
-- says that the values in question are read back from their texts. chrono's formats, compiled regular
-- expressions and the table behind char::is_alphanumeric are functions. The JSON values that messages
-- carry are a type of their own. The width of a character on the terminal is a function.
--
-- Numbers are native: task ids are computed modulo 2^32, indices and sequence numbers modulo 2^64. The
-- only fuel is that of printing a decimal number, one more than the number, which has no more digits.
--
-- A HashMap or HashSet is a list without repeated keys; the order in which a map is listed is not
-- modelled. Texts of some parse errors are left out. Not modelled are sockets, the process of the daemon,
-- drawing on the terminal and its event loop, the command line, HTTP, and the descriptions of commands
-- for the help.
pub mod Base
pub mod Protocol
pub mod Registry
pub mod Taskboard
pub mod Queue
pub mod Query
pub mod Broker
pub mod History
pub mod Poll
pub mod Agents
pub mod Plugins
pub mod Daemon
pub mod Tui
