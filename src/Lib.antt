-- ===== src/Lib.antt =====
-- A verification library of Falkn, a daemon that keeps coding agents running in terminals, with the
-- clients that attach to them and a watcher that reports to phones.
--
-- How the parts interact. The daemon's server (internal/server) answers each request by a call of the
-- session manager (internal/session/manager.go and shell.go). The manager keeps a map of live sessions.
-- A live session has a record for the clients, a ring with the last output, a journal of the rows that
-- left the screen, and one bounded queue for each attached client. A goroutine reads the output of the
-- session's process and hands each chunk to the ring, the emulator, the journal and the queues. The
-- watcher (internal/notifications) polls the daemon, asks internal/agent/state.go what a screen says,
-- and tells the registered devices. The command line of a new session comes from
-- internal/agent/launch.go. The attached terminal's footer is written only where the terminal stream
-- (internal/server/status_bar.go) is at a safe boundary.
--
-- Which module models which part:
--   Base            names of the libraries, Boolean tests, lists, Go maps as association lists (Assoc),
--                   Go integers (Int), text as a list of code points (Text), and the functions of Go's
--                   strings, strconv (Strings) and path/filepath (Paths) that the components call
--   Workspace       internal/workspace/directories.go: Resolve and List over the answers of the files
--   Session.Ring    internal/session/ring.go: byteRing, newByteRing, Write
--   Session.Subscriber  internal/session/output_subscriber.go: enqueue, close, dequeue, delivered, and
--                   the goroutine run as a step relation over every interleaving
--   Session.History  internal/session/screen_history.go: the overlap of line sequences (Sequence) and
--                   the journal of an alternate screen (Journal)
--   Session.Transcript  internal/session/transcript.go: cleanTranscript and its parts, and
--                   compactBlankLines of internal/session/manager.go
--   Session.Live    liveSession and its methods (internal/session/manager.go, shell.go) with
--                   protocol.SessionRecord (internal/protocol/protocol.go)
--   Session.Processes  internal/session/shell.go: activeAgentProcess and supportedAgentName
--   Session.Manager  the Manager: Disk has persist and EnablePersistence, Calls the calls on a session,
--                   Create has Create and CreateShell, Listing has List and RunningSessions; Invariant
--                   and Effects hold what is proved of them
--   Agent.Launch    internal/agent/launch.go: LaunchArguments
--   Agent.State     internal/agent/state.go: AttentionStateFor
--   Server.Stream   internal/server/status_bar.go: terminalStreamState
--   Server.StatusBar  internal/server/status_bar.go: attachStatusBar with the footer's line as an argument, and
--                   internal/server/status_bar_content.go: the content (Content) and its line (Line)
--   Server.Frames   internal/server/attach_client.go: attachFrameWriter, and internal/server/attach.go:
--                   readAttachFrames
--   Server.Switch   internal/server/attach_client.go: switchableSessions, sessionComesBefore,
--                   selectEndedSessionFallback;
--                   internal/server/attach_input.go: selectSwitchTarget;
--                   internal/server/attach_menu.go: the state of attachMenu
--   Server.MenuLines  internal/server/attach_menu.go: the rows that linesLocked draws
--   Server.Input    internal/server/attach_input.go: attachInputReader
--   Server.Requests  internal/server/server.go: dispatch, decodeParams, sessionFailure, with the messages
--                   of internal/protocol/protocol.go
--   Server.Handoff  internal/server/attach_handoff.go: WriteAttachHandoff, attachHandoffSessionID,
--                   stripAttachHandoffs
--   Server.Uploads  internal/server/uploads.go: the cached media, their listing, removal and clearing
--   Server.Prefix   internal/server/attach_prefix.go: parseAttachPrefix, AttachPrefixName
--   Notifications.Registrations  internal/notifications/config.go: configureAt, Forget,
--                   LoadConfiguration, validateRegistration
--   Notifications.Watcher  internal/notifications/watcher.go: poll and its deliveries
--
-- Conventions. A method that holds its locks is one step; a call of the manager is one step too, and
-- takes the manager to its outcome and the manager it leaves, on every path. Bytes, runes and times are
-- natural numbers; nextSubscriber wraps at 2^64 as written, and outputSequence is unbounded. A file of
-- JSON is the value that it decodes to. readAttachFrames and
-- stripAttachHandoffs run on fuel, one turn for each byte, which is enough since a frame takes five
-- bytes and a turn of the other moves on; the loop of
-- activeAgentProcess runs on one round more than there are processes and the digits of n on n+1
-- rounds, which are proved enough; every other loop is a recursion on a list or on a number.
--
-- What the environment does is an argument: the rows of the emulator xterm-go, the PTY and the
-- process, the clock, the random identifier, the search for executables, the file system, the text
-- that ps prints, the decoding of invalid UTF-8, the Unicode tables of ToLower, one regular
-- expression, url.Parse, the UUID pattern, Base64, SHA-256, JSON, the marker files and the relay.
--
-- Not modelled: cmd/falkn and cmd/falknd entry points, sockets, the coding of messages as JSON and
-- the wording of errors, internal/agentcontext, the environment of child processes and the encryption
-- of a notification.
pub mod Base
pub mod Session
pub mod Agent
pub mod Workspace
pub mod Server
pub mod Notifications
