-- ===== src/Lib.antt =====
-- A model of gssh, a multiplexer of SSH sessions with a client and a daemon (Go).
--
-- The client (cmd/gssh) turns its command line into one request, finds or starts the daemon, sends the
-- request as a frame over a Unix socket and prints the answer. The daemon (internal/server) reads
-- frames, dispatches them to the session manager, the executor, the port forwards and the file
-- transfer, and watches SSH sessions to reconnect them.
--
-- Parts and files:
-- - Base: shared names, tests, maps and integers. A Go string that the code walks is a list of its
--   bytes, a map key is a native text, a Go int is read as an integer where signs matter.
-- - Shell: internal/shellquote/quote.go, and shellQuote and joinCommandArgs of cmd/gssh/commands.go.
--   Shell/Words.antt is an independent reader of POSIX words, for lines without expansions.
-- - Imsg: pkg/imsg/imsg.go. A reader is the bytes that it will deliver; a writer has room for some.
-- - Session: the two kinds of session of internal/session/session.go and their methods.
-- - Manager: AwaitClient and the Manager of internal/session/session.go. A session is a reference into
--   a heap and a client a number, so that identity and ownership can be stated. A stretch of code
--   under one lock is one function; Manager/Methods.antt composes them as the methods do. A dial is
--   an argument: whether crypto/ssh connected.
-- - Exec: internal/exec/executor.go. How the steps of a process come out (pipes, start, reads, Wait)
--   is the record Process, given to a run; the four variants of a buffered or of a streaming run are
--   one definition over a Transport. Exec/Executor.antt picks the session as Exec and ExecStream do.
-- - Monitor: internal/reconnect/monitor.go. A goroutine of monitorLoop is a Loop, one firing of its
--   timer a tick; times are seconds, and whether IsAlive answered is an argument.
-- - Forward: internal/portforward/forwarder.go. A listener is a number; whether one comes up is an
--   argument. Forward/Copies.antt has one accepted connection, from its dial to the end of its two
--   copies, as steps that interleave with what its peers do, and Forward/Accepts.antt the accept loop
--   of a local forward against Close; that of a remote forward is not modelled.
-- - Server: internal/server/server.go, the messages of internal/protocol and the audit entries of
--   internal/audit. Server/Handlers.antt has one function per request, Server/Dispatch.antt the switch
--   and a round of handleConn. World holds what the network, the processes and the clock answer while
--   one request is handled; encoding/json is a codec that is a parameter. The text of errors is not
--   modelled: a request is handled with no other in between. Server/Lifecycle.antt has the accept loop,
--   the handlers and Stop as a step relation in which they interleave and a request is one stretch. What a file transfer does is an
--   answer of World.
-- - Client: what cmd/gssh/client.go makes of the frames that it reads. The loop over a stream runs on
--   fuel, one more than the bytes on the wire, since each round reads a header. Client/Dial.antt finds
--   or starts the daemon.
-- - CommandLine: cmd/gssh/main.go, dest.go and commands.go, whose options package flag has parsed;
--   strconv.Atoi is modelled. CommandLine/Main.antt finds the handler, CommandLine/Plans.antt has the
--   request of each command and its deadline, CommandLine/Results.antt what is shown of a result. A
--   deadline is an int64 of nanoseconds. Names are texts and what is walked is bytes: a function that
--   is a parameter gives the text that bytes spell. What list and forwards print is not modelled.
-- - Persist: internal/persist/store.go, restoreState, and the part of Stop that saves and closes the
--   sessions.
-- - Ssh: internal/ssh/client.go. Key files, the agent and golang.org/x/crypto/ssh/knownhosts are
--   parameters; the handshake is the DialResult of Manager.
-- - SocketPath: internal/socketpath/path.go and the part of Server.Start that makes the socket, on what
--   stands at the path.
-- - Transfer: internal/transfer/sftp.go and safefile_unix.go. Transfer.antt has the relative paths, as
--   bytes; Transfer/Kernel.antt a file system of numbered nodes with links and "..", in which other
--   processes act before each call and a call may be refused; Transfer/SafeRoot.antt works on it as
--   safeRoot does. Transfer/Paths.antt has the checks of absolute paths, as lists of names; what such a
--   path leads to is the record Host, a parameter. Transfer/Download.antt is the walk over whatever the
--   server sends, and Transfer/Service.antt a whole download and the result of a
--   transfer. Transfer/Upload.antt sends files to a server that is a parameter, a state with the
--   operations of github.com/pkg/sftp. The climb of resolveExistingParent runs on fuel, one more than the names.
-- - Tests: runs at concrete inputs.
pub mod Base
pub mod Client
pub mod CommandLine
pub mod Exec
pub mod Forward
pub mod Imsg
pub mod Manager
pub mod Monitor
pub mod Persist
pub mod Server
pub mod Session
pub mod Shell
pub mod SocketPath
pub mod Ssh
pub mod Tests
pub mod Transfer
