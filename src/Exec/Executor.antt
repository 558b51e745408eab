-- ===== src/Exec/Executor.antt =====
-- internal/exec/executor.go: Exec and ExecStream pick the session, then run.
use agmux.Base.{ℕ, ℤ, pos, String, Bytes, Option, none, some, Bool, List, if◌then◌else◌}
use agmux.Session.{Session, is_local, set_last_cmd, local}
use agmux.Manager.{Manager, modify, get}
use agmux.Manager.Await.{Poll, AwaitResult, got_client, await_client}
use agmux.Exec.{remote, local, SudoOptions, Process}
use agmux.Exec.Run.{Run, run}
use agmux.Exec.Stream.{StreamRun, stream}

-- Where a command runs: not at all, on this machine, or over a client; `not_ready` is what
-- AwaitClient ended with.
pub data Target : Type 0 where
  no_session here : Target
  over : ℕ → Target
  not_ready : AwaitResult → Target

unfoldable pub over_client : AwaitResult → Target
over_client (got_client c) = over c
over_client a = not_ready a

unfoldable pub on_session : Session → List Poll → Target
unfolding over_client
on_session s polls = if is_local s then here else over_client (await_client polls)

-- The part that Exec and ExecStream share: the last command of the session is set first.
unfoldable pub select : String → Bytes → List Poll → Manager → Manager × Target
unfolding on_session
select name command polls m = elim (get name m) [
  | none ↦ (m, no_session)
  | some ref ↦ (modify (set_last_cmd command) ref m, on_session (m.heap ref) polls)
]

pub data ExecReply : Type 0 where
  ran : Run → ExecReply
  session_error : Target → ExecReply

unfoldable pub run_on : Target → Option ℕ → SudoOptions → ℤ → Bool → Process → ExecReply
run_on here session o timeout timer_first p = ran (run local none o timeout timer_first p)
run_on (over c) session o timeout timer_first p = ran (run remote session o timeout timer_first p)
run_on t session o timeout timer_first p = session_error t

-- Exec; `session` is the error of NewSession, and `p` the process that the launched line makes.
unfoldable pub exec :
    String
    → Bytes
    → ℤ
    → SudoOptions
    → List Poll
    → Option ℕ
    → Bool
    → Process
    → Manager
    → Manager × ExecReply
unfolding run_on
exec name command timeout o polls session timer_first p m =
    let (m', t) = select name command polls m in (m', run_on t session o timeout timer_first p)

pub data StreamReply : Type 0 where
  streamed : StreamRun → StreamReply
  stream_session_error : Target → StreamReply

unfoldable pub stream_on : Target → Option ℕ → Bool → ℤ → Bool → Process → StreamReply
stream_on here session sudo timeout timer_first p =
    streamed (stream local none sudo timeout timer_first p)
stream_on (over c) session sudo timeout timer_first p =
    streamed (stream remote session sudo timeout timer_first p)
stream_on t session sudo timeout timer_first p = stream_session_error t

-- ExecStream, whose exit code is 1 on a session error.
unfoldable pub exec_stream :
    String
    → Bytes
    → ℤ
    → SudoOptions
    → List Poll
    → Option ℕ
    → Bool
    → Process
    → Manager
    → Manager × StreamReply
unfolding stream_on
exec_stream name command timeout o polls session timer_first p m =
    let (m', t) = select name command polls m in
    (m', stream_on t session o.enabled timeout timer_first p)

unfoldable pub stream_exit_code : StreamReply → ℤ
stream_exit_code (streamed s) = s.exit_code
stream_exit_code (stream_session_error t) = pos 1
