-- ===== src/Exec/Stream.antt =====
-- internal/exec/executor.go: the streaming runs.
use agmux.Base.{ℕ, ℤ, pos, negsuc, Option, none, some, Bool, true, false, if◌then◌else◌}
use agmux.Exec.{Err, exit_error, new_session_failed, timed_out, Transport, remote, local, Process}
use agmux.Exec.Run.{wait_timeout}

-- What a streaming run returns, and whether it killed the process.
pub record StreamRun : Type 0 where
  pub exit_code : ℤ
  pub err : Option Err
  pub killed : Bool

-- sshExitCode and localExitCode
unfoldable pub exit_status : Option Err → StreamRun
exit_status none = record { exit_code = pos 0; err = none; killed = false }
exit_status (some (exit_error code kept)) = record { exit_code = code; err = none; killed = false }
exit_status (some e) = record { exit_code = pos 1; err = some e; killed = false }

-- waitStreamTimeout, whose `waited` is what Wait returns after the copies of both pipes have ended.
unfoldable pub wait_stream : Option Err → Bool → StreamRun
unfolding exit_status
wait_stream waited true = record { exit_code = negsuc 0; err = some timed_out; killed = true }
wait_stream waited false = exit_status waited

unfoldable pub stream_failure : Option Err → StreamRun → StreamRun
stream_failure none rest = rest
stream_failure (some e) rest = record { exit_code = pos 1; err = some e; killed = false }

unfoldable pub start_stream : Bool → ℤ → Bool → Process → StreamRun
unfolding stream_failure
start_stream sudo timeout timer_first p = stream_failure p.stdout_pipe (
    stream_failure p.stderr_pipe (
      stream_failure (if sudo then p.stdin_pipe else none) (
        stream_failure p.start (
          stream_failure (if sudo then p.password_write else none)
            (wait_stream p.wait (wait_timeout timeout timer_first))))))

-- runLocalStream, runRemoteStream and the four runs below them.
unfoldable pub stream : Transport → Option ℕ → Bool → ℤ → Bool → Process → StreamRun
stream local session sudo timeout timer_first p = start_stream sudo timeout timer_first p
stream remote none sudo timeout timer_first p = start_stream sudo timeout timer_first p
stream remote (some e) sudo timeout timer_first p = record {
  exit_code = pos 1;
  err = some (new_session_failed e);
  killed = false;
}
