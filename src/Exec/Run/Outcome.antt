-- ===== src/Exec/Run/Outcome.antt =====
-- What a run reports, buffered and streamed.
use agmux.Base.{
  ◌≡◌, refl, ℤ, pos, negsuc, Option, none, some, Bool, true, false, Bytes, [], ◌++◌, append-nil, ap,
  ◌&&◌, arith, positive, if◌then◌else◌,
}
use agmux.Exec.{
  Err, exit_error, timed_out, Transport, remote, local, Process, Collected, collect, SudoOptions,
}
use agmux.Exec.Run.{Run, run, run_session, finish_run, exec_result, wait_timeout}
use agmux.Exec.Stream.{StreamRun, stream, start_stream, wait_stream, exit_status}

-- Every step up to the exit works.
pub record RunsClean (sudo : Bool) (p : Process) : Type 0 where
  pub stdout_pipe : p.stdout_pipe ≡ none
  pub stderr_pipe : p.stderr_pipe ≡ none
  pub stdin_pipe : sudo ≡ true → p.stdin_pipe ≡ none
  pub start : p.start ≡ none
  pub password_write : sudo ≡ true → p.password_write ≡ none
  pub stdout_read : p.stdout_read ≡ none
  pub stderr_read : p.stderr_read ≡ none

collect_clean :
    (sudo : Bool) (p : Process)
    → RunsClean sudo p
    → collect sudo p ≡ record { stdout = p.stdout; stderr = p.stderr; err = p.wait }
unfolding collect
collect_clean true p h =
    rw
      (
        h.stdout_pipe,
        h.stderr_pipe,
        h.stdin_pipe refl,
        h.start,
        h.password_write refl,
        h.stdout_read,
        h.stderr_read,
      )
      (ground arith)
collect_clean false p h =
    rw (h.stdout_pipe, h.stderr_pipe, h.start, h.stdout_read, h.stderr_read) (ground arith)

start_stream_clean :
    (sudo : Bool) (p : Process) (timeout : ℤ) (timer_first : Bool)
    → RunsClean sudo p
    → start_stream sudo timeout timer_first p
      ≡ wait_stream p.wait (wait_timeout timeout timer_first)
unfolding start_stream
start_stream_clean true p timeout timer_first h =
    rw (h.stdout_pipe, h.stderr_pipe, h.stdin_pipe refl, h.start, h.password_write refl) refl
start_stream_clean false p timeout timer_first h = rw (h.stdout_pipe, h.stderr_pipe, h.start) refl

-- The exit status that the error of Wait stands for.
abbrev pub status_of : Option Err → ℤ
status_of none = pos 0
status_of (some (exit_error code kept)) = code
status_of (some e) = pos 1

-- The stderr that a local exit error carries besides the pipe's.
abbrev pub kept_stderr : Transport → Option Err → Bytes
kept_stderr local (some (exit_error code kept)) = kept
kept_stderr t e = []

exec_result_parts :
    (t : Transport) (out err : Bytes) (e : Option Err)
    → exec_result t out err e
      ≡ record { stdout = out; stderr = err ++ kept_stderr t e; exit_code = status_of e }
unfolding exec_result
exec_result_parts remote out err none = rw append-nil
exec_result_parts remote out err (some (exit_error c k)) = rw append-nil
exec_result_parts remote out err (some _) = rw append-nil
exec_result_parts local out err none = rw append-nil
exec_result_parts local out err (some (exit_error c k)) = refl
exec_result_parts local out err (some _) = rw append-nil

exit_status_code :
    (e : Option Err) → ((exit_status e).exit_code ≡ status_of e) × ((exit_status e).killed ≡ false)
unfolding exit_status
exit_status_code none = (refl, refl)
exit_status_code (some (exit_error c k)) = (refl, refl)
exit_status_code (some _) = (refl, refl)

-- What both ways to run report of a process whose steps all work; `late` is a timeout that fires.
abbrev pub Agrees : Transport → Bool → Process → Run → StreamRun → Type 0
Agrees t late p r s =
    (r.result ≡ (
      if late
      then some (record { stdout = []; stderr = []; exit_code = negsuc 0 })
      else some (record {
        stdout = p.stdout;
        stderr = p.stderr ++ kept_stderr t p.wait;
        exit_code = status_of p.wait;
      })))
    × (r.err ≡ (if late then some timed_out else none))
    × (s.exit_code ≡ (if late then negsuc 0 else status_of p.wait))
    × (r.killed ≡ late)
    × (s.killed ≡ late)

finish-Agrees :
    (t : Transport) (late : Bool) (p : Process)
    → Agrees t late p
        (finish_run t (record { stdout = p.stdout; stderr = p.stderr; err = p.wait }) late)
        (wait_stream p.wait late)
unfolding finish_run wait_stream
finish-Agrees t true p = (refl, refl, refl, refl, refl)
finish-Agrees t false p =
    let (code, alive) = exit_status_code p.wait in
    (ap some (exec_result_parts t p.stdout p.stderr p.wait), refl, code, refl, alive)

run_session-none :
    (t : Transport) (c : Collected) (late : Bool) → run_session t none c late ≡ finish_run t c late
unfolding run_session
run_session-none remote c late = refl
run_session-none local c late = refl

stream_none :
    (t : Transport) (sudo : Bool) (timeout : ℤ) (timer_first : Bool) (p : Process)
    → stream t none sudo timeout timer_first p ≡ start_stream sudo timeout timer_first p
unfolding stream
stream_none remote sudo timeout timer_first p = refl
stream_none local sudo timeout timer_first p = refl

-- When the pipes, the start, the password and the reads work, the buffered and the streaming run of
-- a command, local or over SSH, report the same exit code: that of the process, 0 for a clean exit,
-- 1 for another error of Wait, and -1 with the process killed exactly if a positive timeout fires
-- first. The buffered run returns the whole output unless it timed out, which is its only error.
pub run-stream-Agrees :
    (t : Transport) (o : SudoOptions) (timeout : ℤ) (timer_first : Bool) (p : Process)
    → RunsClean o.enabled p
    → Agrees t
        (positive timeout && timer_first)
        p
        (run t none o timeout timer_first p)
        (stream t none o.enabled timeout timer_first p)
unfolding run wait_timeout
run-stream-Agrees t o timeout timer_first p h =
    rw
      (
        collect_clean o.enabled p h,
        run_session-none,
        stream_none,
        start_stream_clean o.enabled p timeout timer_first h,
      )
      (finish-Agrees t (positive timeout && timer_first) p)
