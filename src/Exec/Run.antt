-- ===== src/Exec/Run.antt =====
-- internal/exec/executor.go: the buffered runs.
pub mod Outcome
use agmux.Base.{
  ℕ, ℤ, pos, negsuc, Option, none, some, Bool, true, false, if◌then◌else◌, ◌&&◌, ◌++◌, [], ◌∷◌,
  Bytes, codes, positive,
}
use agmux.Exec.{
  ExecResult, Err, exit_error, new_session_failed, timed_out, Transport, remote, local, Process,
  Collected, collect, SudoOptions, Launch, launch,
}

-- exitCodeFromErr
unfoldable pub exit_code_from_err : Option Err → ℤ
exit_code_from_err none = pos 0
exit_code_from_err (some e) = pos 1

-- sshExecResult and localExecResult: a local exit error may carry more stderr.
unfoldable pub exec_result : Transport → Bytes → Bytes → Option Err → ExecResult
unfolding exit_code_from_err
exec_result remote out err (some (exit_error code kept)) = record {
  stdout = out;
  stderr = err;
  exit_code = code;
}
exec_result local out err (some (exit_error code kept)) = record {
  stdout = out;
  stderr = err ++ kept;
  exit_code = code;
}
exec_result t out err e = record { stdout = out; stderr = err; exit_code = exit_code_from_err e }

-- What a run returns, and whether it killed the process.
pub record Run : Type 0 where
  pub result : Option ExecResult
  pub err : Option Err
  pub killed : Bool

-- waitTimeout: `timer_first` says which channel the select takes, if there is a timer.
unfoldable pub wait_timeout : ℤ → Bool → Bool
wait_timeout timeout timer_first = positive timeout && timer_first

unfoldable pub finish_run : Transport → Collected → Bool → Run
unfolding exec_result
finish_run t c true = record {
  result = some (record { stdout = []; stderr = []; exit_code = negsuc 0 });
  err = some timed_out;
  killed = true;
}
finish_run t c false = record {
  result = some (exec_result t c.stdout c.stderr c.err);
  err = none;
  killed = false;
}

-- runLocal, runRemote and the four runs below them. `session` is the error of NewSession.
unfoldable pub run_session : Transport → Option ℕ → Collected → Bool → Run
unfolding finish_run
run_session local session c out_of_time = finish_run local c out_of_time
run_session remote none c out_of_time = finish_run remote c out_of_time
run_session remote (some e) c out_of_time = record {
  result = none;
  err = some (new_session_failed e);
  killed = false;
}

unfoldable pub run : Transport → Option ℕ → SudoOptions → ℤ → Bool → Process → Run
run t session o timeout timer_first p =
    run_session t session (collect o.enabled p) (wait_timeout timeout timer_first)
