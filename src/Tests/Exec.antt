-- ===== src/Tests/Exec.antt =====
-- Commands and runs at concrete inputs.
use agmux.Base.{pos, ◌≡◌, refl, [], some, none, true, false, codes, Bytes}
use agmux.Exec.{
  SudoOptions, Process, launch, password_input, collect, first_failure, read_pipes, wait_after,
  exit_error, fault, Transport,
}
use agmux.Exec.Command.{started_words, words-launch}
use agmux.Exec.Run.{run, run_session, finish_run, exec_result, wait_timeout}
use agmux.Exec.Stream.{stream}
use agmux.Exec.Run.Outcome.{Agrees, run-stream-Agrees, RunsClean}
use agmux.Shell.Words.{words}

abbrev pub as_admin : SudoOptions
as_admin = record { enabled = true; password = codes "pw"; user = codes "web admin"; login = false }

-- sudo -u 'web admin' -S -p '' /bin/bash -c 'ls -l'
words-launch_example :
    (words (launch (codes "ls -l") as_admin).line ≡ some (started_words (codes "ls -l") as_admin))
    × ((password : Bytes)
        → (launch (codes "ls -l") (record as_admin { password = password })).line
          ≡ (launch (codes "ls -l") as_admin).line)
    × ((launch (codes "ls -l") as_admin).stdin ≡ some (password_input (codes "pw")))
words-launch_example = words-launch (codes "ls -l") as_admin

abbrev pub fails_with_3 : Process
fails_with_3 = record {
  stdout_pipe = none;
  stderr_pipe = none;
  stdin_pipe = none;
  start = none;
  password_write = none;
  stdout = codes "out";
  stderr = [];
  stdout_read = none;
  stderr_read = none;
  stdout_first = true;
  wait = some (exit_error (pos 3) []);
}

run_exit_3 :
    (run Transport.remote none as_admin (pos 0) false fails_with_3).result
    ≡ some (record { stdout = codes "out"; stderr = []; exit_code = pos 3 })
unfolding run run_session finish_run exec_result launch collect first_failure read_pipes wait_after
    wait_timeout
run_exit_3 = refl

runs_clean : RunsClean true fails_with_3
runs_clean = record {
  stdout_pipe = refl;
  stderr_pipe = refl;
  stdin_pipe = λ _. refl;
  start = refl;
  password_write = λ _. refl;
  stdout_read = refl;
  stderr_read = refl;
}

run-stream-Agrees_example :
    Agrees Transport.local false fails_with_3
      (run Transport.local none as_admin (pos 5) false fails_with_3)
      (stream Transport.local none true (pos 5) false fails_with_3)
run-stream-Agrees_example =
    run-stream-Agrees Transport.local as_admin (pos 5) false fails_with_3 runs_clean

abbrev no_start : Process
no_start = record fails_with_3 { start = some (fault 7) }
