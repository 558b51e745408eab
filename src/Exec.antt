-- ===== src/Exec.antt =====
-- internal/exec/executor.go: command lines, pipes and results.
pub mod Command
pub mod Run
pub mod Stream
pub mod Executor
use agmux.Base.{
  ℕ, ℤ, Option, none, some, Bool, true, false, if◌then◌else◌, ◌++◌, [], ◌∷◌, Bytes, codes, ltb,
  length, positive,
}
use agmux.Shell.{quote}

-- protocol.SudoOptions
pub record SudoOptions : Type 0 where
  pub enabled : Bool
  pub password : Bytes
  pub user : Bytes
  pub login : Bool

pub record ExecResult : Type 0 where
  pub stdout : Bytes
  pub stderr : Bytes
  pub exit_code : ℤ

-- An error of a process is its exit status, with what os/exec may have kept of its stderr; any other
-- error of a pipe, a start, a read or a wait is a number.
pub data Err : Type 0 where
  exit_error : ℤ → Bytes → Err
  fault new_session_failed : ℕ → Err
  password_failed timed_out : Err

pub data Transport : Type 0 where
  remote local : Transport

-- fullCmd
unfoldable pub full_command : Bytes → Bytes
full_command command = codes "/bin/bash -c " ++ quote command

-- buildSudoPrefix
unfoldable pub sudo_prefix : Bool → Bytes → Bytes
sudo_prefix true user = codes "sudo -i"
sudo_prefix false [] = codes "sudo"
sudo_prefix false (c ∷ user) = codes "sudo -u " ++ quote (c ∷ user)

-- buildSudoCommand
unfoldable pub sudo_command : Bytes → SudoOptions → Bytes
sudo_command command o = sudo_prefix o.login o.user ++ (codes " -S -p '' " ++ command)

-- The command line that is started, and what is written to its stdin before the pipe is closed;
-- `none` where no stdin pipe is made.
pub record Launch : Type 0 where
  pub line : Bytes
  pub stdin : Option Bytes

-- writePassword
unfoldable pub password_input : Bytes → Bytes
password_input [] = []
password_input (c ∷ password) = (c ∷ password) ++ b'\n' ∷ []

unfoldable pub launch : Bytes → SudoOptions → Launch
launch command o =
    if o.enabled
    then record {
      line = sudo_command (full_command command) o;
      stdin = some (password_input o.password);
    }
    else record { line = full_command command; stdin = none }

-- How the steps of a run come out.
pub record Process : Type 0 where
  pub stdout_pipe : Option Err
  pub stderr_pipe : Option Err
  pub stdin_pipe : Option Err
  pub start : Option Err
  pub password_write : Option Err
  pub stdout : Bytes
  pub stderr : Bytes
  pub stdout_read : Option Err
  pub stderr_read : Option Err
  pub stdout_first : Bool
  pub wait : Option Err

pub record Collected : Type 0 where
  pub stdout : Bytes
  pub stderr : Bytes
  pub err : Option Err

abbrev pub or_else : Option Err → Option Err → Option Err
or_else none b = b
or_else (some a) b = some a

-- readPipes: the two readers report in either order, and the first error stays.
unfoldable pub read_pipes : Process → Collected
read_pipes p = record {
  stdout = p.stdout;
  stderr = p.stderr;
  err =
      if p.stdout_first
      then or_else p.stdout_read p.stderr_read
      else or_else p.stderr_read p.stdout_read;
}

unfoldable pub wait_after : Process → Collected → Collected
wait_after p c = record c { err = or_else c.err p.wait }

abbrev pub no_output : Err → Collected
no_output e = record { stdout = []; stderr = []; err = some e }

-- The steps in order; the first that fails ends the goroutine.
unfoldable pub first_failure : Option Err → Collected → Collected
first_failure none rest = rest
first_failure (some e) rest = no_output e

-- The goroutine of the four buffered runs; the stdin steps are made under sudo only.
unfoldable pub collect : Bool → Process → Collected
unfolding first_failure read_pipes wait_after
collect sudo p = first_failure p.stdout_pipe (
    first_failure p.stderr_pipe (
      first_failure (if sudo then p.stdin_pipe else none) (
        first_failure p.start
          (first_failure (if sudo then p.password_write else none) (wait_after p (read_pipes p))))))
