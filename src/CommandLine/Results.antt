-- ===== src/CommandLine/Results.antt =====
-- cmd/gssh/commands.go: what is shown of the answer to a command or a copy.
use agmux.Base.{ℤ, pos, int_eq, Option, none, some, Bool, [], ◌∷◌, ◌++◌, if◌then◌else◌, Bytes}
use agmux.Exec.{ExecResult}
use agmux.Client.{Screen}

pub data Ended : Type 0 where
  returns bad_result : Ended
  exits : ℤ → Ended
  transfer_failed : Bytes → Ended

-- The raw streams, or one line of JSON.
unfoldable pub show_result : (ExecResult → Bytes) → Bool → ExecResult → Screen → Screen
show_result json raw r s =
    if raw
    then record s { stdout = s.stdout ++ r.stdout; stderr = s.stderr ++ r.stderr }
    else record s { stdout = s.stdout ++ json r ++ b'\n' ∷ [] }

unfoldable pub exit_code_of : ExecResult → Ended
exit_code_of r = if int_eq r.exit_code (pos 0) then returns else exits r.exit_code

-- printExecResult
unfoldable pub print_exec_result :
    (ExecResult → Bytes) → Bool → Option ExecResult → Screen → Screen × Ended
unfolding show_result exit_code_of
print_exec_result json raw none s = (s, bad_result)
print_exec_result json raw (some r) s = (show_result json raw r s, exit_code_of r)
