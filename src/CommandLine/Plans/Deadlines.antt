-- ===== src/CommandLine/Plans/Deadlines.antt =====
-- How long the client waits for a command that has a timeout.
use agmux.Base.{
  ℕ, ◌+◌, ◌*◌, ◌≤◌, ◌<◌, ◌≡◌, refl, ℤ, pos, positive, int64-small, some, true, List, [], ◌∷◌, Bytes,
  arith, Bool-cases, inl, inr,
}
use agmux.CommandLine.Plans.{
  Plan, usage, sends, streams, buffered, cmd_deadline, stream_deadline, ExecOptions, exec_plan,
  run_plan, handle_exec_args, handle_run_args,
}

-- The plan waits for an answer until then.
abbrev pub Waits : ℤ → Plan → Type 0
Waits deadline (usage e) = Unit
Waits deadline (sends r d) = d ≡ deadline
Waits deadline (streams r d) = d ≡ some deadline

buffered-small : (n : ℕ) → n ≤ 9223372006 → buffered (pos n) ≡ pos (n * 1000000000 + 30000000000)
unfolding buffered
buffered-small n small = int64-small (n * 1000000000 + 30000000000) (omega (arith, small))

deadlines :
    (n : ℕ) (t : ℤ)
    → t ≡ pos n
    → 0 < n
    → n ≤ 9223372006
    → (cmd_deadline t ≡ pos (n * 1000000000 + 30000000000))
      × (stream_deadline t ≡ some (pos (n * 1000000000 + 30000000000)))
unfolding cmd_deadline stream_deadline
deadlines n t e more small =
    let on : positive (pos n) ≡ true = ground (arith, more) in
    rw (e, on, buffered-small n small) (refl, refl)

-- A command with a timeout of n seconds is waited for n + 30 seconds, in a session or on its own,
-- streamed or not, as long as the nanoseconds fit into an int64.
pub handle_exec_args-Waits :
    (o : ExecOptions) (args : List Bytes) (n : ℕ)
    → o.timeout ≡ pos n
    → 0 < n
    → n ≤ 9223372006
    → let deadline = pos (n * 1000000000 + 30000000000) in
      Waits deadline (handle_exec_args o args) × Waits deadline (handle_run_args o args)
unfolding handle_exec_args handle_run_args exec_plan run_plan
handle_exec_args-Waits o [] n e more small = (tt, tt)
handle_exec_args-Waits o (arg ∷ args) n e more small =
    let (waits, streaming) = deadlines n o.timeout e more small in
    elim (Bool-cases o.stream) [ inl s ↦ rw s (streaming, streaming) | inr s ↦ rw s (waits, waits) ]
