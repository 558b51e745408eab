-- ===== src/Manager/Await.antt =====
-- internal/session/session.go: AwaitClient, over what its polls observe.
use agmux.Base.{ℕ, Option, some, Bool, true, false, List, [], ◌∷◌}
use agmux.Session.{Status, connected, disconnected, offline}

-- One round of the loop: the status, the client as GetSSHClient would return it, and whether the
-- deadline has passed when the round ends.
pub record Poll : Type 0 where
  pub status : Status
  pub client : Option ℕ
  pub late : Bool

-- `waiting` means that the polls have run out.
pub data AwaitResult : Type 0 where
  got_client : ℕ → AwaitResult
  not_connected : Status → AwaitResult
  timed_out waiting : AwaitResult

unfoldable pub poll_rest : Bool → AwaitResult → AwaitResult
poll_rest true rest = timed_out
poll_rest false rest = rest

unfoldable pub poll_step : Status → Option ℕ → Bool → AwaitResult → AwaitResult
unfolding poll_rest
poll_step connected (some c) late rest = got_client c
poll_step offline client late rest = not_connected offline
poll_step disconnected client late rest = not_connected disconnected
poll_step _ client late rest = poll_rest late rest

unfoldable pub await_client : List Poll → AwaitResult
unfolding poll_step
await_client [] = waiting
await_client (p ∷ ps) = let rest = await_client ps in poll_step p.status p.client p.late rest
