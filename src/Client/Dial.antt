-- ===== src/Client/Dial.antt =====
-- cmd/gssh/client.go: dialOnce, dialDaemon and waitForDaemon. What the client finds on an attempt is
-- an Attempt; the spawned process and the clock are arguments.
pub mod Trust
use agmux.Base.{ℕ, Option, none, some, Bool, true, false, List, [], ◌∷◌, if◌then◌else◌}
use agmux.SocketPath.{Stat, Refusal, does_not_exist, validate}

pub data ConnectResult : Type 0 where
  connected : ℕ → ConnectResult
  connection_refused connect_failed : ConnectResult

-- `peer_ok` is what verifyDaemonPeer says of the process at the other end.
pub record Attempt : Type 0 where
  pub path : Stat
  pub connects : ConnectResult
  pub peer_ok : Bool

pub data DialFailure : Type 0 where
  refused_path : Refusal → DialFailure
  refused_connection failed_connection wrong_peer : DialFailure

pub data DialOnce : Type 0 where
  connection : ℕ → DialOnce
  no_connection : DialFailure → DialOnce

unfoldable pub connect_once : ConnectResult → Bool → DialOnce
connect_once connection_refused peer_ok = no_connection refused_connection
connect_once connect_failed peer_ok = no_connection failed_connection
connect_once (connected c) true = connection c
connect_once (connected c) false = no_connection wrong_peer

unfoldable pub connect_checked : Option Refusal → Attempt → DialOnce
unfolding connect_once
connect_checked (some r) a = no_connection (refused_path r)
connect_checked none a = connect_once a.connects a.peer_ok

-- dialOnce
unfoldable pub dial_once : ℕ → Attempt → DialOnce
unfolding connect_checked
dial_once uid a = connect_checked (validate uid a.path) a

-- isRecoverableDialError
unfoldable pub is_recoverable : DialFailure → Bool
is_recoverable (refused_path does_not_exist) = true
is_recoverable refused_connection = true
is_recoverable f = false

pub data Dialled : Type 0 where
  dialled : ℕ → Dialled
  not_running not_recoverable not_ready : DialFailure → Dialled
  start_failed waiting : Dialled

-- waitForDaemon: each attempt comes with whether the deadline has passed after it. `waiting` is not a
-- result: the attempts given have run out.
unfoldable pub wait_step : DialOnce → Bool → Dialled → Dialled
wait_step (connection c) late rest = dialled c
wait_step (no_connection f) true rest = not_ready f
wait_step (no_connection f) false rest = rest

unfoldable pub wait_for_daemon : ℕ → List (Attempt × Bool) → Dialled
unfolding wait_step
wait_for_daemon uid [] = waiting
wait_for_daemon uid ((a, late) ∷ more) = wait_step (dial_once uid a) late (wait_for_daemon uid more)

-- startDaemon and the wait; the second part says whether a daemon was spawned.
unfoldable pub spawn : Bool → Dialled → Dialled × Bool
spawn false after = (start_failed, false)
spawn true after = (after, true)

unfoldable pub recover : Bool → Bool → DialFailure → Dialled → Dialled × Bool
unfolding spawn
recover false starts f after = (not_running f, false)
recover true starts f after =
    if is_recoverable f then spawn starts after else (not_recoverable f, false)

unfoldable pub dial_or_recover : Bool → Bool → DialOnce → Dialled → Dialled × Bool
unfolding recover
dial_or_recover auto_start starts (connection c) after = (dialled c, false)
dial_or_recover auto_start starts (no_connection f) after = recover auto_start starts f after

-- dialDaemon
unfoldable pub dial_daemon : ℕ → Bool → Bool → Attempt → List (Attempt × Bool) → Dialled × Bool
unfolding dial_or_recover
dial_daemon uid auto_start starts a more =
    dial_or_recover auto_start starts (dial_once uid a) (wait_for_daemon uid more)
