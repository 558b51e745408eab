-- ===== src/Manager/Ownership/History.antt =====
-- The invariant after any history of calls.
use agmux.Base.{String, ℤ, List, [], ◌∷◌}
use agmux.Manager.Await.{Poll}
use agmux.Manager.{Manager, Request, DialResult}
use agmux.Manager.Methods.{
  connect_ssh, connect_local, kill, use_session, kill_all, register_offline_session, reconnect,
}
use agmux.Manager.Ownership.Methods

-- A call of a method, with what its environment answers.
pub data Call : Type 0 where
  connects : Request → ℤ → List Poll → DialResult → Call
  locals : String → String → ℤ → Call
  kills : String → Call
  uses : String → String → String → DialResult → Call
  kills_all : Call
  registers : String → String → String → ℤ → String → ℤ → Call
  reconnects : String → DialResult → Call

unfoldable pub step : Call → Manager → Manager
step (connects r now polls d) m = (connect_ssh r now polls d m).0
step (locals name user now) m = (connect_local name user now m).0
step (kills name) m = (kill name m).0
step (uses name p k d) m = (use_session name p k d m).0
step kills_all m = kill_all m
step (registers name user host port k at) m = register_offline_session name user host port k at m
step (reconnects name d) m = (reconnect name d m).0

unfoldable pub run : List Call → Manager → Manager
run [] m = m
run (c ∷ cs) m = run cs (step c m)
