-- ===== src/Manager/Methods.antt =====
-- internal/session/session.go: the methods of the Manager, each with no other caller in between.
use agmux.Base.{ℕ, String, ℤ, none, some, str_eq, List, [], ◌∷◌, if◌then◌else◌, lookup, map}
use agmux.Manager.Await.{Poll, AwaitResult, got_client, waiting, await_client}
use agmux.Session.{
  Status, connected, disconnected, offline, Session, ssh, local, is_local, get_status, close,
  client_of, set_credentials, get_name,
}
use agmux.Manager.{
  Manager, not_found, other_host, not_ssh, ssh_name, await_error, Request, DialResult, modify,
  set_default, allocate, remove, close_option, resolve, Begun, reuse, await, redial, dial,
  collision, begin_connect, session_name, Outcome, returned, failed, blocked, finish_connect,
  begin_reconnect, finish_reconnect,
}

-- reconnectSSH
unfoldable pub reconnect_ssh : ℕ → DialResult → Manager → Manager × Outcome
reconnect_ssh ref d m = finish_reconnect (get_name (m.heap ref)) ref d (begin_reconnect ref m)

unfoldable pub awaited : ℕ → AwaitResult → Outcome
awaited ref (got_client c) = returned ref
awaited ref waiting = blocked
awaited ref _ = failed await_error

unfoldable pub continue_connect :
    Request → List Poll → DialResult → Manager × Begun → Manager × Outcome
continue_connect r polls d (m, reuse ref) = (m, returned ref)
continue_connect r polls d (m, await ref) = (m, awaited ref (await_client polls))
continue_connect r polls d (m, redial ref) =
    reconnect_ssh ref d (modify (set_credentials r.password r.key_path) ref m)
continue_connect r polls d (m, dial ref) = finish_connect (session_name r) ref d m
continue_connect r polls d (m, collision) = (m, failed other_host)

-- ConnectSSH
unfoldable pub connect_ssh : Request → ℤ → List Poll → DialResult → Manager → Manager × Outcome
connect_ssh r now polls d m = continue_connect r polls d (begin_connect r now m)

unfoldable pub reuse_local : String → ℕ → Session → Manager → Manager × Outcome
reuse_local name ref (local s) m = (set_default name m, returned ref)
reuse_local name ref (ssh s) m = (m, failed ssh_name)

unfoldable pub new_local : String → String → ℤ → Session
new_local name user now = local (record {
  name = name;
  host = "local";
  user = user;
  status = connected;
  created_at = now;
  last_cmd = [];
})

-- ConnectLocal; `user` is what osUser returns.
unfoldable pub connect_local : String → String → ℤ → Manager → Manager × Outcome
connect_local given user now m =
    let name : String = if str_eq given "" then "local" else given in
    elim (lookup name m.sessions) [
      | some ref ↦ reuse_local name ref (m.heap ref) m
      | none ↦ (set_default name (allocate name (new_local name user now) m), returned m.next_ref)
    ]

-- Close of the session `ref`.
unfoldable pub close_session : ℕ → Manager → Manager
close_session ref m = close_option (client_of (m.heap ref)) (modify close ref m)

-- Kill
unfoldable pub kill : String → Manager → Manager × Outcome
kill given m =
    let name = resolve given m in
    elim (lookup name m.sessions) [
      | none ↦ (m, failed not_found)
      | some ref ↦ (close_session ref (remove name m), returned ref)
    ]

unfoldable pub use_status : String → String → ℕ → DialResult → Status → Manager → Manager × Outcome
use_status password key_path ref d offline m =
    reconnect_ssh ref d (modify (set_credentials password key_path) ref m)
use_status password key_path ref d disconnected m =
    reconnect_ssh ref d (modify (set_credentials password key_path) ref m)
use_status password key_path ref d _ m = (m, returned ref)

-- Use
unfoldable pub use_session : String → String → String → DialResult → Manager → Manager × Outcome
use_session given password key_path d m =
    let name = resolve given m in
    elim (lookup name m.sessions) [
      | none ↦ (m, failed not_found)
      | some ref ↦
          (let m' = set_default name m in
            if is_local (m.heap ref)
            then (m', returned ref)
            else use_status password key_path ref d (get_status (m.heap ref)) m')
    ]

-- KillAll
unfoldable pub close_all : List (String × ℕ) → Manager → Manager
close_all [] m = m
close_all ((k, ref) ∷ rest) m = close_all rest (close_session ref m)

unfoldable pub kill_all : Manager → Manager
kill_all m = close_all m.sessions (record m { sessions = []; default_name = "" })

-- List, in the order in which the map stands here: Go's order is any.
unfoldable pub list : Manager → List Session
list m = map (λ (e : String × ℕ). m.heap e.1) m.sessions

-- RegisterOfflineSession
unfoldable pub register_offline_session :
    String → String → String → ℤ → String → ℤ → Manager → Manager
register_offline_session name user host port key_path created_at m =
    allocate name
      (ssh (record {
        name = name;
        host = host;
        user = user;
        port = port;
        password = "";
        key_path = key_path;
        status = offline;
        client = none;
        created_at = created_at;
        last_cmd = [];
      }))
      m

-- Reconnect
unfoldable pub reconnect : String → DialResult → Manager → Manager × Outcome
reconnect name d m = elim (lookup name m.sessions) [
  | none ↦ (m, failed not_found)
  | some ref ↦ if is_local (m.heap ref) then (m, failed not_ssh) else reconnect_ssh ref d m
]
