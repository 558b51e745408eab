-- ===== src/Manager.antt =====
-- internal/session/session.go: AwaitClient and the Manager. Each stretch of code under one lock is a
-- function of the state; the methods compose them with no other caller in between.
pub mod Await
pub mod Methods
pub mod Ownership
use agmux.Base.{
  ℕ, suc, String, ℤ, Option, none, some, Bool, true, false, ◌&&◌, not, str_eq, int_eq, List, [],
  ◌∷◌, if◌then◌else◌, ◌==◌, update, lookup, insert, erase, map,
}
use agmux.Session.{
  Status, connected, disconnected, reconnecting, offline, connecting, SshSession, LocalSession,
  Session, ssh, local, is_local, get_status, set_status, status_eq, close, client_of, take_client,
  adopt_client, set_credentials,
}

-- A session is a reference into `heap`; a client is a number below `next_client`.
pub record Manager : Type 0 where
  pub sessions : List (String × ℕ)
  pub default_name : String
  pub heap : ℕ → Session
  pub next_ref : ℕ
  pub is_open : ℕ → Bool
  pub next_client : ℕ

pub data Error : Type 0 where
  not_found other_host not_ssh ssh_name dial_failed await_error : Error
  disconnected_while_connecting removed_while_reconnecting state_changed : Error

pub record Request : Type 0 where
  pub name : String
  pub user : String
  pub host : String
  pub port : ℤ
  pub password : String
  pub key_path : String

-- What m.connect, which is not code of the repository below crypto/ssh, comes back with.
pub data DialResult : Type 0 where
  accepted refused : DialResult

-- NewManager; the heap holds a dummy where nothing is allocated.
unfoldable pub new_manager : Manager
new_manager = record {
  sessions = [];
  default_name = "";
  heap = λ _. local (record {
    name = "";
    host = "local";
    user = "";
    status = disconnected;
    created_at = ℤ.pos 0;
    last_cmd = [];
  });
  next_ref = 0;
  is_open = λ _. false;
  next_client = 0;
}

unfoldable pub modify : (Session → Session) → ℕ → Manager → Manager
modify f ref m = record m { heap = update m.heap ref (f (m.heap ref)) }

unfoldable pub set_default : String → Manager → Manager
set_default name m = record m { default_name = name }

unfoldable pub allocate : String → Session → Manager → Manager
allocate name s m = record m {
  sessions = insert name m.next_ref m.sessions;
  heap = update m.heap m.next_ref s;
  next_ref = suc m.next_ref;
}

-- delete(m.sessions, name), and the default with it.
unfoldable pub remove : String → Manager → Manager
remove name m = record m {
  sessions = erase name m.sessions;
  default_name = if str_eq m.default_name name then "" else m.default_name;
}

-- A dial that succeeds makes the client `m.next_client`.
unfoldable pub open_client : Manager → Manager
open_client m = record m {
  is_open = update m.is_open m.next_client true;
  next_client = suc m.next_client;
}

unfoldable pub close_client : ℕ → Manager → Manager
close_client c m = record m { is_open = update m.is_open c false }

unfoldable pub close_option : Option ℕ → Manager → Manager
unfolding close_client
close_option none m = m
close_option (some c) m = close_client c m

unfoldable pub resolve : String → Manager → String
resolve name m = if str_eq name "" then m.default_name else name

-- Get
unfoldable pub get : String → Manager → Option ℕ
unfolding resolve
get name m = lookup (resolve name m) m.sessions

-- The first critical section of ConnectSSH, and where the method goes on.
pub data Begun : Type 0 where
  reuse await redial dial : ℕ → Begun
  collision : Begun

unfoldable pub begin_same : String → ℕ → Status → Manager → Manager × Begun
unfolding set_default
begin_same name ref connected m = (set_default name m, reuse ref)
begin_same name ref connecting m = (set_default name m, await ref)
begin_same name ref reconnecting m = (set_default name m, await ref)
begin_same name ref _ m = (set_default name m, redial ref)

unfoldable pub same_target : Request → SshSession → Bool
same_target r s = str_eq s.host r.host && (str_eq s.user r.user && int_eq s.port r.port)

unfoldable pub begin_existing : Request → String → ℕ → Session → Manager → Manager × Begun
unfolding begin_same same_target
begin_existing r name ref (ssh s) m =
    if same_target r s then begin_same name ref s.status m else (m, collision)
begin_existing r name ref (local s) m = (m, collision)

unfoldable pub new_session : Request → String → ℤ → Session
new_session r name now = ssh (record {
  name = name;
  host = r.host;
  user = r.user;
  port = r.port;
  password = r.password;
  key_path = r.key_path;
  status = connecting;
  client = none;
  created_at = now;
  last_cmd = [];
})

unfoldable pub session_name : Request → String
session_name r =
    if str_eq r.name ""
    then Prim.Native.String.◌++◌ r.user (Prim.Native.String.◌++◌ "@" r.host)
    else r.name

unfoldable pub begin_connect : Request → ℤ → Manager → Manager × Begun
unfolding begin_existing new_session set_default allocate session_name
begin_connect r now m =
    let name = session_name r in
    elim (lookup name m.sessions) [
      | some ref ↦ begin_existing r name ref (m.heap ref) m
      | none ↦ (set_default name (allocate name (new_session r name now) m), dial m.next_ref)
    ]

-- ConnectSSH after its dial: adopt the client, or close it if the status has changed.
unfoldable pub adopt_if : Status → ℕ → ℕ → Manager → Manager × Bool
unfolding modify adopt_client close_client
adopt_if expected ref c m =
    if status_eq (get_status (m.heap ref)) expected
    then (modify (adopt_client c) ref m, true)
    else (close_client c m, false)

pub data Outcome : Type 0 where
  returned : ℕ → Outcome
  failed : Error → Outcome
  blocked : Outcome

unfoldable pub adopted_or : Error → ℕ → Manager × Bool → Manager × Outcome
adopted_or e ref (m, true) = (m, returned ref)
adopted_or e ref (m, false) = (m, failed e)

unfoldable pub finish_connect : String → ℕ → DialResult → Manager → Manager × Outcome
unfolding modify remove open_client adopt_if adopted_or
finish_connect name ref refused m =
    (remove name (modify (set_status offline) ref m), failed dial_failed)
finish_connect name ref accepted m =
    adopted_or disconnected_while_connecting ref
      (adopt_if connecting ref m.next_client (open_client m))

-- reconnectSSH up to its dial: the old client is taken off the session and closed.
unfoldable pub begin_reconnect : ℕ → Manager → Manager
unfolding modify close_option
begin_reconnect ref m =
    let marked = modify (set_status reconnecting) ref m in
    close_option (client_of (marked.heap ref)) (modify take_client ref marked)

-- m.sessions[sess.Name] is still this session.
unfoldable pub still_registered : String → ℕ → Manager → Bool
still_registered name ref m = elim (lookup name m.sessions) [ none ↦ false | some r ↦ r == ref ]

unfoldable pub finish_reconnect : String → ℕ → DialResult → Manager → Manager × Outcome
unfolding modify open_client close_client still_registered adopt_if adopted_or
finish_reconnect name ref refused m = (modify (set_status offline) ref m, failed dial_failed)
finish_reconnect name ref accepted m =
    let c = m.next_client in
    let dialed = open_client m in
    if still_registered name ref dialed
    then adopted_or state_changed ref (adopt_if reconnecting ref c dialed)
    else (close_client c dialed, failed removed_while_reconnecting)
