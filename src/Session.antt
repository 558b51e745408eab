-- ===== src/Session.antt =====
-- internal/session/session.go: the sessions.
use agmux.Base.{
  Bytes, ℕ, String, ℤ, Option, none, some, Bool, true, false, str_eq, if◌then◌else◌, arith, ◌≡◌,
}

pub data Status : Type 0 where
  connected disconnected reconnecting offline connecting : Status

abbrev pub status_eq : Status → Status → Bool
status_eq connected connected = true
status_eq disconnected disconnected = true
status_eq reconnecting reconnecting = true
status_eq offline offline = true
status_eq connecting connecting = true
status_eq _ _ = false

pub status_eq_sound : (s t : Status) → status_eq s t ≡ true → s ≡ t
status_eq_sound connected t h = ground arith
status_eq_sound disconnected t h = ground arith
status_eq_sound reconnecting t h = ground arith
status_eq_sound offline t h = ground arith
status_eq_sound connecting t h = ground arith

-- A client is a number: which connections are open is in the manager's `is_open`.
pub record SshSession : Type 0 where
  pub name : String
  pub host : String
  pub user : String
  pub port : ℤ
  pub password : String
  pub key_path : String
  pub status : Status
  pub client : Option ℕ
  pub created_at : ℤ
  pub last_cmd : Bytes

pub record LocalSession : Type 0 where
  pub name : String
  pub host : String
  pub user : String
  pub status : Status
  pub created_at : ℤ
  pub last_cmd : Bytes

pub data Session : Type 0 where
  ssh : SshSession → Session
  local : LocalSession → Session

-- The methods of the Session interface.
unfoldable pub get_name : Session → String
get_name (ssh s) = s.name
get_name (local s) = s.name

unfoldable pub get_type : Session → String
get_type (ssh s) = "ssh"
get_type (local s) = "local"

unfoldable pub get_host : Session → String
get_host (ssh s) = s.host
get_host (local s) = s.host

unfoldable pub get_user : Session → String
get_user (ssh s) = s.user
get_user (local s) = s.user

unfoldable pub is_local : Session → Bool
is_local (ssh s) = false
is_local (local s) = true

unfoldable pub get_status : Session → Status
get_status (ssh s) = s.status
get_status (local s) = s.status

unfoldable pub get_created_at : Session → ℤ
get_created_at (ssh s) = s.created_at
get_created_at (local s) = s.created_at

unfoldable pub get_last_cmd : Session → Bytes
get_last_cmd (ssh s) = s.last_cmd
get_last_cmd (local s) = s.last_cmd

unfoldable pub set_last_cmd : Bytes → Session → Session
set_last_cmd cmd (ssh s) = ssh (record s { last_cmd = cmd })
set_last_cmd cmd (local s) = local (record s { last_cmd = cmd })

unfoldable pub set_status : Status → Session → Session
set_status st (ssh s) = ssh (record s { status = st })
set_status st (local s) = local (record s { status = st })

-- Close, but for the call that closes the connection, which is that of `client_of` before.
unfoldable pub close : Session → Session
close (ssh s) = ssh (record s { status = disconnected; client = none })
close (local s) = local (record s { status = disconnected })

-- The client that Close of a session, or a reconnect, goes on to close.
unfoldable pub client_of : Session → Option ℕ
client_of (ssh s) = s.client
client_of (local s) = none

unfoldable pub take_client : Session → Session
take_client (ssh s) = ssh (record s { client = none })
take_client (local s) = local s

unfoldable pub adopt_client : ℕ → Session → Session
adopt_client c (ssh s) = ssh (record s { client = some c; status = connected })
adopt_client c (local s) = local s

-- SetPassword and SetKeyPath, both skipped for an empty argument by the callers.
unfoldable pub set_credentials : String → String → Session → Session
set_credentials password key_path (ssh s) = ssh (record s {
  password = if str_eq password "" then s.password else password;
  key_path = if str_eq key_path "" then s.key_path else key_path;
})
set_credentials password key_path (local s) = local s
