-- ===== src/Persist.antt =====
-- internal/persist/store.go, and restoreState and the middle of Stop of internal/server/server.go. The
-- state file holds bytes, or is absent.
pub mod Restore
use agmux.Base.{
  ℕ, ℤ, pos, String, Option, none, some, Bool, true, false, not, ◌||◌, str_eq, List, [], ◌∷◌, map,
  if◌then◌else◌, Bytes,
}
use agmux.Session.{
  Session, Status, ssh, local, get_name, get_type, get_host, get_user, get_status, get_created_at,
}
use agmux.Manager.{Manager, DialResult, Outcome, returned}
use agmux.Manager.Methods.{connect_local, register_offline_session, kill_all, reconnect, list}
use agmux.Monitor.{watch}
use agmux.Server.{Server}

pub record SessionState : Type 0 where
  pub name : String
  pub session_type : String
  pub host : String
  pub user : String
  pub port : ℤ
  pub key_path : String
  pub status : Status
  pub created_at : ℤ
  pub auto_reconnect : Bool

abbrev basic_state : Session → SessionState
basic_state s = record {
  name = get_name s;
  session_type = get_type s;
  host = get_host s;
  user = get_user s;
  port = pos 0;
  key_path = "";
  status = get_status s;
  created_at = get_created_at s;
  auto_reconnect = false;
}

-- SessionToState
unfoldable pub session_to_state : Session → SessionState
session_to_state (local s) = basic_state (local s)
session_to_state (ssh s) = record (basic_state (ssh s)) {
  port = s.port;
  key_path = s.key_path;
  auto_reconnect = not (str_eq s.key_path "") || str_eq s.password "";
}

-- CollectState
unfoldable pub collect_state : List Session → List SessionState
unfolding session_to_state
collect_state sessions = map session_to_state sessions

-- json.Marshal and json.Unmarshal of the states: encoding/json.
pub record StateCodec : Type 0 where
  pub marshal : List SessionState → Bytes
  pub unmarshal : Bytes → Option (List SessionState)

-- Save, with the file written whole.
unfoldable pub save : StateCodec → List SessionState → Option Bytes
save c states = some (c.marshal states)

-- Load; an absent file is a fresh start. `none` is an error.
unfoldable pub load : StateCodec → Option Bytes → Option (List SessionState)
load c none = some []
load c (some bytes) = c.unmarshal bytes

-- What Stop leaves: the state file, and no session.
unfoldable pub stop : StateCodec → Server → Server × Option Bytes
unfolding save collect_state
stop c s = (record s { manager = kill_all s.manager }, save c (collect_state (list s.manager)))

-- One round of restoreState, up to the goroutine that it may start; `user` and `now` are what
-- ConnectLocal asks the system for.
unfoldable pub restore_one : String → ℤ → SessionState → Manager → Manager
restore_one user now st m =
    if str_eq st.session_type "local"
    then (connect_local st.name user now m).0
    else register_offline_session st.name st.user st.host st.port st.key_path st.created_at m

unfoldable pub restore_all : String → ℤ → List SessionState → Manager → Manager
unfolding restore_one
restore_all user now [] m = m
restore_all user now (st ∷ states) m = restore_all user now states (restore_one user now st m)

-- The names for which restoreState starts a reconnect.
unfoldable pub reconnects : List SessionState → List String
reconnects [] = []
reconnects (st ∷ states) =
    let more = reconnects states in
    if str_eq st.session_type "local"
    then more
    else if st.auto_reconnect || not (str_eq st.key_path "")
    then st.name ∷ more
    else more

unfoldable pub restore_loaded :
    String → ℤ → Option (List SessionState) → Manager → Manager × List String
unfolding restore_all reconnects
restore_loaded user now none m = (m, [])
restore_loaded user now (some states) m = (restore_all user now states m, reconnects states)

-- restoreState: an unreadable file restores nothing.
unfoldable pub restore_state :
    StateCodec → String → ℤ → Option Bytes → Manager → Manager × List String
unfolding load restore_loaded
restore_state c user now file m = restore_loaded user now (load c file) m

unfoldable watch_restored : String → Server → Manager × Outcome → Server
watch_restored name s (m, returned ref) = record s {
  manager = m;
  monitor = watch name ref s.monitor;
}
watch_restored name s (m, o) = record s { manager = m }

-- The goroutine for one name.
unfoldable pub auto_reconnect : String → DialResult → Server → Server
unfolding watch_restored
auto_reconnect name d s = watch_restored name s (reconnect name d s.manager)
