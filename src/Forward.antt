-- ===== src/Forward.antt =====
-- internal/portforward/forwarder.go. A forwarder's listener is a number below `next_listener`;
-- its accept loop runs or not. Accepts has the loop, Copies a connection.
pub mod Service
pub mod Prefix
pub mod Restarts
pub mod Copies
pub mod Accepts
use agmux.Base.{
  ℕ, suc, ℤ, String, Option, none, some, Bool, true, false, ◌&&◌, ◌||◌, not, str_eq, List, [], ◌∷◌,
  if◌then◌else◌, update,
}

pub record Forwarder : Type 0 where
  pub id : String
  pub session : String
  pub forward_type : String
  pub local_port : ℤ
  pub remote_port : ℤ
  pub bind_addr : String
  pub client : Option ℕ
  pub listener : Option ℕ
  pub closed : Bool
  pub accepting : Bool

-- The listeners of all forwarders: which are open.
pub record Net : Type 0 where
  pub is_listening : ℕ → Bool
  pub next_listener : ℕ

pub data ForwardError : Type 0 where
  invalid_type listen_failed forwarder_closed no_client remote_listen_failed : ForwardError

unfoldable pub open_listener : Net → Net
open_listener n = record {
  is_listening = update n.is_listening n.next_listener true;
  next_listener = suc n.next_listener;
}

unfoldable pub close_listener : Option ℕ → Net → Net
close_listener none n = n
close_listener (some l) n = record n { is_listening = update n.is_listening l false }

unfoldable pub default_bind : String → String
default_bind addr = if str_eq addr "" then "127.0.0.1" else addr

-- What the caller of NewForwarder gives; `id` is the new UUID.
pub record Spec : Type 0 where
  pub id : String
  pub forward_type : String
  pub local_port : ℤ
  pub remote_port : ℤ
  pub bind_addr : String

unfoldable pub blank_forwarder : Option ℕ → Spec → Forwarder
unfolding default_bind
blank_forwarder client s = record {
  id = s.id;
  session = "";
  forward_type = s.forward_type;
  local_port = s.local_port;
  remote_port = s.remote_port;
  bind_addr = default_bind s.bind_addr;
  client = client;
  listener = none;
  closed = false;
  accepting = false;
}

pub data Made : Type 0 where
  made : Forwarder → Made
  not_made : ForwardError → Made

-- NewForwarder; `listens` says whether net.Listen succeeds.
unfoldable pub new_forwarder : Option ℕ → Spec → Bool → Net → Net × Made
unfolding blank_forwarder open_listener
new_forwarder client s listens n =
    if str_eq s.forward_type "local"
    then (if listens
        then (
          open_listener n,
          made (record (blank_forwarder client s) { listener = some n.next_listener }),
        )
        else (n, not_made listen_failed))
    else if str_eq s.forward_type "remote"
    then (n, made (blank_forwarder client s))
    else (n, not_made invalid_type)

pub data Started : Type 0 where
  started : Forwarder → Started
  not_started : ForwardError → Forwarder → Started

-- startRemoteForward; `listens` says whether the listener factory succeeds.
unfoldable pub start_remote : Bool → Option ℕ → Forwarder → Net → Net × Started
unfolding open_listener
start_remote listens none f n = (n, not_started no_client f)
start_remote false (some c) f n = (n, not_started remote_listen_failed f)
start_remote true (some c) f n =
    (open_listener n, started (record f { listener = some n.next_listener; accepting = true }))

-- Start
unfoldable pub start : Bool → Forwarder → Net → Net × Started
unfolding start_remote
start listens f n =
    if f.closed
    then (n, not_started forwarder_closed f)
    else if str_eq f.forward_type "local"
    then (n, started (record f { accepting = true }))
    else start_remote listens f.client f n

-- Close: the accept loop has ended when it returns.
unfoldable pub close : Forwarder → Net → Net × Forwarder
unfolding close_listener
close f n =
    if f.closed
    then (n, f)
    else (close_listener f.listener n, record f { closed = true; accepting = false })

-- The first half of Restart: closed unless it was, with no loop running.
unfoldable pub stop : Forwarder → Net → Net × Forwarder
unfolding close_listener
stop f n =
    if f.closed
    then (n, record f { accepting = false })
    else (close_listener f.listener n, record f { closed = true; accepting = false })

unfoldable pub reset : Option ℕ → Forwarder → Forwarder
reset client f = record f { client = client; closed = false; listener = none }

unfoldable pub started_or_same : Net × Started → Net × Forwarder
started_or_same (n, started f) = (n, f)
started_or_same (n, not_started e f) = (n, f)

unfoldable pub rearm : Bool → Forwarder → Net → Net × Forwarder
unfolding open_listener start_remote started_or_same
rearm listens f n =
    if str_eq f.forward_type "local"
    then (if listens
        then (open_listener n, record f { listener = some n.next_listener; accepting = true })
        else (n, record f { accepting = true }))
    else if str_eq f.forward_type "remote"
    then started_or_same (start_remote listens f.client f n)
    else (n, f)

-- Restart
unfoldable pub restart : Option ℕ → Bool → Forwarder → Net → Net × Forwarder
unfolding stop reset rearm
restart client listens f n = let (n', g) = stop f n in rearm listens (reset client g) n'
