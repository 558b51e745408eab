-- ===== src/Monitor.antt =====
-- internal/reconnect/monitor.go. Durations are seconds. A loop is a number; a tick is what its timer
-- does, one round of monitorLoop.
pub mod Backoff
pub mod Watches
use agmux.Base.{
  ℕ, suc, ◌*◌, String, Option, none, some, Bool, true, false, List, [], ◌∷◌, if◌then◌else◌, ltb,
  update, lookup, insert, erase, ◌&&◌, min,
}
use agmux.Session.{
  Status, connected, disconnected, reconnecting, offline, connecting, Session, get_status, get_name,
  client_of,
}
use agmux.Manager.{Manager, DialResult, Outcome, returned, failed, blocked}
use agmux.Manager.Methods.{reconnect}

abbrev pub monitor_interval : ℕ
monitor_interval = 5

abbrev pub initial_backoff : ℕ
initial_backoff = 5

abbrev pub max_backoff : ℕ
max_backoff = 5 * 60

abbrev pub backoff_factor : ℕ
backoff_factor = 2

-- `running` is false once the cancel channel is closed.
pub record Loop : Type 0 where
  pub session : ℕ
  pub backoff : ℕ
  pub delay : ℕ
  pub running : Bool

pub record Monitor : Type 0 where
  pub watched : List (String × ℕ)
  pub loops : ℕ → Loop
  pub next_loop : ℕ

-- NewMonitor
unfoldable pub new_monitor : Monitor
new_monitor = record {
  watched = [];
  loops = λ _. record {
    session = 0;
    backoff = initial_backoff;
    delay = monitor_interval;
    running = false;
  };
  next_loop = 0;
}

unfoldable pub start_loop : String → ℕ → Monitor → Monitor
start_loop name ref m = record {
  watched = insert name m.next_loop m.watched;
  loops = update m.loops m.next_loop (record {
    session = ref;
    backoff = initial_backoff;
    delay = monitor_interval;
    running = true;
  });
  next_loop = suc m.next_loop;
}

-- Watch
unfoldable pub watch : String → ℕ → Monitor → Monitor
unfolding start_loop
watch name ref m = elim (lookup name m.watched) [ some id ↦ m | none ↦ start_loop name ref m ]

unfoldable pub set_loop : ℕ → Loop → Monitor → Monitor
set_loop id l m = record m { loops = update m.loops id l }

-- StopWatch
unfoldable pub stop_watch : String → Monitor → Monitor
unfolding set_loop
stop_watch name m = elim (lookup name m.watched) [
  | none ↦ m
  | some id ↦
      set_loop id (record (m.loops id) { running = false })
        (record m { watched = erase name m.watched })
]

-- What checkAndReconnect finds before it reconnects.
pub data Check : Type 0 where
  gone busy healthy dead : Check

unfoldable pub check : Status → Option ℕ → Bool → Check
check disconnected client alive = gone
check connecting client alive = busy
check reconnecting client alive = busy
check st (some c) true = healthy
check st client alive = dead

unfoldable pub after_failure : Loop → Loop
after_failure l = record l {
  delay = l.backoff;
  backoff = min (l.backoff * backoff_factor) max_backoff;
}

unfoldable pub after_success : Loop → Loop
after_success l = record l { delay = monitor_interval; backoff = initial_backoff }

-- A tick also says whether the forwards of the session are restarted.
pub record Ticked : Type 0 where
  pub monitor : Monitor
  pub manager : Manager
  pub restarts : Bool

unfoldable pub after_reconnect : ℕ → Monitor → Manager × Outcome → Ticked
unfolding set_loop after_failure after_success
after_reconnect id m (g, returned ref) = record {
  monitor = set_loop id (after_success (m.loops id)) m;
  manager = g;
  restarts = true;
}
after_reconnect id m (g, _) = record {
  monitor = set_loop id (after_failure (m.loops id)) m;
  manager = g;
  restarts = false;
}

unfoldable pub act : Check → ℕ → String → DialResult → Monitor → Manager → Ticked
unfolding set_loop after_success stop_watch after_reconnect
act gone id name d m g = record {
  monitor =
      set_loop id (record ((stop_watch name m).loops id) { delay = monitor_interval })
        (stop_watch name m);
  manager = g;
  restarts = false;
}
act busy id name d m g = record {
  monitor = set_loop id (record (m.loops id) { delay = monitor_interval }) m;
  manager = g;
  restarts = false;
}
act healthy id name d m g = record {
  monitor = set_loop id (after_success (m.loops id)) m;
  manager = g;
  restarts = false;
}
act dead id name d m g = after_reconnect id m (reconnect name d g)

-- monitorLoop when the timer fires: nothing, if the loop was cancelled. `alive` is IsAlive's answer.
unfoldable pub tick : ℕ → Bool → DialResult → Monitor → Manager → Ticked
unfolding act check
tick id alive d m g =
    let s = g.heap (m.loops id).session in
    if (m.loops id).running
    then act (check (get_status s) (client_of s) alive) id (get_name s) d m g
    else record { monitor = m; manager = g; restarts = false }
