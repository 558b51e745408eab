-- ===== src/Monitor/Watches.antt =====
-- Which loops run: those that the monitor has registered, under one name each.
use agmux.Base.{ℕ, ◌<◌, String, ◌≡◌, some, Bool, true, List, [], ◌∷◌, lookup}
use agmux.Monitor.{Monitor, watch, stop_watch, tick}
use agmux.Manager.{Manager, DialResult}

-- A registered loop runs, a running loop is registered, and no two names share a loop.
pub record Registered (m : Monitor) : Type 0 where
  pub runs :
      (k : String) (id : ℕ)
      → lookup k m.watched ≡ some id
      → (id < m.next_loop) × ((m.loops id).running ≡ true)
  pub named : (id : ℕ) → (m.loops id).running ≡ true → (k : String) × (lookup k m.watched ≡ some id)
  pub one_name :
      (j k : String) (id : ℕ) → lookup j m.watched ≡ some id → lookup k m.watched ≡ some id → j ≡ k

-- What happens to a monitor; at a tick, whatever the manager is then.
pub data Event : Type 0 where
  watches : String → ℕ → Event
  stops : String → Event
  ticks : ℕ → Bool → DialResult → Manager → Event

abbrev after : Event → Monitor → Monitor
after (watches name ref) m = watch name ref m
after (stops name) m = stop_watch name m
after (ticks id alive d g) m = (tick id alive d m g).monitor

abbrev pub history : List Event → Monitor → Monitor
history [] m = m
history (e ∷ es) m = history es (after e m)
