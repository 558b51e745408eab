-- ===== src/Tests/Watches.antt =====
-- The monitor at concrete events.
use agmux.Base.{◌≡◌, List, [], ◌∷◌, ◌*◌, ◌^◌, min, true, false}
use agmux.Manager.{new_manager, refused}
use agmux.Monitor.{Loop, initial_backoff, max_backoff, after_success}
use agmux.Monitor.Backoff.{failures, delay-failures}
use agmux.Monitor.Watches.{Event, watches, stops, ticks}

abbrev fresh : Loop
fresh = record { session = 0; backoff = 5; delay = 5; running = true }

-- 5, 10, 20, ... 160 seconds, then five minutes.
delay-failures_example :
    (failures 7 (after_success fresh)).delay ≡ min (initial_backoff * 2 ^ 6) max_backoff
delay-failures_example = delay-failures 6 fresh

abbrev events : List Event
events =
    watches "web" 0
    ∷ watches "db" 1
    ∷ ticks 0 false refused new_manager
    ∷ stops "web"
    ∷ watches "web" 2
    ∷ []
