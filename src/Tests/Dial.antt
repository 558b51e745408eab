-- ===== src/Tests/Dial.antt =====
-- The client with no daemon, which it starts.
use agmux.Base.{List, [], ◌∷◌, true, false, Bool}
use agmux.SocketPath.{missing, new_socket}
use agmux.Client.Dial.{Attempt, connected, connection_refused}

abbrev nothing : Attempt
nothing = record { path = missing; connects = connection_refused; peer_ok = false }

abbrev ready : Attempt
ready = record { path = new_socket 1000; connects = connected 7; peer_ok = true }

abbrev attempts : List (Attempt × Bool)
attempts = (nothing, false) ∷ (ready, false) ∷ []
