-- ===== src/Tests/Forward.antt =====
-- Forwards at concrete inputs.
use agmux.Base.{pos, ◌≡◌, refl, [], ◌∷◌, some, true, false, lookup}
use agmux.Forward.{Forwarder}
use agmux.Forward.Service.{
  Service, close_forward, closed, close_by, find_forward, matches, one_match,
}
use agmux.Forward.Prefix.{Answers, close_forward-Answers}

abbrev web : Forwarder
web = record {
  id = "3f2a";
  session = "prod";
  forward_type = "local";
  local_port = pos 8080;
  remote_port = pos 80;
  bind_addr = "127.0.0.1";
  client = some 0;
  listener = some 0;
  closed = false;
  accepting = true;
}

abbrev two_forwards : Service
two_forwards = record {
  forwards = ("3f2a", web) ∷ ("91bc", record web { id = "91bc"; listener = some 1 }) ∷ [];
  net = record { is_listening = λ l. true; next_listener = 2 };
}

prefix_closes : (close_forward "91" two_forwards).1 ≡ closed "91bc"
unfolding close_forward close_by find_forward matches one_match lookup
prefix_closes = refl

close_forward-Answers_example : Answers "91" two_forwards (close_forward "91" two_forwards)
close_forward-Answers_example = close_forward-Answers "91" two_forwards
