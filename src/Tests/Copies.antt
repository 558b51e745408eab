-- ===== src/Tests/Copies.antt =====
-- Forwarded connections at concrete inputs.
use agmux.Base.{◌≡◌, refl, true, some}
use agmux.Forward.Copies.{
  local, ConnPair, new_copies, serve_conn, end_remote, end_back, back_over, Reach, here, later, own,
  remote_ends, ends_back,
}
use agmux.Forward.Copies.Ends.{is_over, CanEnd, Reach-CanEnd}

-- The server at the far end of a local forward has ended, and its copy too.
abbrev half_open : ConnPair
half_open = end_back (end_remote (serve_conn local (some 0) true))

half_open_runs : Reach local (serve_conn local (some 0) true) half_open
unfolding serve_conn new_copies end_remote back_over
half_open_runs = later (later here remote_ends) (own (ends_back refl refl))

-- The local client still waits on an open connection.
waits_on : half_open.local_conn ≡ true
unfolding serve_conn new_copies end_remote end_back
waits_on = refl

Reach-CanEnd_example :
    (CanEnd local half_open → is_over local half_open ≡ true)
    × (is_over local half_open ≡ true → CanEnd local half_open)
Reach-CanEnd_example = Reach-CanEnd local (some 0) true half_open half_open_runs
