-- ===== src/Forward/Copies.antt =====
-- internal/portforward/forwarder.go: the two copies of a forwarded connection, that of
-- handleLocalConnection and that of the goroutine in startRemoteForward, as steps that interleave.
pub mod Ends
use agmux.Base.{ℕ, ◌≡◌, Bool, true, false, not, ◌||◌, Option, none, some, if◌then◌else◌}

-- The Type of the forwarder.
pub data Side : Type 0 where
  local remote : Side

-- `local_conn` and `remote_conn` are what the forwarder has not closed, `local_over` and `remote_over`
-- say that the peer has ended its stream. `out` is io.Copy(remoteConn, localConn), whose end closes
-- `done`, and `back` is io.Copy(localConn, remoteConn).
pub record ConnPair : Type 0 where
  pub local_conn : Bool
  pub remote_conn : Bool
  pub local_over : Bool
  pub remote_over : Bool
  pub out : Bool
  pub back : Bool
  pub returned : Bool

unfoldable pub new_copies : ConnPair
new_copies = record {
  local_conn = true;
  remote_conn = true;
  local_over = false;
  remote_over = false;
  out = true;
  back = true;
  returned = false;
}

-- A connection that is closed since the other one could not be opened.
unfoldable pub refused : ConnPair
refused = record {
  local_conn = false;
  remote_conn = false;
  local_over = false;
  remote_over = false;
  out = false;
  back = false;
  returned = true;
}

-- An accepted connection up to the copies; `dials` says whether the dial to the other side succeeds.
unfoldable pub serve_conn : Side → Option ℕ → Bool → ConnPair
unfolding new_copies refused
serve_conn local none dials = refused
serve_conn local (some c) dials = if dials then new_copies else refused
serve_conn remote client dials = if dials then new_copies else refused

-- What the goroutine does after its copy: in a local forward it closes both connections.
unfoldable pub end_out : Side → ConnPair → ConnPair
end_out local s = record s { out = false; remote_conn = false; local_conn = false }
end_out remote s = record s { out = false }

unfoldable pub end_back : ConnPair → ConnPair
end_back s = record s { back = false }

-- The deferred calls, once `done` is closed.
unfoldable pub end_both : ConnPair → ConnPair
end_both s = record s { local_conn = false; remote_conn = false; returned = true }

-- Close and Restart, for a connection in conns: that is the local one on either side.
unfoldable pub close_conn : ConnPair → ConnPair
close_conn s = record s { local_conn = false }

unfoldable pub end_local : ConnPair → ConnPair
end_local s = record s { local_over = true }

unfoldable pub end_remote : ConnPair → ConnPair
end_remote s = record s { remote_over = true }

-- A read fails if its peer has ended or the connection is closed.
unfoldable pub out_over : ConnPair → Bool
out_over s = s.local_over || not s.local_conn

unfoldable pub back_over : ConnPair → Bool
back_over s = s.remote_over || not s.remote_conn

-- What happens without anything from a peer.
pub data Own (k : Side) (s : ConnPair) : ConnPair → Type 0 where
  ends_out : s.out ≡ true → out_over s ≡ true → Own k s (end_out k s)
  ends_back : s.back ≡ true → back_over s ≡ true → Own k s (end_back s)
  ends_both : s.back ≡ false → s.out ≡ false → Own k s (end_both s)

-- A peer ends its stream, or sends what the other side does not take; the forwarder is closed.
pub data Step (k : Side) (s : ConnPair) : ConnPair → Type 0 where
  own : {t : ConnPair} → Own k s t → Step k s t
  local_ends : Step k s (end_local s)
  remote_ends : Step k s (end_remote s)
  out_fails : s.out ≡ true → Step k s (end_out k s)
  back_fails : s.back ≡ true → Step k s (end_back s)
  closes : Step k s (close_conn s)

pub data Reach (k : Side) (s : ConnPair) : ConnPair → Type 0 where
  here : Reach k s s
  later : {t u : ConnPair} → Reach k s t → Step k t u → Reach k s u

pub data Run (k : Side) : ConnPair → ConnPair → Type 0 where
  rests : {s : ConnPair} → Run k s s
  goes : {s t u : ConnPair} → Own k s t → Run k t u → Run k s u
