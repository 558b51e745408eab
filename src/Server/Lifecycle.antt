-- ===== src/Server/Lifecycle.antt =====
-- internal/server/server.go: the accept loop of Start, the goroutines of handleConn and Stop, as steps
-- that interleave. A stretch under one lock is one step; what a request does is left to Dispatch.
pub mod Shutdown
pub mod Progress
use agmux.Base.{
  without, close_conns, contains-without, contains-close_conns, ℕ, zero, suc, ◌≡◌, Bool, true,
  false, not, ◌&&◌, ◌||◌, ◌==◌, List, [], ◌∷◌, ◌++◌, if◌then◌else◌, contains,
}

-- Where the accept loop stands: the connection in its hand is checked against the channel, then under
-- acceptMu.
pub data Accept : Type 0 where
  accepting ended : Accept
  accepted checked : ℕ → Accept

-- How far Stop has come; sync.Once lets one call run.
pub data Stopping : Type 0 where
  idle shut marked unlistened draining finished : Stopping

-- `live` are the connections that the server has not closed, `active` is activeConn. A handler waits
-- for a message, is busy with a request, or has left its loop and is still counted by the WaitGroup.
pub record Life : Type 0 where
  pub accept : Accept
  pub stop : Stopping
  pub shutdown : Bool
  pub stopping : Bool
  pub listening : Bool
  pub next_conn : ℕ
  pub live : List ℕ
  pub active : List ℕ
  pub reading : List ℕ
  pub busy : List ℕ
  pub leaving : List ℕ

-- NewServer, and Start up to the loop
unfoldable pub new_life : Life
new_life = record {
  accept = accepting;
  stop = idle;
  shutdown = false;
  stopping = false;
  listening = true;
  next_conn = 0;
  live = [];
  active = [];
  reading = [];
  busy = [];
  leaving = [];
}

-- The loop of Start
unfoldable pub accept_conn : Life → Life
accept_conn s = record s {
  accept = accepted s.next_conn;
  next_conn = suc s.next_conn;
  live = s.next_conn ∷ s.live;
}

unfoldable pub accept_error : Life → Life
accept_error s = record s { accept = if s.shutdown then ended else accepting }

unfoldable pub refuse : ℕ → Life → Life
unfolding without
refuse c s = record s { accept = ended; live = without c s.live }

unfoldable pub check_shutdown : ℕ → Life → Life
unfolding refuse
check_shutdown c s = if s.shutdown then refuse c s else record s { accept = checked c }

unfoldable pub add_conn : ℕ → Life → Life
add_conn c s = record s { accept = accepting; active = c ∷ s.active; reading = c ∷ s.reading }

unfoldable pub register_conn : ℕ → Life → Life
unfolding refuse add_conn
register_conn c s = if s.stopping then refuse c s else add_conn c s

-- A handler takes a message, ends with it, and leaves its loop: removeConn, Close, and then Done.
unfoldable pub take_message : ℕ → Life → Life
unfolding without
take_message c s = record s { reading = without c s.reading; busy = c ∷ s.busy }

unfoldable pub end_message : ℕ → Life → Life
unfolding without
end_message c s = record s { busy = without c s.busy; reading = c ∷ s.reading }

unfoldable pub leave : ℕ → Life → Life
unfolding without
leave c s = record s {
  reading = without c s.reading;
  active = without c s.active;
  live = without c s.live;
  leaving = c ∷ s.leaving;
}

unfoldable pub wait_done : ℕ → Life → Life
unfolding without
wait_done c s = record s { leaving = without c s.leaving }

-- Stop
unfoldable pub close_shutdown : Life → Life
close_shutdown s = record s { shutdown = true; stop = shut }

unfoldable pub mark_stopping : Life → Life
mark_stopping s = record s { stopping = true; stop = marked }

unfoldable pub stop_listening : Life → Life
stop_listening s = record s { listening = false; stop = unlistened }

unfoldable pub save_and_kill : Life → Life
save_and_kill s = record s { stop = draining }

unfoldable pub close_active_conns : Life → Life
unfolding close_conns
close_active_conns s = record s { live = close_conns s.active s.live }

unfoldable pub clean_up : Life → Life
clean_up s = record s { stop = finished }

-- The steps, each with what it waits for. A handler leaves when its client hangs up, or when the read
-- fails since the server has closed the connection.
pub data Step (s : Life) : Life → Type 0 where
  accepts : s.accept ≡ accepting → s.listening ≡ true → Step s (accept_conn s)
  accept_fails : s.accept ≡ accepting → Step s (accept_error s)
  checks : (c : ℕ) → s.accept ≡ accepted c → Step s (check_shutdown c s)
  registers : (c : ℕ) → s.accept ≡ checked c → Step s (register_conn c s)
  takes : (c : ℕ) → contains s.reading c ≡ true → Step s (take_message c s)
  ends : (c : ℕ) → contains s.busy c ≡ true → Step s (end_message c s)
  hangs_up : (c : ℕ) → contains s.reading c ≡ true → Step s (leave c s)
  read_fails :
      (c : ℕ) → contains s.reading c ≡ true → contains s.live c ≡ false → Step s (leave c s)
  counts_down : (c : ℕ) → contains s.leaving c ≡ true → Step s (wait_done c s)
  shuts : s.stop ≡ idle → Step s (close_shutdown s)
  marks : s.stop ≡ shut → Step s (mark_stopping s)
  unlistens : s.stop ≡ marked → Step s (stop_listening s)
  saves : s.stop ≡ unlistened → Step s (save_and_kill s)
  closes : s.stop ≡ draining → Step s (close_active_conns s)
  drains : s.stop ≡ draining → s.reading ≡ [] → s.busy ≡ [] → s.leaving ≡ [] → Step s (clean_up s)

pub data Reach (s : Life) : Life → Type 0 where
  here : Reach s s
  later : {t u : Life} → Reach s t → Step t u → Reach s u
