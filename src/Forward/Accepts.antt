-- ===== src/Forward/Accepts.antt =====
-- internal/portforward/forwarder.go: the accept loop of startLocalForward, the handlers of its
-- connections and Close, as steps that interleave. A stretch under one lock is one step.
pub mod Spare
use agmux.Base.{
  ℕ, suc, ◌≡◌, Bool, true, false, List, [], ◌∷◌, if◌then◌else◌, contains, without, close_conns,
}

-- Where the loop stands: before its test of `closed`, in Accept, or with a connection in its hand.
pub data LoopState : Type 0 where
  testing accepting ended : LoopState
  accepted : ℕ → LoopState

-- `live` are the connections that the forwarder has not closed, `conns` those that Close can find.
-- `has_listener` says that there is a listener, `listening` that it is open, `returned` that Close has returned.
pub record Accepts : Type 0 where
  pub loop : LoopState
  pub closed : Bool
  pub has_listener : Bool
  pub listening : Bool
  pub returned : Bool
  pub next_conn : ℕ
  pub live : List ℕ
  pub conns : List ℕ

unfoldable pub new_accepts : Accepts
new_accepts = record {
  loop = testing;
  closed = false;
  has_listener = true;
  listening = true;
  returned = false;
  next_conn = 0;
  live = [];
  conns = [];
}

-- A round without a listener only sleeps.
unfoldable pub test_closed : Accepts → Accepts
test_closed s = record s {
  loop = if s.closed then ended else if s.has_listener then accepting else testing;
}

unfoldable pub take_conn : Accepts → Accepts
take_conn s = record s {
  loop = accepted s.next_conn;
  next_conn = suc s.next_conn;
  live = s.next_conn ∷ s.live;
}

unfoldable pub take_error : Bool → Accepts → Accepts
take_error timeout s = record s {
  loop = if timeout then testing else if s.closed then ended else testing;
}

unfoldable pub record_conn : ℕ → Accepts → Accepts
record_conn c s = record s { loop = testing; conns = c ∷ s.conns }

-- The deferred calls of handleLocalConnection: Close, and then the removal from conns.
unfoldable pub close_local : ℕ → Accepts → Accepts
unfolding without
close_local c s = record s { live = without c s.live }

unfoldable pub delete_conn : ℕ → Accepts → Accepts
unfolding without
delete_conn c s = record s { conns = without c s.conns }

-- Close
unfoldable pub close_tracked : Accepts → Accepts
unfolding close_conns
close_tracked s = record s { closed = true; listening = false; live = close_conns s.conns s.live }

unfoldable pub return_closed : Accepts → Accepts
return_closed s = record s { returned = true }

-- The steps, each with what it waits for; Close waits for the loop alone.
pub data Step (s : Accepts) : Accepts → Type 0 where
  tests : s.loop ≡ testing → Step s (test_closed s)
  accepts : s.loop ≡ accepting → s.listening ≡ true → Step s (take_conn s)
  accept_fails : (timeout : Bool) → s.loop ≡ accepting → Step s (take_error timeout s)
  records : (c : ℕ) → s.loop ≡ accepted c → Step s (record_conn c s)
  ends : (c : ℕ) → contains s.conns c ≡ true → Step s (close_local c s)
  deletes :
      (c : ℕ) → contains s.conns c ≡ true → contains s.live c ≡ false → Step s (delete_conn c s)
  closes : s.closed ≡ false → Step s (close_tracked s)
  returns : s.closed ≡ true → s.loop ≡ ended → Step s (return_closed s)

pub data Reach (s : Accepts) : Accepts → Type 0 where
  here : Reach s s
  later : {t u : Accepts} → Reach s t → Step t u → Reach s u
