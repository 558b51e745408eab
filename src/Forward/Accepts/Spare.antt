-- ===== src/Forward/Accepts/Spare.antt =====
-- What Close of a local forward leaves open.
use agmux.Base.{
  ℕ, ◌≡◌, ◌⊎◌, inl, inr, refl, Bool, true, false, ◌||◌, ◌==◌, contains, arith, close_conns,
  contains-without, contains-close_conns,
}
use agmux.Forward.Accepts.{
  LoopState, testing, accepting, ended, accepted, Accepts, new_accepts, test_closed, take_conn,
  take_error, record_conn, close_local, delete_conn, close_tracked, return_closed, Step, tests,
  accepts, accept_fails, records, ends, deletes, closes, returns, Reach, here, later,
}

-- A connection that the accept loop has in its hand.
abbrev in_hand : LoopState → ℕ → Bool
in_hand testing c = false
in_hand accepting c = false
in_hand ended c = false
in_hand (accepted d) c = c == d

-- Close finds every open connection but the one in the hand, and leaves at most that one.
record IsTracked (s : Accepts) : Type 0 where
  shut : s.closed ≡ true → s.listening ≡ false
  tracked :
      s.closed ≡ false
      → (c : ℕ) → contains s.live c ≡ true
      → (in_hand s.loop c || contains s.conns c) ≡ true
  spare : s.closed ≡ true → (c d : ℕ) → contains s.live c ≡ true → contains s.live d ≡ true → c ≡ d

new_accepts-IsTracked : IsTracked new_accepts
unfolding new_accepts contains
new_accepts-IsTracked = record {
  shut = λ h. cc h;
  tracked = λ h c l. cc l;
  spare = λ h c d l. cc l;
}

-- The loop goes on with empty hands, from empty hands.
empty_hand : (a : LoopState) (c : ℕ) → (a ≡ testing) ⊎ (a ≡ accepting) → in_hand a c ≡ false
empty_hand a c (inl e) = rw e refl
empty_hand a c (inr e) = rw e refl

in_hand_at : (a : LoopState) (c d : ℕ) → a ≡ accepted c → in_hand a d ≡ (d == c)
in_hand_at a c d e = rw e refl

same_hand : (a : LoopState) (c d : ℕ) → in_hand a c ≡ true → in_hand a d ≡ true → c ≡ d
same_hand testing c d hc hd = cc hc
same_hand accepting c d hc hd = cc hc
same_hand ended c d hc hd = cc hc
same_hand (accepted e) c d hc hd = ground (arith, hc, hd)

with_loop-IsTracked :
    (a : LoopState) (s : Accepts)
    → IsTracked s
    → (s.loop ≡ testing) ⊎ (s.loop ≡ accepting)
    → IsTracked (record s { loop = a })
with_loop-IsTracked a s ok at = record {
  shut = ok.shut;
  tracked = λ h c l. ground (arith, ok.tracked h c l, empty_hand s.loop c at);
  spare = ok.spare;
}

take_conn-IsTracked :
    (s : Accepts) → IsTracked s → s.loop ≡ accepting → s.listening ≡ true → IsTracked (take_conn s)
unfolding take_conn contains
take_conn-IsTracked s ok at on = record {
  shut = ok.shut;
  tracked = λ h c l. ground (arith, l, h, ok.tracked h c, empty_hand s.loop c (inr at));
  spare = λ h. absurd (cc (ok.shut h, on));
}

record_conn-IsTracked :
    (c : ℕ) (s : Accepts) → IsTracked s → s.loop ≡ accepted c → IsTracked (record_conn c s)
unfolding record_conn contains
record_conn-IsTracked c s ok at = record {
  shut = ok.shut;
  tracked = λ h d l. ground (arith, ok.tracked h d l, in_hand_at s.loop c d at);
  spare = ok.spare;
}

close_local-IsTracked : (c : ℕ) (s : Accepts) → IsTracked s → IsTracked (close_local c s)
unfolding close_local
close_local-IsTracked c s ok = record {
  shut = ok.shut;
  tracked = λ h d l. ground (arith, l, h, contains-without c d s.live, ok.tracked h d);
  spare = λ h d e l k.
      ok.spare h d e (ground (arith, l, contains-without c d s.live))
        (ground (arith, k, contains-without c e s.live));
}

delete_conn-IsTracked :
    (c : ℕ) (s : Accepts) → IsTracked s → contains s.live c ≡ false → IsTracked (delete_conn c s)
unfolding delete_conn
delete_conn-IsTracked c s ok gone = record {
  shut = ok.shut;
  tracked = λ h d l. ground (arith, l, gone, contains-without c d s.conns, ok.tracked h d l);
  spare = ok.spare;
}

close_tracked-IsTracked :
    (s : Accepts) → IsTracked s → s.closed ≡ false → IsTracked (close_tracked s)
unfolding close_tracked
close_tracked-IsTracked s ok free =
    let held : (c : ℕ) → contains (close_conns s.conns s.live) c ≡ true → in_hand s.loop c ≡ true =
      λ c l. ground (arith, l, contains-close_conns s.conns c s.live, ok.tracked free c) in
    record {
      shut = λ h. refl;
      tracked = λ h. cc h;
      spare = λ h c d l k. same_hand s.loop c d (held c l) (held d k);
    }

return_closed-IsTracked : (s : Accepts) → IsTracked s → IsTracked (return_closed s)
unfolding return_closed
return_closed-IsTracked s ok = record { shut = ok.shut; tracked = ok.tracked; spare = ok.spare }

Step-IsTracked : {s t : Accepts} → Step s t → IsTracked s → IsTracked t
unfolding test_closed take_error
Step-IsTracked {s} (tests at) ok = with_loop-IsTracked (test_closed s).loop s ok (inl at)
Step-IsTracked {s} (accepts at on) ok = take_conn-IsTracked s ok at on
Step-IsTracked {s} (accept_fails timeout at) ok =
    with_loop-IsTracked (take_error timeout s).loop s ok (inr at)
Step-IsTracked {s} (records c at) ok = record_conn-IsTracked c s ok at
Step-IsTracked {s} (ends c m) ok = close_local-IsTracked c s ok
Step-IsTracked {s} (deletes c m gone) ok = delete_conn-IsTracked c s ok gone
Step-IsTracked {s} (closes free) ok = close_tracked-IsTracked s ok free
Step-IsTracked {s} (returns shut at) ok = return_closed-IsTracked s ok

Reach-IsTracked : {s : Accepts} → Reach new_accepts s → IsTracked s
Reach-IsTracked here = new_accepts-IsTracked
Reach-IsTracked (later r st) = Step-IsTracked st (Reach-IsTracked r)

record IsReturned (s : Accepts) : Type 0 where
  marked : s.returned ≡ true → s.closed ≡ true
  over : s.returned ≡ true → s.loop ≡ ended

Step-IsReturned : {s t : Accepts} → Step s t → IsReturned s → IsReturned t
unfolding test_closed take_conn take_error record_conn close_local delete_conn close_tracked
    return_closed
Step-IsReturned (tests at) ok = record {
  marked = ok.marked;
  over = λ h. absurd (cc (ok.over h, at));
}
Step-IsReturned (accepts at on) ok = record {
  marked = ok.marked;
  over = λ h. absurd (cc (ok.over h, at));
}
Step-IsReturned (accept_fails timeout at) ok = record {
  marked = ok.marked;
  over = λ h. absurd (cc (ok.over h, at));
}
Step-IsReturned (records c at) ok = record {
  marked = ok.marked;
  over = λ h. absurd (cc (ok.over h, at));
}
Step-IsReturned (ends c m) ok = record { marked = ok.marked; over = ok.over }
Step-IsReturned (deletes c m gone) ok = record { marked = ok.marked; over = ok.over }
Step-IsReturned (closes free) ok = record { marked = λ h. refl; over = ok.over }
Step-IsReturned (returns shut at) ok = record { marked = λ h. shut; over = λ h. at }

Reach-IsReturned : {s : Accepts} → Reach new_accepts s → IsReturned s
unfolding new_accepts
Reach-IsReturned here = record { marked = λ h. cc h; over = λ h. cc h }
Reach-IsReturned (later r st) = Step-IsReturned st (Reach-IsReturned r)

-- However the accept loop of a local forward, the handlers and Close interleave, once Close has
-- returned the loop has ended, the listener is closed, and at most one connection is open.
pub Reach-IsSpare :
    (s : Accepts)
    → Reach new_accepts s
    → s.returned ≡ true
    → (s.loop ≡ ended)
      × (s.listening ≡ false)
      × ((c d : ℕ) → contains s.live c ≡ true → contains s.live d ≡ true → c ≡ d)
Reach-IsSpare s r h =
    let ok = Reach-IsTracked r in
    let done = Reach-IsReturned r in
    (done.over h, ok.shut (done.marked h), ok.spare (done.marked h))
