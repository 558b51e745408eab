-- ===== src/Server/Lifecycle/Shutdown/Handlers.antt =====
-- The handlers keep the invariant.
use agmux.Base.{contains-without, ℕ, ◌≡◌, ◌≢◌, true, List, [], contains, arith}
use agmux.Server.Lifecycle.{Life, take_message, end_message, leave, wait_done}
use agmux.Server.Lifecycle.Shutdown.Orderly.{IsOrderly, facts_of}

not_in : (c : ℕ) (xs : List ℕ) → xs ≡ [] → contains xs c ≢ true
unfolding contains
not_in c xs e h = cc (rw e at h)

-- A handler that takes a message, ends with one, leaves its loop, and counts down.
pub take_message-IsOrderly :
    (c : ℕ) (s : Life) → IsOrderly s → contains s.reading c ≡ true → IsOrderly (take_message c s)
unfolding take_message contains
take_message-IsOrderly c s ok member = record {
  marked_ok = ok.marked_ok;
  quiet = λ h. absurd (not_in c s.reading (ok.quiet h).0 member);
  tracked = λ d h.
      ground (arith, h, member, contains-without c d s.reading, facts_of s ok d, facts_of s ok c);
  single =
      λ d. ground (arith, member, contains-without c d s.reading, facts_of s ok d, facts_of s ok c);
  new_in_hand = λ d h.
      ground (arith, h, member, contains-without c d s.reading, facts_of s ok d, facts_of s ok c);
  known = λ d h.
      ground (arith, h, member, contains-without c d s.reading, facts_of s ok d, facts_of s ok c);
  accounted = λ d h. ground (arith, h, member, contains-without c d s.reading, facts_of s ok d);
}

pub end_message-IsOrderly :
    (c : ℕ) (s : Life) → IsOrderly s → contains s.busy c ≡ true → IsOrderly (end_message c s)
unfolding end_message contains
end_message-IsOrderly c s ok member = record {
  marked_ok = ok.marked_ok;
  quiet = λ h. absurd (not_in c s.busy (ok.quiet h).1 member);
  tracked = λ d h.
      ground (arith, h, member, contains-without c d s.busy, facts_of s ok d, facts_of s ok c);
  single =
      λ d. ground (arith, member, contains-without c d s.busy, facts_of s ok d, facts_of s ok c);
  new_in_hand = λ d h.
      ground (arith, h, member, contains-without c d s.busy, facts_of s ok d, facts_of s ok c);
  known = λ d h.
      ground (arith, h, member, contains-without c d s.busy, facts_of s ok d, facts_of s ok c);
  accounted = λ d h. ground (arith, h, member, contains-without c d s.busy, facts_of s ok d);
}

pub leave-IsOrderly :
    (c : ℕ) (s : Life) → IsOrderly s → contains s.reading c ≡ true → IsOrderly (leave c s)
unfolding leave
leave-IsOrderly c s ok member = record {
  marked_ok = ok.marked_ok;
  quiet = λ h. absurd (not_in c s.reading (ok.quiet h).0 member);
  tracked = λ d h. ground (
    arith,
    h,
    member,
    contains-without c d s.reading,
    contains-without c d s.active,
    facts_of s ok d,
    facts_of s ok c,
  );
  single = λ d. ground (arith, member, contains-without c d s.reading, facts_of s ok d);
  new_in_hand = λ d h. ground (arith, h, member, contains-without c d s.reading, facts_of s ok d);
  known = λ d h. ground (arith, h, contains-without c d s.reading, facts_of s ok d);
  accounted = λ d h. ground (
    arith,
    h,
    member,
    contains-without c d s.reading,
    contains-without c d s.live,
    facts_of s ok d,
  );
}

pub wait_done-IsOrderly :
    (c : ℕ) (s : Life) → IsOrderly s → contains s.leaving c ≡ true → IsOrderly (wait_done c s)
unfolding wait_done
wait_done-IsOrderly c s ok member = record {
  marked_ok = ok.marked_ok;
  quiet = λ h. absurd (not_in c s.leaving (ok.quiet h).2 member);
  tracked = ok.tracked;
  single = ok.single;
  new_in_hand = ok.new_in_hand;
  known = ok.known;
  accounted = ok.accounted;
}
