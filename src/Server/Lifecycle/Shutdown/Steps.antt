-- ===== src/Server/Lifecycle/Shutdown/Steps.antt =====
-- The accept loop and Stop keep the invariant, and so does every step.
use agmux.Base.{
  contains-without, contains-close_conns, ℕ, ◌≡◌, ◌⊎◌, ◌∙◌, inl, inr, refl, sym, ap, Bool, true,
  false, ◌==◌, if◌then◌else◌, contains, arith,
}
use agmux.Server.Lifecycle.{
  Accept, accepting, ended, accepted, checked, Stopping, shut, marked, unlistened, draining,
  finished, Life, new_life, accept_conn, accept_error, refuse, check_shutdown, add_conn,
  register_conn, close_shutdown, mark_stopping, stop_listening, save_and_kill, close_active_conns,
  clean_up, Step, accepts, accept_fails, checks, registers, takes, ends, hangs_up, read_fails,
  counts_down, shuts, marks, unlistens, saves, closes, drains, Reach, here, later,
}
use agmux.Server.Lifecycle.Shutdown.Orderly.{has_marked, IsQuiet, in_hand, IsOrderly}
use agmux.Server.Lifecycle.Shutdown.Handlers.{
  take_message-IsOrderly, end_message-IsOrderly, leave-IsOrderly, wait_done-IsOrderly,
}

-- The two ends of the accept loop: the connection in its hand is closed or gets a handler.
in_hand_at : (c d : ℕ) (a : Accept) → (a ≡ accepted c) ⊎ (a ≡ checked c) → in_hand a d ≡ (d == c)
in_hand_at c d a (inl e) = rw e refl
in_hand_at c d a (inr e) = rw e refl

in_hand_self : (c : ℕ) (s : Life) → s.accept ≡ checked c → in_hand s.accept c ≡ true
in_hand_self c s at = in_hand_at c c s.accept (inr at) ∙ ground arith

refuse-IsOrderly :
    (c : ℕ) (s : Life)
    → IsOrderly s
    → (s.accept ≡ accepted c) ⊎ (s.accept ≡ checked c)
    → IsOrderly (refuse c s)
unfolding refuse
refuse-IsOrderly c s ok at = record {
  marked_ok = ok.marked_ok;
  quiet = ok.quiet;
  tracked = ok.tracked;
  single = ok.single;
  new_in_hand = λ d h. cc h;
  known = λ d h. ground (arith, h, ok.known d);
  accounted = λ d h.
      ground (arith, h, contains-without c d s.live, ok.accounted d, in_hand_at c d s.accept at);
}

add_conn-IsOrderly :
    (c : ℕ) (s : Life)
    → IsOrderly s
    → s.accept ≡ checked c
    → s.stopping ≡ false
    → IsOrderly (add_conn c s)
unfolding add_conn contains
add_conn-IsOrderly c s ok at free = record {
  marked_ok = ok.marked_ok;
  quiet = λ h. absurd (cc (ok.marked_ok (ap has_marked h), free));
  tracked = λ d h. ground (arith, h, ok.tracked d);
  single = λ d. ground (arith, ok.single d, ok.new_in_hand c (in_hand_self c s at));
  new_in_hand = λ d h. cc h;
  known = λ d h. ground (arith, h, ok.known d, ok.known c, in_hand_self c s at);
  accounted = λ d h. ground (arith, h, ok.accounted d, in_hand_at c d s.accept (inr at));
}

-- The accept loop.
empty_hand : (a : Accept) (d : ℕ) → a ≡ accepting → in_hand a d ≡ false
empty_hand a d e = rw e refl

accept_conn-IsOrderly : (s : Life) → IsOrderly s → s.accept ≡ accepting → IsOrderly (accept_conn s)
unfolding accept_conn contains
accept_conn-IsOrderly s ok at = record {
  marked_ok = ok.marked_ok;
  quiet = ok.quiet;
  tracked = ok.tracked;
  single = ok.single;
  new_in_hand = λ d h. ground (arith, h, ok.known d);
  known = λ d h. ground (arith, h, ok.known d);
  accounted = λ d h. ground (arith, h, ok.accounted d, empty_hand s.accept d at);
}

-- The hand of the accept loop, with everything else as it was.
with_hand-IsOrderly :
    (a : Accept) (s : Life)
    → IsOrderly s
    → ((d : ℕ) → in_hand a d ≡ in_hand s.accept d)
    → IsOrderly (record s { accept = a })
with_hand-IsOrderly a s ok same = record {
  marked_ok = ok.marked_ok;
  quiet = ok.quiet;
  tracked = ok.tracked;
  single = ok.single;
  new_in_hand = λ d h. ok.new_in_hand d (sym (same d) ∙ h);
  known = λ d h. ok.known d (rw (same d) at h);
  accounted = λ d h. rw (same d) (ok.accounted d h);
}

check_by :
    (c : ℕ) (s : Life) (b : Bool)
    → IsOrderly s
    → s.accept ≡ accepted c
    → IsOrderly (if b then refuse c s else record s { accept = checked c })
check_by c s true ok at = refuse-IsOrderly c s ok (inl at)
check_by c s false ok at =
    with_hand-IsOrderly (checked c) s ok (λ d. sym (in_hand_at c d s.accept (inl at)))

register_by :
    (c : ℕ) (s : Life) (b : Bool)
    → IsOrderly s
    → s.accept ≡ checked c
    → s.stopping ≡ b
    → IsOrderly (if b then refuse c s else add_conn c s)
register_by c s true ok at e = refuse-IsOrderly c s ok (inr at)
register_by c s false ok at e = add_conn-IsOrderly c s ok at e

error_by :
    (s : Life) (b : Bool)
    → IsOrderly s
    → s.accept ≡ accepting
    → IsOrderly (record s { accept = if b then ended else accepting })
error_by s true ok at = with_hand-IsOrderly ended s ok (λ d. sym (empty_hand s.accept d at))
error_by s false ok at = with_hand-IsOrderly accepting s ok (λ d. sym (empty_hand s.accept d at))

-- Stop goes on, with the connections as they are.
stop-IsOrderly :
    (s : Life) (at : Stopping) (shutdown stopping listening : Bool)
    → IsOrderly s
    → (has_marked at ≡ true → stopping ≡ true)
    → (at ≡ finished → IsQuiet s)
    → IsOrderly
        (record s { stop = at; shutdown = shutdown; stopping = stopping; listening = listening })
stop-IsOrderly s at shutdown stopping listening ok mark quiet = record {
  marked_ok = mark;
  quiet = quiet;
  tracked = ok.tracked;
  single = ok.single;
  new_in_hand = ok.new_in_hand;
  known = ok.known;
  accounted = ok.accounted;
}

close_active-IsOrderly : (s : Life) → IsOrderly s → IsOrderly (close_active_conns s)
unfolding close_active_conns
close_active-IsOrderly s ok = record {
  marked_ok = ok.marked_ok;
  quiet = ok.quiet;
  tracked = ok.tracked;
  single = ok.single;
  new_in_hand = ok.new_in_hand;
  known = ok.known;
  accounted = λ d h. ground (arith, h, contains-close_conns s.active d s.live, ok.accounted d);
}

pub Step-IsOrderly : {s t : Life} → Step s t → IsOrderly s → IsOrderly t
unfolding check_shutdown register_conn accept_error close_shutdown mark_stopping stop_listening
    save_and_kill clean_up
Step-IsOrderly {s} (accepts at on) ok = accept_conn-IsOrderly s ok at
Step-IsOrderly {s} (accept_fails at) ok = error_by s s.shutdown ok at
Step-IsOrderly {s} (checks c at) ok = check_by c s s.shutdown ok at
Step-IsOrderly {s} (registers c at) ok = register_by c s s.stopping ok at refl
Step-IsOrderly {s} (takes c member) ok = take_message-IsOrderly c s ok member
Step-IsOrderly {s} (ends c member) ok = end_message-IsOrderly c s ok member
Step-IsOrderly {s} (hangs_up c member) ok = leave-IsOrderly c s ok member
Step-IsOrderly {s} (read_fails c member gone) ok = leave-IsOrderly c s ok member
Step-IsOrderly {s} (counts_down c member) ok = wait_done-IsOrderly c s ok member
Step-IsOrderly {s} (shuts at) ok =
    stop-IsOrderly s shut true s.stopping s.listening ok (λ h. cc h) (λ h. cc h)
Step-IsOrderly {s} (marks at) ok =
    stop-IsOrderly s marked s.shutdown true s.listening ok (λ h. refl) (λ h. cc h)
Step-IsOrderly {s} (unlistens at) ok =
    stop-IsOrderly s unlistened s.shutdown s.stopping false ok
      (λ h. ok.marked_ok (ap has_marked at)) (λ h. cc h)
Step-IsOrderly {s} (saves at) ok =
    stop-IsOrderly s draining s.shutdown s.stopping s.listening ok
      (λ h. ok.marked_ok (ap has_marked at)) (λ h. cc h)
Step-IsOrderly {s} (closes at) ok = close_active-IsOrderly s ok
Step-IsOrderly {s} (drains at r b l) ok =
    stop-IsOrderly s finished s.shutdown s.stopping s.listening ok
      (λ h. ok.marked_ok (ap has_marked at)) (λ h. (r, b, l))

pub Reach-IsOrderly : {s t : Life} → Reach s t → IsOrderly s → IsOrderly t
Reach-IsOrderly here ok = ok
Reach-IsOrderly (later r st) ok = Step-IsOrderly st (Reach-IsOrderly r ok)

pub new_life-IsOrderly : IsOrderly new_life
unfolding new_life contains
new_life-IsOrderly = record {
  marked_ok = λ h. cc h;
  quiet = λ h. cc h;
  tracked = λ d h. cc h;
  single = λ d. refl;
  new_in_hand = λ d h. cc h;
  known = λ d h. cc h;
  accounted = λ d h. cc h;
}
