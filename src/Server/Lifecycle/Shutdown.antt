-- ===== src/Server/Lifecycle/Shutdown.antt =====
-- What holds once Stop has come to its end.
pub mod Orderly
pub mod Handlers
pub mod Steps
use agmux.Base.{
  without, close_conns, contains-without, contains-close_conns, ℕ, ◌≡◌, ◌≢◌, ◌<◌, ◌⊎◌, ◌∙◌, inl,
  inr, refl, sym, ap, Bool, true, false, ◌&&◌, ◌||◌, ◌==◌, List, [], ◌∷◌, if◌then◌else◌, contains,
  arith, Bool-cases, ==_iff,
}
use agmux.Server.Lifecycle.{
  Accept, accepting, ended, accepted, checked, Stopping, idle, shut, marked, unlistened, draining,
  finished, Life, new_life, accept_conn, accept_error, refuse, check_shutdown, add_conn,
  register_conn, take_message, end_message, leave, wait_done, close_shutdown, mark_stopping,
  stop_listening, save_and_kill, close_active_conns, clean_up, Step, accepts, accept_fails, checks,
  registers, takes, ends, hangs_up, read_fails, counts_down, shuts, marks, unlistens, saves, closes,
  drains, Reach, here, later,
}
use agmux.Server.Lifecycle.Shutdown.Orderly.{has_marked, IsQuiet, in_hand, IsOrderly, facts_of}
use agmux.Server.Lifecycle.Shutdown.Steps.{Reach-IsOrderly, new_life-IsOrderly}

-- Stop never goes back.
if_stop : (b : Bool) (s t : Life) → s.stop ≡ t.stop → (if b then s else t).stop ≡ s.stop
if_stop true s t same = refl
if_stop false s t same = sym same

Step-finished : {s t : Life} → Step s t → s.stop ≡ finished → t.stop ≡ finished
unfolding check_shutdown register_conn accept_error accept_conn refuse add_conn take_message
    end_message leave wait_done close_active_conns
Step-finished (accepts at on) h = h
Step-finished (accept_fails at) h = h
Step-finished (takes c m) h = h
Step-finished (ends c m) h = h
Step-finished (hangs_up c m) h = h
Step-finished (read_fails c m gone) h = h
Step-finished (counts_down c m) h = h
Step-finished {s} (checks c at) h =
    if_stop s.shutdown (refuse c s) (record s { accept = checked c }) refl ∙ h
Step-finished {s} (registers c at) h = if_stop s.stopping (refuse c s) (add_conn c s) refl ∙ h
Step-finished (shuts at) h = cc (at, h)
Step-finished (marks at) h = cc (at, h)
Step-finished (unlistens at) h = cc (at, h)
Step-finished (saves at) h = cc (at, h)
Step-finished (closes at) h = h
Step-finished (drains at r b l) h = cc (at, h)

stays_finished : {s t : Life} → Reach s t → s.stop ≡ finished → t.stop ≡ finished
stays_finished here h = h
stays_finished (later r st) h = Step-finished st (stays_finished r h)

only_hand :
    (t : Life)
    → IsOrderly t
    → IsQuiet t
    → (c : ℕ) → contains t.live c ≡ true
    → in_hand t.accept c ≡ true
unfolding contains
only_hand t ok (reading, busy, leaving) c live =
    let in_one = ok.accounted c live in
    let r : contains t.reading c ≡ false = rw reading refl in
    let b : contains t.busy c ≡ false = rw busy refl in ground (arith, in_one, r, b)

-- However the accept loop, the handlers, their clients and Stop interleave: once Stop has come to its
-- end, no handler runs, none starts in any later step, and the server has closed every connection but
-- one that the accept loop may have in its hand.
pub Reach-IsQuiet :
    (s t : Life)
    → Reach new_life s
    → s.stop ≡ finished
    → Reach s t
    → IsQuiet t × ((c : ℕ) → contains t.live c ≡ true → in_hand t.accept c ≡ true)
Reach-IsQuiet s t run h more =
    let ok = Reach-IsOrderly more (Reach-IsOrderly run new_life-IsOrderly) in
    let (reading, busy, leaving) = ok.quiet (stays_finished more h) in
    ((reading, busy, leaving), λ c live. only_hand t ok (reading, busy, leaving) c live)
