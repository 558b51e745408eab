-- ===== src/Server/Lifecycle/Progress.antt =====
-- That Stop can always come to its end.
use agmux.Base.{
  without, contains-without, contains-close_conns, ℕ, zero, suc, ◌≡◌, ◌≤◌, refl, true, false, ◌||◌,
  List, [], ◌∷◌, contains, length, arith,
}
use agmux.Server.Lifecycle.{
  Stopping, idle, shut, marked, unlistened, draining, finished, Life, new_life, end_message, leave,
  wait_done, close_shutdown, mark_stopping, stop_listening, save_and_kill, close_active_conns,
  clean_up, Step, accepts, accept_fails, checks, registers, takes, ends, hangs_up, read_fails,
  counts_down, shuts, marks, unlistens, saves, closes, drains, Reach,
}
use agmux.Server.Lifecycle.Shutdown.Orderly.{IsOrderly}
use agmux.Server.Lifecycle.Shutdown.Steps.{Step-IsOrderly, Reach-IsOrderly, new_life-IsOrderly}

-- A step of the server alone: no client connects, sends a request or hangs up.
abbrev pub IsOwn : {s t : Life} → Step s t → Type 0
IsOwn (accepts at on) = ⊥
IsOwn (accept_fails at) = Unit
IsOwn (checks c at) = Unit
IsOwn (registers c at) = Unit
IsOwn (takes c m) = ⊥
IsOwn (ends c m) = Unit
IsOwn (hangs_up c m) = ⊥
IsOwn (read_fails c m gone) = Unit
IsOwn (counts_down c m) = Unit
IsOwn (shuts at) = Unit
IsOwn (marks at) = Unit
IsOwn (unlistens at) = Unit
IsOwn (saves at) = Unit
IsOwn (closes at) = Unit
IsOwn (drains at r b l) = Unit

pub data Own : Life → Life → Type 0 where
  rests : {s : Life} → Own s s
  goes : {s t u : Life} (st : Step s t) → IsOwn st → Own t u → Own s u

-- It can come to its end by steps of its own.
abbrev pub CanFinish : Life → Type 0
CanFinish s = (t : Life) × Own s t × (t.stop ≡ finished)

by_step : {s t : Life} (st : Step s t) → IsOwn st → CanFinish t → CanFinish s
by_step st own (u, run, done) = (u, goes st own run, done)

without-shorter : (c : ℕ) (xs : List ℕ) → length (without c xs) ≤ length xs
unfolding without
without-shorter c [] = omega arith
without-shorter c (x ∷ xs) = ground (arith, without-shorter c xs)

head_goes : (c : ℕ) (xs : List ℕ) → length (without c (c ∷ xs)) ≤ length xs
unfolding without
head_goes c xs = ground (arith, without-shorter c xs)

head_in : (c : ℕ) (xs : List ℕ) → contains (c ∷ xs) c ≡ true
unfolding contains
head_in c xs = ground arith

-- The member at the head of a list that is a field of the state.
is_member : (c : ℕ) (xs ys : List ℕ) → ys ≡ c ∷ xs → contains ys c ≡ true
is_member c xs ys e = rw e (head_in c xs)

is_shorter :
    (c n : ℕ) (xs ys : List ℕ) → ys ≡ c ∷ xs → length ys ≤ suc n → length (without c ys) ≤ n
is_shorter c n xs ys e h =
    let fits : length (c ∷ xs) ≤ suc n = rw e at h in rw e (omega (arith, head_goes c xs, fits))

none_left : (xs : List ℕ) → length xs ≤ 0 → xs ≡ []
none_left [] h = refl
none_left (x ∷ xs) h = absurd (omega (arith, h))

-- The last handlers count down, and Stop ends.
from_leaving :
    (n : ℕ) (s : Life) (xs : List ℕ)
    → s.leaving ≡ xs
    → length s.leaving ≤ n
    → s.stop ≡ draining
    → s.reading ≡ []
    → s.busy ≡ []
    → CanFinish s
unfolding wait_done
from_leaving n s [] e h at r b =
    by_step (drains at r b e) tt (clean_up s, rests, unfold clean_up in refl)
from_leaving zero s (c ∷ xs) e h at r b = absurd (cc (none_left s.leaving h, e))
from_leaving (suc n) s (c ∷ xs) e h at r b =
    by_step (counts_down c (is_member c xs s.leaving e)) tt (
      from_leaving n (wait_done c s) (without c s.leaving) refl (is_shorter c n xs s.leaving e h) at
        r b)

-- Every handler that reads finds its connection closed.
abbrev AreClosed : Life → Type 0
AreClosed s =
    (c : ℕ) → (contains s.reading c || contains s.busy c) ≡ true → contains s.live c ≡ false

leave-AreClosed : (c : ℕ) (s : Life) → AreClosed s → AreClosed (leave c s)
unfolding leave
leave-AreClosed c s gone d h =
    ground (arith, h, contains-without c d s.reading, contains-without c d s.live, gone d)

end_message-AreClosed :
    (c : ℕ) (s : Life) → contains s.busy c ≡ true → AreClosed s → AreClosed (end_message c s)
unfolding end_message contains
end_message-AreClosed c s m gone d h =
    ground (arith, h, m, contains-without c d s.busy, gone d, gone c)

closed-AreClosed : (s : Life) → IsOrderly s → AreClosed (close_active_conns s)
unfolding close_active_conns
closed-AreClosed s ok d h = ground (arith, h, contains-close_conns s.active d s.live, ok.tracked d)

from_reading :
    (n : ℕ) (s : Life) (xs : List ℕ)
    → s.reading ≡ xs
    → length s.reading ≤ n
    → s.stop ≡ draining
    → AreClosed s
    → s.busy ≡ []
    → CanFinish s
unfolding leave
from_reading n s [] e h at gone b =
    from_leaving (length s.leaving) s s.leaving refl (omega arith) at e b
from_reading zero s (c ∷ xs) e h at gone b = absurd (cc (none_left s.reading h, e))
from_reading (suc n) s (c ∷ xs) e h at gone b =
    let m = is_member c xs s.reading e in
    by_step (read_fails c m (gone c (ground (arith, m)))) tt (
      from_reading n (leave c s) (without c s.reading) refl (is_shorter c n xs s.reading e h) at
        (leave-AreClosed c s gone) b)

from_busy :
    (n : ℕ) (s : Life) (xs : List ℕ)
    → s.busy ≡ xs
    → length s.busy ≤ n
    → s.stop ≡ draining
    → AreClosed s
    → CanFinish s
unfolding end_message
from_busy n s [] e h at gone =
    from_reading (length s.reading) s s.reading refl (omega arith) at gone e
from_busy zero s (c ∷ xs) e h at gone = absurd (cc (none_left s.busy h, e))
from_busy (suc n) s (c ∷ xs) e h at gone =
    let m = is_member c xs s.busy e in
    by_step (ends c m) tt (
      from_busy n (end_message c s) (without c s.busy) refl (is_shorter c n xs s.busy e h) at
        (end_message-AreClosed c s m gone))

from_draining : (s : Life) → IsOrderly s → s.stop ≡ draining → CanFinish s
unfolding close_active_conns
from_draining s ok at = by_step (closes at) tt (
    from_busy (length s.busy) (close_active_conns s) s.busy refl (omega arith) at
      (closed-AreClosed s ok))

from_unlistened : (s : Life) → IsOrderly s → s.stop ≡ unlistened → CanFinish s
unfolding save_and_kill
from_unlistened s ok e =
    by_step (saves e) tt (from_draining (save_and_kill s) (Step-IsOrderly (saves e) ok) refl)

from_marked : (s : Life) → IsOrderly s → s.stop ≡ marked → CanFinish s
unfolding stop_listening
from_marked s ok e =
    by_step (unlistens e) tt
      (from_unlistened (stop_listening s) (Step-IsOrderly (unlistens e) ok) refl)

from_shut : (s : Life) → IsOrderly s → s.stop ≡ shut → CanFinish s
unfolding mark_stopping
from_shut s ok e =
    by_step (marks e) tt (from_marked (mark_stopping s) (Step-IsOrderly (marks e) ok) refl)

from_idle : (s : Life) → IsOrderly s → s.stop ≡ idle → CanFinish s
unfolding close_shutdown
from_idle s ok e =
    by_step (shuts e) tt (from_shut (close_shutdown s) (Step-IsOrderly (shuts e) ok) refl)

from_stop : (s : Life) (p : Stopping) → s.stop ≡ p → IsOrderly s → CanFinish s
from_stop s finished e ok = (s, rests, e)
from_stop s draining e ok = from_draining s ok e
from_stop s unlistened e ok = from_unlistened s ok e
from_stop s marked e ok = from_marked s ok e
from_stop s shut e ok = from_shut s ok e
from_stop s idle e ok = from_idle s ok e

-- From whatever state the server has come to, Stop can come to its end by steps of the server alone:
-- it waits for the requests that run, but for no client.
pub Reach-CanFinish : (s : Life) → Reach new_life s → CanFinish s
Reach-CanFinish s run = from_stop s s.stop refl (Reach-IsOrderly run new_life-IsOrderly)
