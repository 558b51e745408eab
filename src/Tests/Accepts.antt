-- ===== src/Tests/Accepts.antt =====
-- A local forward that is closed while a connection is being accepted.
use agmux.Base.{◌≡◌, ℕ, refl, true, false, contains, close_conns}
use agmux.Forward.Accepts.{
  ended, Accepts, new_accepts, test_closed, take_conn, record_conn, close_tracked, return_closed,
  tests, accepts, records, closes, returns, Reach, here, later,
}
use agmux.Forward.Accepts.Spare.{Reach-IsSpare}

abbrev closed_late : Accepts
closed_late =
    return_closed
      (test_closed (record_conn 0 (close_tracked (take_conn (test_closed new_accepts)))))

closed_late_runs : Reach new_accepts closed_late
unfolding new_accepts test_closed take_conn record_conn close_tracked return_closed close_conns
    contains
closed_late_runs =
    later
      (later
        (later (later (later (later here (tests refl)) (accepts refl refl)) (closes refl))
          (records 0 refl))
        (tests refl))
      (returns refl refl)

-- That connection stays open.
stays_open : contains closed_late.live 0 ≡ true
unfolding new_accepts test_closed take_conn record_conn close_tracked return_closed close_conns
    contains
stays_open = refl

Reach-IsSpare_example :
    (closed_late.loop ≡ ended)
    × (closed_late.listening ≡ false)
    × ((c d : ℕ) → contains closed_late.live c ≡ true → contains closed_late.live d ≡ true → c ≡ d)
Reach-IsSpare_example = Reach-IsSpare closed_late closed_late_runs (unfold return_closed in refl)
