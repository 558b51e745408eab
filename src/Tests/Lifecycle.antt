-- ===== src/Tests/Lifecycle.antt =====
-- A daemon that takes one connection and is stopped.
use agmux.Base.{without, close_conns, ℕ, ◌≡◌, refl, true, contains}
use agmux.Server.Lifecycle.{
  Life, new_life, accept_conn, check_shutdown, add_conn, register_conn, refuse, leave, wait_done,
  close_shutdown, mark_stopping, stop_listening, save_and_kill, close_active_conns, clean_up,
  accepts, checks, registers, read_fails, counts_down, shuts, marks, unlistens, saves, closes,
  drains, Reach, here, later,
}
use agmux.Server.Lifecycle.Shutdown.{Reach-IsQuiet}
use agmux.Server.Lifecycle.Shutdown.Orderly.{in_hand, IsQuiet}
use agmux.Server.Lifecycle.Progress.{CanFinish, Reach-CanFinish}

abbrev one_handler : Life
unfolding new_life accept_conn check_shutdown register_conn add_conn
one_handler = register_conn 0 (check_shutdown 0 (accept_conn new_life))

one_runs : Reach new_life one_handler
unfolding new_life accept_conn check_shutdown register_conn add_conn
one_runs = later (later (later here (accepts refl refl)) (checks 0 refl)) (registers 0 refl)

abbrev stopped : Life
stopped = clean_up (
    wait_done 0 (
      leave 0 (
        close_active_conns
          (save_and_kill (stop_listening (mark_stopping (close_shutdown one_handler)))))))

stopped_runs : Reach new_life stopped
unfolding new_life accept_conn check_shutdown register_conn add_conn refuse leave wait_done
    close_shutdown mark_stopping stop_listening save_and_kill close_active_conns clean_up without
    close_conns contains
stopped_runs =
    later
      (later
        (later
          (later
            (later (later (later (later one_runs (shuts refl)) (marks refl)) (unlistens refl))
              (saves refl))
            (closes refl))
          (read_fails 0 refl refl))
        (counts_down 0 refl))
      (drains refl refl refl refl)

Reach-IsQuiet_example :
    IsQuiet stopped × ((c : ℕ) → contains stopped.live c ≡ true → in_hand stopped.accept c ≡ true)
Reach-IsQuiet_example = Reach-IsQuiet stopped stopped stopped_runs (unfold clean_up in refl) here

Reach-CanFinish_example : CanFinish one_handler
Reach-CanFinish_example = Reach-CanFinish one_handler one_runs
