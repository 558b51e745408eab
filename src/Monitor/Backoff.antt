-- ===== src/Monitor/Backoff.antt =====
-- The delays between failed reconnects.
use agmux.Base.{ℕ, zero, suc, ◌*◌, ◌^◌, ◌≡◌, refl, min, arith}
use native.Mathlib.Nat.{pow-suc}
use agmux.Monitor.{Loop, after_failure, after_success, initial_backoff, max_backoff}

-- `n` failed reconnects in a row.
unfoldable pub failures : ℕ → Loop → Loop
failures zero l = l
failures (suc n) l = after_failure (failures n l)

pow_step : (n : ℕ) → 2 ^ suc n ≡ 2 ^ n * 2
pow_step n = pow-suc 2 n

backoff-failures :
    (n : ℕ) (l : Loop)
    → l.backoff ≡ initial_backoff
    → (failures n l).backoff ≡ min (initial_backoff * 2 ^ n) max_backoff
unfolding failures after_failure
backoff-failures zero l h = omega arith
backoff-failures (suc n) l h = omega (arith, backoff-failures n l h, pow_step n)

-- The delay that follows the n-th failed reconnect in a row (counted from 0) after a success is 5 s
-- doubled n times, at most 5 minutes.
pub delay-failures :
    (n : ℕ) (l : Loop)
    → (failures (suc n) (after_success l)).delay ≡ min (initial_backoff * 2 ^ n) max_backoff
unfolding failures after_failure after_success
delay-failures n l = backoff-failures n (after_success l) refl
