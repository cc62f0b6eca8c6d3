-- ===== src/Engine/Breaker.antt =====
-- layer4/engine/src/circuitBreaker.ts. `Date.now()` is the argument `now`. The quotients of the
-- source are compared without dividing: attempts / 10 > 10, and failures / attempts > 0.3, which
-- rounding does not change below 2 ^ 50 attempts.
pub mod Laws
use creation_of_energy_token.Prelude.{
  ℕ, ◌+◌, ◌*◌, ◌/◌, Bool, true, false, ◌&&◌, ltb, leb, if◌then◌else◌,
}
use creation_of_energy_token.Engine.Types.{Result, error, throw_if, breaker_open}

-- `is_open` is the field `open`; the others are the metrics.
pub record CircuitBreaker : Type 0 where
  pub is_open : Bool
  pub window_start : ℕ
  pub attempts : ℕ
  pub failures : ℕ

abbrev pub window_ms : ℕ
window_ms = 600_000

abbrev pub max_per_minute : ℕ
max_per_minute = 10

unfoldable pub new_breaker : ℕ → CircuitBreaker
new_breaker now = record { is_open = false; window_start = now; attempts = 0; failures = 0 }

unfoldable pub assert_closed : CircuitBreaker → Result (Unit {0})
assert_closed b = throw_if b.is_open (error breaker_open)

unfoldable pub roll_window : CircuitBreaker → ℕ → CircuitBreaker
roll_window b now =
    if ltb (b.window_start + window_ms) now
    then record b { window_start = now; attempts = 0; failures = 0 }
    else b

unfoldable pub count_attempt : CircuitBreaker → Bool → CircuitBreaker
count_attempt b success = record b {
  attempts = b.attempts + 1;
  failures = b.failures + (if success then 0 else 1);
}

unfoldable pub open_on_rate : CircuitBreaker → CircuitBreaker
open_on_rate b =
    if ltb (max_per_minute * (window_ms / 60_000)) b.attempts
    then record b { is_open = true }
    else b

unfoldable pub open_on_failures : CircuitBreaker → CircuitBreaker
open_on_failures b =
    if leb 3 b.attempts && ltb (3 * b.attempts) (10 * b.failures)
    then record b { is_open = true }
    else b

unfoldable pub record_attempt : CircuitBreaker → Bool → ℕ → CircuitBreaker
unfolding roll_window count_attempt open_on_rate open_on_failures
record_attempt b success now =
    open_on_failures (open_on_rate (count_attempt (roll_window b now) success))

unfoldable pub trip : CircuitBreaker → CircuitBreaker
trip b = record b { is_open = true }

unfoldable pub reset : CircuitBreaker → ℕ → CircuitBreaker
reset b now = record { is_open = false; window_start = now; attempts = 0; failures = 0 }
