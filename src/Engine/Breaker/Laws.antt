-- ===== src/Engine/Breaker/Laws.antt =====
-- When the circuit breaker is open, over every sequence of its operations.
use creation_of_energy_token.Prelude.{
  ℕ, ◌*◌, ◌≤◌, ◌<◌, ◌≡◌, ◌⊎◌, ◌↔◌, Bool, true, false, List, [], ◌∷◌, arith,
}
use creation_of_energy_token.Engine.Breaker.{CircuitBreaker, record_attempt, trip, reset}

-- The metrics are consistent, and while the breaker is closed the window holds at most 100
-- attempts, of which, from the third on, at most three in ten failed.
pub record IsSound (b : CircuitBreaker) : Type 0 where
  pub counted : b.failures ≤ b.attempts
  pub rate : b.is_open ≡ false → b.attempts ≤ 100
  pub ratio : b.is_open ≡ false → (b.attempts < 3) ⊎ (10 * b.failures ≤ 3 * b.attempts)

pub data Op : Type 0 where
  attempt : Bool → ℕ → Op
  trip_by_hand : Op
  reset_at : ℕ → Op

abbrev pub apply : Op → CircuitBreaker → CircuitBreaker
apply (attempt success now) b = record_attempt b success now
apply trip_by_hand b = trip b
apply (reset_at now) b = reset b now

abbrev pub apply_all : List Op → CircuitBreaker → CircuitBreaker
apply_all [] b = b
apply_all (op ∷ ops) b = apply_all ops (apply op b)

-- A closed breaker opens at an attempt exactly when, counting that attempt in the window then
-- current, there are more than 100 attempts, or at least three of which more than 3 in 10 failed.
pub record_attempt-opens_iff :
    (b : CircuitBreaker) (success : Bool) (now : ℕ)
    → b.is_open ≡ false
    → let c = record_attempt b success now in
      (c.is_open ≡ true)
      ↔ ((100 < c.attempts) ⊎ ((3 ≤ c.attempts) × (3 * c.attempts < 10 * c.failures)))
unfolding record_attempt
record_attempt-opens_iff b success now h = ground arith
