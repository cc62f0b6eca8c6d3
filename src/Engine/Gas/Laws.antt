-- ===== src/Engine/Gas/Laws.antt =====
-- Bounds on the gas limit and on the fees of layer4/engine/src/gasEstimator.ts.
use creation_of_energy_token.Prelude.{◌/◌, refl, ℕ, ◌+◌, ◌*◌, ◌≤◌, ◌<◌, ◌≡◌, ◌↔◌, min, max, arith}
use creation_of_energy_token.Engine.Types.{TransactionRequest, GasStrategy, max_gas_limit}
use creation_of_energy_token.Engine.Gas.{apply_gas_buffer, compute_eip1559_fees, enrich_with_gas}

-- The buffered gas is the smaller of 5/4 of the estimate, rounded down, and the cap; it is at
-- least the estimate whenever the estimate itself is within the cap.
pub apply_gas_buffer_bounds :
    (gas : ℕ)
    → (apply_gas_buffer gas 125 ≡ min (5 * gas / 4) max_gas_limit)
      × (gas ≤ max_gas_limit → gas ≤ apply_gas_buffer gas 125)
unfolding apply_gas_buffer
apply_gas_buffer_bounds gas = ground arith

-- More estimated gas never lowers the limit.
pub apply_gas_buffer_mono : (a b : ℕ) → a ≤ b → apply_gas_buffer a 125 ≤ apply_gas_buffer b 125
unfolding apply_gas_buffer
apply_gas_buffer_mono a b h = ground arith

-- The priority fee is the larger of the tip and the strategy's own; the fee cap is twice the base
-- fee and the priority fee, or the strategy's cap where that is smaller.
pub compute_eip1559_fees_bounds :
    (base tip : ℕ) (s : GasStrategy)
    → let fees = compute_eip1559_fees base tip s in
      (fees.max_priority_fee_per_gas ≡ max tip s.priority_fee)
      × (fees.max_fee_per_gas ≡ min s.max_fee_per_gas_cap (base * 2 + max tip s.priority_fee))
unfolding compute_eip1559_fees
compute_eip1559_fees_bounds base tip s = ground arith

-- The priority fee exceeds the fee cap of the transaction exactly when the larger of the tip and
-- the strategy's priority fee exceeds the strategy's cap.
pub priority-gt-max_fee_iff :
    (base tip : ℕ) (s : GasStrategy)
    → let fees = compute_eip1559_fees base tip s in
      (fees.max_fee_per_gas < fees.max_priority_fee_per_gas)
      ↔ (s.max_fee_per_gas_cap < max tip s.priority_fee)
unfolding compute_eip1559_fees
priority-gt-max_fee_iff base tip s = ground arith

-- The completed transaction goes where it went with its nonce, within the caps on gas and fee.
pub enrich_with_gas_bounds :
    (tx : TransactionRequest) (gas base tip : ℕ) (strategy : GasStrategy)
    → let tx' = enrich_with_gas tx gas base tip strategy in
      (tx'.to ≡ tx.to)
      × (tx'.nonce ≡ tx.nonce)
      × (tx'.gas_limit ≤ max_gas_limit)
      × (tx'.max_fee_per_gas ≤ strategy.max_fee_per_gas_cap)
unfolding enrich_with_gas
enrich_with_gas_bounds tx gas base tip strategy = (
  refl,
  refl,
  omega (arith, apply_gas_buffer_bounds gas),
  omega (arith, compute_eip1559_fees_bounds base tip strategy),
)
