-- ===== src/Engine/Gas.antt =====
-- layer4/engine/src/gasEstimator.ts. Gas and fees are unsigned quantities of the chain.
pub mod Laws
use creation_of_energy_token.Prelude.{ℕ, ◌+◌, ◌*◌, ◌/◌, ltb, leb, if◌then◌else◌}
use creation_of_energy_token.Engine.Types.{TransactionRequest, GasStrategy, max_gas_limit}

unfoldable pub apply_gas_buffer : ℕ → ℕ → ℕ
apply_gas_buffer estimated_gas multiplier =
    let with_buffer = estimated_gas * multiplier / 100 in
    if ltb max_gas_limit with_buffer then max_gas_limit else with_buffer

pub record Fees : Type 0 where
  pub max_fee_per_gas : ℕ
  pub max_priority_fee_per_gas : ℕ

unfoldable pub compute_eip1559_fees : ℕ → ℕ → GasStrategy → Fees
compute_eip1559_fees base_fee max_priority strategy =
    let priority =
      if leb strategy.priority_fee max_priority then max_priority else strategy.priority_fee in
    let max_fee = base_fee * 2 + priority in
    record {
      max_fee_per_gas =
          if ltb strategy.max_fee_per_gas_cap max_fee
          then strategy.max_fee_per_gas_cap
          else max_fee;
      max_priority_fee_per_gas = priority;
    }

unfoldable pub enrich_with_gas : TransactionRequest → ℕ → ℕ → ℕ → GasStrategy → TransactionRequest
unfolding apply_gas_buffer compute_eip1559_fees
enrich_with_gas tx estimated_gas base_fee max_priority strategy =
    let fees = compute_eip1559_fees base_fee max_priority strategy in
    record tx {
      gas_limit = apply_gas_buffer estimated_gas 125;
      max_fee_per_gas = fees.max_fee_per_gas;
      max_priority_fee_per_gas = fees.max_priority_fee_per_gas;
    }
