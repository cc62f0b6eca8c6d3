-- ===== src/Settlement/Reporting.antt =====
-- layer5/settlement/src/bridgeReporting.ts.
pub mod Laws
use creation_of_energy_token.Prelude.{
  ℕ, Bool, List, [], ◌∷◌, ◌++◌, Text, length, drop, filter, ltb, leb, if◌then◌else◌,
}
use creation_of_energy_token.Prelude.Int.{ℤ}

pub data SettlementEventType : Type 0 where
  burn_precommit redemption rec_bridge usdc_settled l4_execution_ack : SettlementEventType

-- The schema's version is always "v1.0.0".
pub record SettlementEventV1 : Type 0 where
  pub event_type : SettlementEventType
  pub redemption_id : Text
  pub kwh : ℤ
  pub consumer_addr : Text
  pub producer_addr : Text
  pub oracle_sig : Text
  pub timestamp_ms : ℕ
  pub block_height : ℕ

abbrev pub BridgeReportingAdapter : Type 0
BridgeReportingAdapter = List SettlementEventV1

abbrev pub max_buffer : ℕ
max_buffer = 10_000

-- `push`, and `shift` where the buffer is then too long.
unfoldable pub emit : SettlementEventV1 → BridgeReportingAdapter → BridgeReportingAdapter
emit event buffer =
    let pushed = buffer ++ event ∷ [] in
    if ltb max_buffer (length pushed) then drop 1 pushed else pushed

unfoldable pub query : ℕ → BridgeReportingAdapter → List SettlementEventV1
query since_ms buffer = filter (λ (e : SettlementEventV1). leb since_ms e.timestamp_ms) buffer
