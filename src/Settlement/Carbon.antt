-- ===== src/Settlement/Carbon.antt =====
-- layer5/settlement/src/carbonBridge.ts. A source is a number; times are in milliseconds.
pub mod Laws
use creation_of_energy_token.Prelude.{
  ℕ, ◌+◌, Bool, true, false, ◌||◌, ◌==◌, not, List, [], ◌∷◌, Text, text_Eq, leb, if◌then◌else◌,
}
use creation_of_energy_token.Prelude.Dict.{Dict, get, set, has}
use creation_of_energy_token.Settlement.Types.{
  ineligible_source, batch_too_old, already_claimed, Checked, accepted, rejected,
}

abbrev pub twelve_months_ms : ℕ
twelve_months_ms = 31_536_000_000

abbrev pub is_eligible_source : ℕ → Bool
is_eligible_source source = source == 0 || source == 1 || source == 2

pub record BridgeQuote : Type 0 where
  pub wormhole_fee_usdc : ℕ
  pub registry_fee_usdc : ℕ
  pub total_usdc : ℕ

pub record Claim : Type 0 where
  pub registry : Text
  pub credit_id : Text

abbrev pub CarbonCreditBridge : Type 0
CarbonCreditBridge = Dict Text Claim

-- The age is compared with the batch's time on the other side.
unfoldable pub verify_rec_eligibility : ℕ → ℕ → ℕ → Checked (Unit {0})
verify_rec_eligibility source batch_timestamp_ms now =
    if not (is_eligible_source source)
    then rejected ineligible_source
    else (if leb (batch_timestamp_ms + twelve_months_ms) now
        then rejected batch_too_old
        else accepted tt)

abbrev pub quote_bridge_fees : BridgeQuote
quote_bridge_fees = record {
  wormhole_fee_usdc = 5_000_000;
  registry_fee_usdc = 10_000_000;
  total_usdc = 5_000_000 + 10_000_000;
}

unfoldable pub record_claim :
    Text → Text → Text → CarbonCreditBridge → Checked (Unit {0}) × CarbonCreditBridge
record_claim batch_id registry credit_id claims =
    if has batch_id claims
    then (rejected (already_claimed batch_id), claims)
    else (accepted tt, set batch_id (record { registry = registry; credit_id = credit_id }) claims)
