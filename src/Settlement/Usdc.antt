-- ===== src/Settlement/Usdc.antt =====
-- layer5/settlement/src/usdcSettlement.ts. Times are in milliseconds; `Date.now()` is `now`.
pub mod Laws
use creation_of_energy_token.Prelude.{
  ℕ, ◌+◌, Bool, ◌||◌, List, [], ◌∷◌, Option, none, some, Text, text_Eq, leb,
}
use creation_of_energy_token.Prelude.Int.{ℤ, pos, ◌+ℤ◌, ◌-ℤ◌, ◌*ℤ◌, quot, ltb_ℤ}
use creation_of_energy_token.Prelude.Dict.{Dict, get, set, delete}
use creation_of_energy_token.Settlement.Types.{
  kwh_scale, bps_denom, price_stale_ms, stale_price, slippage_exceeded, unknown_trade, Checked,
  accepted, rejected, reject_if,
}

pub record PriceFeedSnapshot : Type 0 where
  pub price : ℤ
  pub publish_time_ms : ℕ

pub record Escrow : Type 0 where
  pub amount : ℤ
  pub expires_at : ℕ

abbrev pub UsdcSettlementAdapter : Type 0
UsdcSettlementAdapter = Dict Text Escrow

-- `publishTimeMs <= nowMs - PRICE_STALE_MS`, with the difference on the other side.
unfoldable pub assert_fresh_price : PriceFeedSnapshot → ℕ → Checked (Unit {0})
assert_fresh_price feed now =
    reject_if (leb (feed.publish_time_ms + price_stale_ms) now) stale_price

-- `min` and `max` of the source.
unfoldable pub slippage_min : ℤ → ℤ → ℤ
slippage_min expected slippage_bps = quot (expected *ℤ (pos bps_denom -ℤ slippage_bps)) bps_denom

unfoldable pub slippage_max : ℤ → ℤ → ℤ
slippage_max expected slippage_bps = quot (expected *ℤ (pos bps_denom +ℤ slippage_bps)) bps_denom

unfoldable pub assert_slippage : ℤ → ℤ → ℤ → ℤ → Checked (Unit {0})
unfolding slippage_min slippage_max
assert_slippage energy_micro usdc_micro price slippage_bps =
    let expected = quot (energy_micro *ℤ price) 1_000_000 in
    reject_if
      (ltb_ℤ usdc_micro (slippage_min expected slippage_bps)
        || ltb_ℤ (slippage_max expected slippage_bps) usdc_micro)
      slippage_exceeded

unfoldable pub escrow_usdc : Text → ℤ → ℕ → ℕ → UsdcSettlementAdapter → UsdcSettlementAdapter
escrow_usdc trade_id amount max_duration_ms now escrows =
    set trade_id (record { amount = amount; expires_at = now + max_duration_ms }) escrows

unfoldable pub release_usdc : Text → UsdcSettlementAdapter → Checked ℤ × UsdcSettlementAdapter
release_usdc trade_id escrows = elim (get trade_id escrows) [
  | none ↦ (rejected (unknown_trade trade_id), escrows)
  | some row ↦ (accepted row.amount, delete trade_id escrows)
]

pub record Payout : Type 0 where
  pub payout : ℤ
  pub fee : ℤ

unfoldable pub payout_after_fee : ℤ → ℤ → Payout
payout_after_fee usdc_amount platform_fee_bps =
    let fee = quot (usdc_amount *ℤ platform_fee_bps) bps_denom in
    record { payout = usdc_amount -ℤ fee; fee = fee }
