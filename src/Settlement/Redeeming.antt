-- ===== src/Settlement/Redeeming.antt =====
-- layer5/settlement/src/buildRedeemPtb.ts. `TextEncoder` is a parameter, `utf8`.
pub mod Laws
use creation_of_energy_token.Prelude.{
  ℕ, ◌+◌, ◌*◌, ◌-◌, ◌/◌, Bool, true, false, ◌&&◌, List, [], ◌∷◌, ◌++◌, Text, codes, drop, leb,
  if◌then◌else◌,
}
use creation_of_energy_token.Prelude.Int.{ℤ}
use creation_of_energy_token.Prelude.Strings.{starts_with, all_hex, is_nonempty}
use creation_of_energy_token.Sdk.Transaction.{object, u64, bool, vector_u8, Transaction, call}
use creation_of_energy_token.Settlement.Deployment.{Layer5PackageTargets, Layer5RedeemObjects}

pub record RedeemAtomicArgs : Type 0 where
  pub redemption_id : List ℕ
  pub kwh : ℤ
  pub billing_period_end_ms : ℤ
  pub billing_period_override : Bool
  pub usdc_equiv : ℤ

unfoldable pub build_layer5_redeem_ptb :
    Transaction → Layer5PackageTargets → Layer5RedeemObjects → RedeemAtomicArgs → Transaction
unfolding call
build_layer5_redeem_ptb tx targets objects args =
    (call (targets.l5_package_id ++ codes "::redemption_orchestrator::redeem_atomic")
      (object objects.treasury_guard_id
        ∷ object objects.energy_batch_id
        ∷ object objects.energy_coin_id
        ∷ object objects.energy_meter_id
        ∷ object objects.compliance_registry_id
        ∷ object objects.jurisdiction_policy_id
        ∷ object objects.redemption_registry_id
        ∷ object objects.grid_operator_cap_id
        ∷ object objects.billing_operator_cap_id
        ∷ object objects.grid_settlement_ledger_id
        ∷ vector_u8 args.redemption_id
        ∷ u64 args.kwh
        ∷ u64 args.billing_period_end_ms
        ∷ bool args.billing_period_override
        ∷ u64 args.usdc_equiv
        ∷ [])
      tx).1

-- The value of a hexadecimal digit.
unfoldable pub hex_value : ℕ → ℕ
hex_value c = if leb 97 c then c - 87 else if leb 65 c then c - 55 else c - 48

-- The bytes that pairs of digits write, where the text is made of pairs of digits.
unfoldable pub hex_bytes : Text → List ℕ
unfolding hex_value
hex_bytes [] = []
hex_bytes (a ∷ []) = []
hex_bytes (a ∷ b ∷ s) = (hex_value a * 16 + hex_value b) ∷ hex_bytes s

abbrev pub has_even_length : Text → Bool
has_even_length [] = true
has_even_length (a ∷ []) = false
has_even_length (a ∷ b ∷ s) = has_even_length s

abbrev pub without_prefix : Text → Text
unfolding starts_with
without_prefix id = if starts_with (codes "0x") id then drop 2 id else id

unfoldable pub redemption_id_bytes : (Text → List ℕ) → Text → List ℕ
unfolding hex_bytes without_prefix
redemption_id_bytes utf8 redemption_id =
    let hex = without_prefix redemption_id in
    if is_nonempty hex && all_hex hex && has_even_length hex
    then hex_bytes hex
    else utf8 redemption_id
