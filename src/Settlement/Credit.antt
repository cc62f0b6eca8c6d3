-- ===== src/Settlement/Credit.antt =====
-- layer5/settlement/src/creditValidation.ts.
pub mod Laws
use creation_of_energy_token.Prelude.{Bool, true, false, ◌||◌, not, if◌then◌else◌}
use creation_of_energy_token.Prelude.Int.{ℤ, pos, ◌*ℤ◌, quot, ltb_ℤ, ◌==ℤ◌}
use creation_of_energy_token.Settlement.Types.{
  kwh_scale, SettlementError, insufficient_credit, Checked, accepted, rejected,
}

pub record CreditValidationInput : Type 0 where
  pub coin_balance_micro : ℤ
  pub batch_kwh : ℤ
  pub batch_redeemed : Bool
  pub kwh_claim : ℤ

pub record CreditValidationError : Type 0 where
  pub required : ℤ
  pub available : ℤ

pub data CreditValidationResult : Type 0 where
  granted : ℤ → CreditValidationResult
  denied : CreditValidationError → CreditValidationResult

unfoldable pub validate_credit : CreditValidationInput → CreditValidationResult
unfolding ◌*ℤ◌ quot
validate_credit input =
    let required = input.kwh_claim *ℤ pos kwh_scale in
    if input.batch_redeemed
    then denied (record { required = required; available = pos 0 })
    else (if ltb_ℤ input.coin_balance_micro required || not (input.batch_kwh ==ℤ input.kwh_claim)
        then denied (record { required = required; available = input.coin_balance_micro })
        else (let coin_kwh = quot input.coin_balance_micro kwh_scale in
            granted (if ltb_ℤ coin_kwh input.batch_kwh then coin_kwh else input.batch_kwh)))

unfoldable pub assert_credit_or_throw : CreditValidationInput → Checked ℤ
assert_credit_or_throw input = elim (validate_credit input) [
  | granted max_credit ↦ accepted max_credit
  | denied e ↦ rejected (insufficient_credit e.required e.available)
]
