-- ===== src/Settlement/Burns.antt =====
-- layer5/settlement/src/burnEngine.ts.
pub mod Laws
use creation_of_energy_token.Prelude.{ℕ, Bool, not, List, [], ◌∷◌, ◌++◌, Text}
use creation_of_energy_token.Prelude.Int.{ℤ, pos, ◌*ℤ◌, ◌==ℤ◌}
use creation_of_energy_token.Settlement.Types.{
  kwh_scale, burn_mismatch, Checked, reject_if, slice_last,
}

pub record BurnEvent : Type 0 where
  pub amount : ℤ
  pub redemption_id : Text
  pub consumer : Text
  pub timestamp_ms : ℕ

abbrev pub BurnEngine : Type 0
BurnEngine = List BurnEvent

unfoldable pub record_burn : BurnEvent → BurnEngine → BurnEngine
record_burn event burns = burns ++ event ∷ []

unfoldable pub assert_burn_amount : ℤ → ℤ → Checked (Unit {0})
unfolding ◌*ℤ◌
assert_burn_amount kwh_claim burn_amount =
    let expected = kwh_claim *ℤ pos kwh_scale in
    reject_if (not (burn_amount ==ℤ expected)) (burn_mismatch expected burn_amount)

unfoldable pub history : ℕ → BurnEngine → List BurnEvent
history limit burns = slice_last limit burns
