-- ===== src/Settlement/Credit/Laws.antt =====
-- Which claims are granted, and for how much.
use creation_of_energy_token.Prelude.{Bool, ◌≡◌, ◌↔◌, false, arith}
use creation_of_energy_token.Prelude.Int.{ℤ, pos, negsuc, quot, ltb_ℤ, ==ℤ_iff, ◌*ℤ◌, ◌≤ℤ◌}
use creation_of_energy_token.Settlement.Types.{accepted}
use creation_of_energy_token.Settlement.Credit.{validate_credit, assert_credit_or_throw}

-- A balance that covers the claim is worth at least the claim in whole kWh.
quot-covers :
    (balance claim : ℤ)
    → claim *ℤ pos 1_000_000 ≤ℤ balance
    → ltb_ℤ (quot balance 1_000_000) claim ≡ false
unfolding ◌*ℤ◌ quot
quot-covers (pos b) (pos c) h = ground arith
quot-covers (pos b) (negsuc c) h = ground arith
quot-covers (negsuc b) (pos c) h = ground arith
quot-covers (negsuc b) (negsuc c) h = ground arith

-- A claim is granted exactly when the batch is not redeemed, the claim is the whole batch, and the
-- balance covers it in micro-units; the credit is then the claim itself. Claims of any sign are
-- meant.
pub assert_credit_or_throw_iff :
    (redeemed : Bool) (balance batch claim max_credit : ℤ)
    → (assert_credit_or_throw (record {
      coin_balance_micro = balance;
      batch_kwh = batch;
      batch_redeemed = redeemed;
      kwh_claim = claim;
    })
        ≡ accepted max_credit)
      ↔ ((redeemed ≡ false)
          × (batch ≡ claim)
          × (claim *ℤ pos 1_000_000 ≤ℤ balance)
          × (max_credit ≡ claim))
unfolding assert_credit_or_throw validate_credit
assert_credit_or_throw_iff redeemed balance batch claim max_credit =
    ground (arith, ==ℤ_iff batch claim, quot-covers balance claim)
