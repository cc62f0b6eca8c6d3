-- ===== src/Settlement/Usdc/Laws.antt =====
-- Escrows, freshness of prices, and payouts.
use native.Mathlib.Nat.{mul-le-mul_left}
use creation_of_energy_token.Prelude.{
  ◌∙◌, ap, ℕ, ◌+◌, ◌*◌, ◌≤◌, ◌≡◌, none, some, Text, text_Eq, arith,
}
use creation_of_energy_token.Prelude.Int.{ℤ, pos, ◌+ℤ◌, ◌-ℤ◌, ◌*ℤ◌, quot, ◌≤ℤ◌}
use creation_of_energy_token.Prelude.Dict.{
  get, set, delete, get-set_self, get-set_ne, get-delete_self, get-delete_ne,
}
use creation_of_energy_token.Settlement.Types.{accepted, rejected, unknown_trade}
use creation_of_energy_token.Settlement.Usdc.{
  Escrow, UsdcSettlementAdapter, escrow_usdc, release_usdc, payout_after_fee,
}

release_known :
    (trade : Text) (s : UsdcSettlementAdapter) {row : Escrow}
    → get trade s ≡ some row
    → release_usdc trade s ≡ (accepted row.amount, delete trade s)
unfolding release_usdc
release_known trade s h = ground arith

release_unknown :
    (trade : Text) (s : UsdcSettlementAdapter)
    → get trade s ≡ none
    → (release_usdc trade s).0 ≡ rejected (unknown_trade trade)
unfolding release_usdc
release_unknown trade s h = ground arith

-- What was put in escrow for a trade is released once, whatever stood there before: the second
-- release is refused, and the escrows of other trades stay.
pub escrow-release :
    (trade other : Text) (amount : ℤ) (duration now : ℕ) (s : UsdcSettlementAdapter)
    → (trade ≡ other → ⊥)
    → let first = release_usdc trade (escrow_usdc trade amount duration now s) in
      (first.0 ≡ accepted amount)
      × ((release_usdc trade first.1).0 ≡ rejected (unknown_trade trade))
      × (get other first.1 ≡ get other s)
unfolding escrow_usdc
escrow-release trade other amount duration now s h =
    let row : Escrow = record { amount = amount; expires_at = now + duration } in
    let escrowed : UsdcSettlementAdapter = set trade row s in
    let first : release_usdc trade escrowed ≡ (accepted amount, delete trade escrowed) =
      release_known trade escrowed (get-set_self trade row s) in
    (
      ap (λ x. x.0) first,
      ap (λ x. (release_usdc trade x.1).0) first
          ∙ release_unknown trade (delete trade escrowed) (get-delete_self trade escrowed),
      ap (λ x. get other x.1) first
          ∙ get-delete_ne trade other escrowed h
          ∙ get-set_ne trade other row s h,
    )

-- The payout and the fee make up the amount; for an amount that is not negative and a fee of at
-- most 10,000 basis points, neither is negative.
pub payout_after_fee_lem :
    (amount bps : ℕ)
    → bps ≤ 10_000
    → let p = payout_after_fee (pos amount) (pos bps) in
      (p.payout +ℤ p.fee ≡ pos amount) × (pos 0 ≤ℤ p.payout) × (pos 0 ≤ℤ p.fee)
unfolding payout_after_fee ◌*ℤ◌ ◌-ℤ◌ ◌+ℤ◌ quot
payout_after_fee_lem amount bps h =
    let few : amount * bps ≤ amount * 10_000 = mul-le-mul_left amount h in ground (arith, few)
