-- ===== src/Settlement/Offramp/Laws.antt =====
-- Quotes and conversions.
use creation_of_energy_token.Settlement.Manifest.{is_truthy}
use native.Mathlib.Nat.{mul-le-mul_left}
use creation_of_energy_token.Prelude.{
  ℕ, ◌*◌, ◌≤◌, Bool, true, false, ◌≡◌, ◌⊎◌, arith, Bool-cases, inl, inr, ltb, ◌↔◌,
}
use creation_of_energy_token.Prelude.Int.{pos, ◌-ℤ◌, ◌*ℤ◌, ◌≤ℤ◌, quot}
use creation_of_energy_token.Settlement.Types.{is_done}
use creation_of_energy_token.Settlement.Offramp.{Circle, quote_payout, convert_to_fiat}

-- The payout of an amount, at a fee of any number of basis points, is at most the amount and at
-- least 95 percent of it.
pub quote_payout_bounds :
    (amount bps : ℕ)
    → ((quote_payout (pos amount) (pos bps)).payout ≤ℤ pos amount)
      × (pos (amount * 9_500) ≤ℤ (quote_payout (pos amount) (pos bps)).payout *ℤ pos 10_000)
unfolding quote_payout ◌*ℤ◌ ◌-ℤ◌ quot
quote_payout_bounds amount bps = elim (Bool-cases (ltb 500 bps)) [
  | inl h ↦ ground arith
  | inr h ↦
      let few : amount * bps ≤ amount * 500 = mul-le-mul_left amount (ground arith) in
      ground (arith, few)
]

-- A conversion that gives a result, or that asks the service, was approved by a human: without
-- the approval the call fails, whatever the key and the service are. With it, the call fails only
-- where the service is asked and throws.
pub convert_to_fiat_iff :
    (circle : Circle) (approved : Bool)
    → (is_done (convert_to_fiat circle approved) ≡ true) ↔ (
        (approved ≡ true) × ((is_truthy circle.api_key ≡ false) ⊎ (is_done circle.transfer ≡ true)))
unfolding convert_to_fiat
convert_to_fiat_iff circle false = ground arith
convert_to_fiat_iff circle true = ground arith
