-- ===== src/Settlement/Offramp.antt =====
-- layer5/settlement/src/adapters: circleOfframpClient.ts, and the price of pythPriceClient.ts. The
-- answers of the two services are from outside.
pub mod Laws
use creation_of_energy_token.Prelude.{
  ℕ, Bool, true, false, not, List, [], ◌∷◌, ◌++◌, Option, none, some, Text, text_Eq, ◌===◌, codes,
  or_else, if◌then◌else◌, ltb,
}
use creation_of_energy_token.Prelude.Int.{ℤ, pos, negsuc, ◌-ℤ◌, ◌*ℤ◌, quot, ltb_ℤ}
use creation_of_energy_token.Prelude.Strings.{is_nonempty}
use creation_of_energy_token.Settlement.Types.{Failure, callee, Attempt, done, threw}
use creation_of_energy_token.Settlement.Manifest.{is_truthy}

pub record OfframpQuote : Type 0 where
  pub usdc_in : ℤ
  pub fee_bps : ℤ
  pub payout : ℤ

pub data OfframpStatus : Type 0 where
  pending completed failed : OfframpStatus

pub record OfframpResult : Type 0 where
  pub reference : Text
  pub status : OfframpStatus

unfoldable pub quote_payout : ℤ → ℤ → OfframpQuote
unfolding ◌*ℤ◌ ◌-ℤ◌ quot
quote_payout usdc_in fee_bps =
    let capped = if ltb_ℤ (pos 500) fee_bps then pos 500 else fee_bps in
    let fee = quot (usdc_in *ℤ capped) 10_000 in
    record { usdc_in = usdc_in; fee_bps = capped; payout = usdc_in -ℤ fee }

-- The answer to a transfer: whether it is ok, and the id and the status of its body.
pub record TransferAnswer : Type 0 where
  pub ok : Bool
  pub id : Option Text
  pub status : Option Text

-- What a conversion reads from outside: the text of the amount, the texts that are made with the
-- time, and the service.
pub record Circle : Type 0 where
  pub api_key : Option Text
  pub amount_text : Text
  pub now_text : Text
  pub transfer : Attempt TransferAnswer

abbrev pub offramp : Text → OfframpStatus → Attempt OfframpResult
offramp reference status = done (record { reference = reference; status = status })

unfoldable pub convert_to_fiat : Circle → Bool → Attempt OfframpResult
convert_to_fiat circle human_approved =
    if not human_approved
    then threw (callee (codes "Off-ramp blocked: human 2FA approval required (RULE-5.8-E)"))
    else if not (is_truthy circle.api_key)
    then offramp (codes "sim-cctp-" ++ circle.amount_text) pending
    else (elim circle.transfer [
      | threw e ↦ threw e
      | done answer ↦
          if not answer.ok
          then offramp (codes "failed-" ++ circle.now_text) failed
          else offramp (or_else answer.id (codes "circle-" ++ circle.now_text))
              (elim answer.status [
                | none ↦ pending
                | some status ↦ if status === codes "complete" then completed else pending
              ])
    ])

-- The confidence of a price, in basis points; a price that is not positive has 10,000.
unfoldable pub confidence_bps : ℤ → ℤ → ℤ
unfolding ◌*ℤ◌ quot
confidence_bps (pos price) conf =
    if ltb 0 price then quot (conf *ℤ pos 10_000) price else pos 10_000
confidence_bps (negsuc price) conf = pos 10_000
