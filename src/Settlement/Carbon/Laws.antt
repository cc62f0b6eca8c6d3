-- ===== src/Settlement/Carbon/Laws.antt =====
-- Which batches are eligible, and that a batch is claimed once.
use creation_of_energy_token.Prelude.{
  ℕ, ◌+◌, ◌*◌, ◌≤◌, ◌<◌, ◌≡◌, ◌↔◌, List, [], ◌∷◌, some, Text, text_Eq, text_eq_iff, arith,
}
use creation_of_energy_token.Prelude.Dict.{get, get-set, get-set_self}
use creation_of_energy_token.Settlement.Types.{accepted, rejected, already_claimed}
use creation_of_energy_token.Settlement.Carbon.{
  Claim, CarbonCreditBridge, verify_rec_eligibility, record_claim,
}

-- A batch is eligible exactly when its source is 0, 1 or 2 and it is less than 365 days old.
pub verify_rec_eligibility_iff :
    (source batch now : ℕ)
    → (verify_rec_eligibility source batch now ≡ accepted tt)
      ↔ ((source ≤ 2) × (now < batch + 365 * 86_400_000))
unfolding verify_rec_eligibility
verify_rec_eligibility_iff source batch now = ground arith

pub record ClaimCall : Type 0 where
  pub batch_id : Text
  pub claim : Claim

abbrev pub claim_all : List ClaimCall → CarbonCreditBridge → CarbonCreditBridge
claim_all [] s = s
claim_all (c ∷ calls) s =
    claim_all calls (record_claim c.batch_id c.claim.registry c.claim.credit_id s).1

record_claim-keeps :
    (batch other registry credit_id : Text) (claim : Claim) (s : CarbonCreditBridge)
    → get batch s ≡ some claim
    → get batch (record_claim other registry credit_id s).1 ≡ some claim
unfolding record_claim
record_claim-keeps batch other registry credit_id claim s h = ground (
  arith,
  get-set other batch (record { registry = registry; credit_id = credit_id }) s,
  text_eq_iff other batch,
)

claim_all-keeps :
    (calls : List ClaimCall) (batch : Text) (claim : Claim) (s : CarbonCreditBridge)
    → get batch s ≡ some claim
    → get batch (claim_all calls s) ≡ some claim
claim_all-keeps [] batch claim s h = h
claim_all-keeps (c ∷ calls) batch claim s h =
    claim_all-keeps calls batch claim
      (record_claim c.batch_id c.claim.registry c.claim.credit_id s).1
      (record_claim-keeps batch c.batch_id c.claim.registry c.claim.credit_id claim s h)

recorded :
    (batch registry credit_id : Text) (s : CarbonCreditBridge)
    → (record_claim batch registry credit_id s).0 ≡ accepted tt
    → get batch (record_claim batch registry credit_id s).1
      ≡ some (record { registry = registry; credit_id = credit_id })
unfolding record_claim
recorded batch registry credit_id s h =
    ground (arith, get-set_self batch (record { registry = registry; credit_id = credit_id }) s)

refused :
    (batch registry credit_id : Text) (s : CarbonCreditBridge) {claim : Claim}
    → get batch s ≡ some claim
    → (record_claim batch registry credit_id s).0 ≡ rejected (already_claimed batch)
unfolding record_claim
refused batch registry credit_id s h = ground arith

-- After an accepted claim, and whatever claims follow, the batch keeps that claim and every
-- further claim of it is refused.
pub record_claim_once :
    (batch registry credit_id registry' credit_id' : Text) (calls : List ClaimCall)
    (s : CarbonCreditBridge)
    → (record_claim batch registry credit_id s).0 ≡ accepted tt
    → let t = claim_all calls (record_claim batch registry credit_id s).1 in
      (get batch t ≡ some (record { registry = registry; credit_id = credit_id }))
      × ((record_claim batch registry' credit_id' t).0 ≡ rejected (already_claimed batch))
record_claim_once batch registry credit_id registry' credit_id' calls s h =
    let s' = (record_claim batch registry credit_id s).1 in
    let kept =
      claim_all-keeps calls batch (record { registry = registry; credit_id = credit_id }) s'
        (recorded batch registry credit_id s h) in
    (kept, refused batch registry' credit_id' (claim_all calls s') kept)
