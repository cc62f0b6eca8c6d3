-- ===== src/Engine/Builder/Laws.antt =====
-- What the contracts are handed by the two builders of calldata.
use creation_of_energy_token.Prelude.{
  ℕ, ◌≡◌, refl, List, [], ◌∷◌, map, Option, some, Text, or_else, arith, inl, inr, Bool, true, false,
  ◌&&◌, ◌||◌, ◌==◌, leb, All, sym, ap, ◌∙◌,
}
use creation_of_energy_token.Prelude.Int.{ℤ, pos}
use creation_of_energy_token.Engine.Types.{
  Obligation, TransactionRequest, ok, Result-cases, LifecycleState, triggered, arbitration_resolved,
  other,
}
use creation_of_energy_token.Engine.External.{Viem, BatchCall}
use creation_of_energy_token.Engine.Builder.{
  built, BuildParams, lifecycle_to_uint8, map_obligation, request_tuple, build_execute_batch_tx,
  build_execute_batch_tx_legacy,
}

map-map_obligation : (os : List Obligation) → map map_obligation os ≡ os
unfolding map_obligation
map-map_obligation [] = refl
map-map_obligation (o ∷ os) = rw (map-map_obligation os)

abbrev the_call : BuildParams → BatchCall
the_call params = record {
  contract_id = or_else params.contract_id params.request.contract_id;
  request = request_tuple params.request;
  batch_id = params.batch_id;
}

-- The number of a state: 2 for TRIGGERED, 5 for every other.
abbrev pub state_number : LifecycleState → ℕ
state_number triggered = 2
state_number arbitration_resolved = 5
state_number (other state) = 5

-- The call that a batch should make.
abbrev pub intended_call : BuildParams → BatchCall
intended_call params =
    let request = params.request in
    record {
      contract_id = or_else params.contract_id request.contract_id;
      request = record {
        contract_id = request.contract_id;
        current_state = state_number request.current_state;
        obligation_hash = request.obligation_hash;
        oracle_snapshot_hash = request.oracle_snapshot_hash;
        zk_proof = request.zk_proof;
        dispute_deadline = request.dispute_deadline;
        active_challenge = request.active_challenge;
        obligations = request.obligations;
      };
      batch_id = params.batch_id;
    }

lifecycle_to_uint8-state_number :
    (state : LifecycleState) → lifecycle_to_uint8 state ≡ state_number state
unfolding lifecycle_to_uint8
lifecycle_to_uint8-state_number triggered = refl
lifecycle_to_uint8-state_number arbitration_resolved = refl
lifecycle_to_uint8-state_number (other state) = refl

the_call-intended : (params : BuildParams) → the_call params ≡ intended_call params
unfolding request_tuple
the_call-intended params = ground (
  arith,
  lifecycle_to_uint8-state_number params.request.current_state,
  map-map_obligation params.request.obligations,
)

-- Whole bytes in lower-case hexadecimal digits after 0x: a text that encoding to bytes keeps.
abbrev is_lower_hex : ℕ → Bool
is_lower_hex c = leb b'0' c && leb c b'9' || leb b'a' c && leb c b'f'

abbrev pairs_of_hex : Text → Bool
pairs_of_hex [] = true
pairs_of_hex (a ∷ []) = false
pairs_of_hex (a ∷ b ∷ s) = is_lower_hex a && is_lower_hex b && pairs_of_hex s

abbrev pub is_bytes : Text → Bool
is_bytes [] = false
is_bytes (a ∷ []) = false
is_bytes (a ∷ b ∷ s) = a == b'0' && b == b'x' && pairs_of_hex s

abbrev IsObligation : Obligation → Type 0
IsObligation o =
    (is_bytes o.token ≡ true)
    × (is_bytes o.partition ≡ true)
    × (is_bytes o.to ≡ true)
    × (is_bytes o.call_data ≡ true)

abbrev pub IsCanonical : BatchCall → Type 0
IsCanonical call =
    let r = call.request in
    (is_bytes call.contract_id ≡ true)
    × (is_bytes call.batch_id ≡ true)
    × (is_bytes r.contract_id ≡ true)
    × (is_bytes r.obligation_hash ≡ true)
    × (is_bytes r.oracle_snapshot_hash ≡ true)
    × (is_bytes r.zk_proof.proof ≡ true)
    × (is_bytes r.zk_proof.input_hash ≡ true)
    × (is_bytes r.zk_proof.output_commitment ≡ true)
    × All IsObligation r.obligations

module _ (viem : Viem) (decode : Text → Option BatchCall)
    (decode-encode : (call : BatchCall) (call_data : Text)
      → IsCanonical call
      → viem.encode_execute_batch call ≡ ok call_data
      → decode call_data ≡ some call) where
  -- Let a decoder invert the encoder of calldata on calls whose texts are whole bytes in lower-case
  -- hexadecimal digits, and let the intended call be such a one. Then a built transaction goes to
  -- the engine, moves no value and has the nonce given, and its calldata decodes to the intended
  -- call: for the contract asked for, with every field and every obligation of the request, the
  -- number 2 for the state TRIGGERED and 5 for every other, and the batch id.
  pub build_execute_batch_tx-decodes :
      (params : BuildParams) (tx : TransactionRequest)
      → IsCanonical (intended_call params)
      → build_execute_batch_tx viem params ≡ ok (built tx)
      → (tx.to ≡ params.engine_address)
        × (tx.value ≡ pos 0)
        × (tx.nonce ≡ params.nonce)
        × (decode tx.call_data ≡ some (intended_call params))
  unfolding build_execute_batch_tx
  build_execute_batch_tx-decodes params tx canonical h =
      elim (Result-cases (viem.encode_execute_batch (the_call params))) [
        | inr (thrown, e) ↦ absurd (ground arith)
        | inl (call_data, e) ↦
            let encoded : viem.encode_execute_batch (intended_call params) ≡ ok call_data =
              ap viem.encode_execute_batch (sym (the_call-intended params)) ∙ e in
            ground (arith, decode-encode (intended_call params) call_data canonical encoded)
      ]

pub legacy-built :
    (viem : Viem) (engine_address : Text) (chain_id : ℤ) (contract_id batch_id : Text)
    (o : Obligation) (nonce : ℕ) (tx : TransactionRequest)
    → build_execute_batch_tx_legacy viem engine_address chain_id contract_id batch_id o nonce
      ≡ ok (built tx)
    → (tx.to ≡ engine_address) × (tx.nonce ≡ nonce)
unfolding build_execute_batch_tx_legacy build_execute_batch_tx
legacy-built viem engine_address chain_id contract_id batch_id o nonce tx h = ground arith
