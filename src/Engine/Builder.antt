-- ===== src/Engine/Builder.antt =====
-- layer4/engine/src/transactionBuilder.ts, and the calldata of safeExecutor.ts.
pub mod Laws
use creation_of_energy_token.Prelude.{
  ◌≡◌, refl, ◌⊎◌, inl, inr, ℕ, Bool, true, false, List, [], ◌∷◌, ◌++◌, replicate, Option, none,
  some, Text, codes, or_else, map,
}
use creation_of_energy_token.Prelude.Int.{ℤ, pos, leb_ℤ}
use creation_of_energy_token.Engine.Types.{
  LifecycleState, triggered, Obligation, ExecutionRequest, TransactionRequest, Result, ok, ◌>>=◌,
}
use creation_of_energy_token.Engine.External.{Viem, RequestTuple, BatchCall}

pub data BuildErrorCode : Type 0 where
  invalid_calldata chain_id_mismatch unexpected_value : BuildErrorCode

-- The message of a refusal is always "invalid chainId".
pub data BuildResult : Type 0 where
  built : TransactionRequest → BuildResult
  refused : BuildErrorCode → BuildResult

pub BuildResult-cases :
    (r : BuildResult)
    → ((tx : TransactionRequest) × (r ≡ built tx)) ⊎ ((code : BuildErrorCode) × (r ≡ refused code))
BuildResult-cases (built tx) = inl (tx, refl)
BuildResult-cases (refused code) = inr (code, refl)

unfoldable pub lifecycle_to_uint8 : LifecycleState → ℕ
lifecycle_to_uint8 triggered = 2
lifecycle_to_uint8 _ = 5

unfoldable pub map_obligation : Obligation → Obligation
map_obligation o = record {
  token = o.token;
  partition = o.partition;
  to = o.to;
  value = o.value;
  call_data = o.call_data;
  reversible = o.reversible;
}

unfoldable pub request_tuple : ExecutionRequest → RequestTuple
unfolding lifecycle_to_uint8 map_obligation
request_tuple request = record {
  contract_id = request.contract_id;
  current_state = lifecycle_to_uint8 request.current_state;
  obligation_hash = request.obligation_hash;
  oracle_snapshot_hash = request.oracle_snapshot_hash;
  zk_proof = request.zk_proof;
  dispute_deadline = request.dispute_deadline;
  active_challenge = request.active_challenge;
  obligations = map map_obligation request.obligations;
}

-- The parameters of `buildExecuteBatchTx`.
pub record BuildParams : Type 0 where
  pub engine_address : Text
  pub chain_id : ℤ
  pub contract_id : Option Text
  pub request : ExecutionRequest
  pub batch_id : Text
  pub nonce : ℕ

-- A transaction with no gas and no fees yet.
abbrev pub bare_tx : Text → Text → ℕ → ℤ → TransactionRequest
bare_tx to call_data nonce chain_id = record {
  to = to;
  value = pos 0;
  call_data = call_data;
  gas_limit = 0;
  max_fee_per_gas = 0;
  max_priority_fee_per_gas = 0;
  nonce = nonce;
  chain_id = chain_id;
}

unfoldable pub build_execute_batch_tx : Viem → BuildParams → Result BuildResult
build_execute_batch_tx viem params = elim (leb_ℤ params.chain_id (pos 0)) [
  | true ↦ ok (refused chain_id_mismatch)
  | false ↦ (do
    let contract_id = or_else params.contract_id params.request.contract_id
    call_data ← viem.encode_execute_batch (record {
      contract_id = contract_id;
      request = request_tuple params.request;
      batch_id = params.batch_id;
    })
    ok (built (bare_tx params.engine_address call_data params.nonce params.chain_id)))
]

-- The constants of the requests that carry no evidence of their own.
abbrev pub zero_hash : Text
zero_hash = codes "0x" ++ replicate 64 b'0'

abbrev pub one_hash : Text
one_hash = codes "0x" ++ replicate 63 b'0' ++ codes "1"

abbrev pub placeholder_signature : Text
placeholder_signature = codes "0x" ++ replicate 130 b'1'

-- The request that `buildExecuteBatchTxLegacy` makes up.
abbrev pub legacy_request : Text → Obligation → ExecutionRequest
legacy_request contract_id obligation = record {
  contract_id = contract_id;
  current_state = triggered;
  obligation_hash = zero_hash;
  oracle_snapshot_hash = one_hash;
  zk_proof = record { proof = codes "0x01"; input_hash = one_hash; output_commitment = one_hash };
  dispute_deadline = pos 0;
  active_challenge = false;
  obligations = obligation ∷ [];
  eip712_signatures = placeholder_signature ∷ [];
}

unfoldable pub build_execute_batch_tx_legacy :
    Viem → Text → ℤ → Text → Text → Obligation → ℕ → Result BuildResult
build_execute_batch_tx_legacy viem engine_address chain_id contract_id batch_id obligation nonce =
    build_execute_batch_tx viem (record {
      engine_address = engine_address;
      chain_id = chain_id;
      contract_id = some contract_id;
      request = legacy_request contract_id obligation;
      batch_id = batch_id;
      nonce = nonce;
    })

-- `buildExecuteBatchViaSafeCalldata`: the state is written 2 or 5 as above.
unfoldable pub build_execute_batch_via_safe_calldata :
    Viem → Text → ExecutionRequest → Text → Result Text
build_execute_batch_via_safe_calldata viem contract_id request batch_id =
    viem.encode_execute_batch_via_safe
      (record { contract_id = contract_id; request = request_tuple request; batch_id = batch_id })
