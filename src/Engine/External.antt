-- ===== src/Engine/External.antt =====
-- What layer4/engine/src takes from the packages viem and the JavaScript runtime: parameters, of
-- which nothing is assumed here but their types. A callee that may throw returns a `Result`.
use creation_of_energy_token.Prelude.{ℕ, Bool, List, Text}
use creation_of_energy_token.Prelude.Int.{ℤ}
use creation_of_energy_token.Engine.Types.{Obligation, ZkProof, TransactionRequest, Result}

-- The tuple `request` of the contract interfaces, with the state as a uint8.
pub record RequestTuple : Type 0 where
  pub contract_id : Text
  pub current_state : ℕ
  pub obligation_hash : Text
  pub oracle_snapshot_hash : Text
  pub zk_proof : ZkProof
  pub dispute_deadline : ℤ
  pub active_challenge : Bool
  pub obligations : List Obligation

-- The arguments of `executeBatch` and of `executeBatchViaSafe`.
pub record BatchCall : Type 0 where
  pub contract_id : Text
  pub request : RequestTuple
  pub batch_id : Text

-- The domain and the message that EIP-712 signatures are recovered against.
pub record AuthDomain : Type 0 where
  pub name : Text
  pub version : Text
  pub chain_id : ℤ
  pub verifying_contract : Text

pub record AuthMessage : Type 0 where
  pub contract_id : Text
  pub obligation_hash : Text
  pub execution_id : Text

pub record Viem : Type 0 where
  pub keccak256 : Text → Text
  -- `encodePacked(["bytes32", "bytes32", "uint256"], …)`
  pub encode_packed : Text → Text → ℤ → Result Text
  -- `encodeAbiParameters` of the obligations' tuples
  pub encode_obligations : List Obligation → Result Text
  -- `encodeFunctionData` of the two functions
  pub encode_execute_batch : BatchCall → Result Text
  pub encode_execute_batch_via_safe : BatchCall → Result Text
  -- `recoverTypedDataAddress` of a signature
  pub recover_signer : AuthDomain → AuthMessage → Text → Result Text

-- The answers of the network to one call of `submitWithRetry`, by the number of the attempt.
pub record Network : Type 0 where
  -- the hash of the JSON text of `to`, `data`, `nonce` and `retry` in simulation mode
  pub simulated_hash : Text → Text → ℕ → ℕ → Text
  pub send_transaction : ℕ → TransactionRequest → Result Text
  pub block_number : ℕ → Result ℕ
