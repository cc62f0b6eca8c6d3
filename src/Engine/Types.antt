-- ===== src/Engine/Types.antt =====
-- layer4/engine/src/types.ts: the data that the execution lanes exchange, and the errors that
-- they throw. A hex string is a `Text`; a `bigint` or a `number` that may be negative is a ℤ.
use creation_of_energy_token.Prelude.{ℕ, Bool, true, false, List, Text, ◌≡◌, refl, ◌⊎◌, inl, inr}
use creation_of_energy_token.Prelude.Int.{ℤ}

pub data Lane : Type 0 where
  ctl txb auth net fin sft : Lane

pub data LaneState : Type 0 where
  idle running completed failed : LaneState

pub data ExecutionLaneStatus : Type 0 where
  idle preparing authorizing submitting mempool confirming awaiting_l5 finalized rolled_back
        failed :
      ExecutionLaneStatus

-- The checker's two states, and any other string that an unchecked caller hands over.
pub data LifecycleState : Type 0 where
  triggered arbitration_resolved : LifecycleState
  other : Text → LifecycleState

pub record ZkProof : Type 0 where
  pub proof : Text
  pub input_hash : Text
  pub output_commitment : Text

-- `call_data` is the field `data`.
pub record Obligation : Type 0 where
  pub token : Text
  pub partition : Text
  pub to : Text
  pub value : ℤ
  pub call_data : Text
  pub reversible : Bool

pub record ExecutionRequest : Type 0 where
  pub contract_id : Text
  pub current_state : LifecycleState
  pub obligation_hash : Text
  pub oracle_snapshot_hash : Text
  pub zk_proof : ZkProof
  pub dispute_deadline : ℤ
  pub active_challenge : Bool
  pub obligations : List Obligation
  pub eip712_signatures : List Text

pub record ExecutionResult : Type 0 where
  pub contract_id : Text
  pub execution_id : Text
  pub tx_hash : Text
  pub execution_block : ℕ
  pub confirmation_block : ℕ
  pub settled : Bool
  pub rollback_reason : Text
  pub proof_ids : List Text
  pub regulatory_report_cid : Text
  pub gas_used : ℤ

pub data SuggestedState : Type 0 where
  monitoring disputing arbitration : SuggestedState

-- The status of an entry of the idempotency guard (idempotencyGuard.ts).
pub data RecordStatus : Type 0 where
  queued submitted confirming finalized failed : RecordStatus

pub data ConfirmationStatus : Type 0 where
  pending confirmed reverted stuck : ConfirmationStatus

-- The message of an error: its template, with the values that are put in. `external` is a
-- message made by a callee outside the repository.
pub data Message : Type 0 where
  invalid_fsm_state missing_zk_proof active_challenge dispute_window_open : Message
  obligation_hash_mismatch duplicate_signer zk_proof_invalid breaker_open : Message
  no_obligations safe_executor_required invalid_chain_id l5_not_acknowledged : Message
  live_mode_requires_clients retries_exhausted auth_config_required : Message
  threshold_not_met : ℕ → ℕ → ℕ → Message
  safe_threshold_not_met : ℕ → ℕ → Message
  not_a_safe_owner : Text → Message
  too_few_unique_owners : ℕ → ℕ → Message
  in_flight : RecordStatus → Message
  tx_reverted : Text → Message
  finality : ConfirmationStatus → Message
  invalid_transition cannot_build_request build_error : Message
  external : Text → Message

pub record FailureReport : Type 0 where
  pub execution_id : Text
  pub lane : Lane
  pub error_code : ℕ
  pub recoverable : Bool
  pub suggested_l3_state : SuggestedState
  pub message : Message

-- `type` is always "eip1559".
pub record TransactionRequest : Type 0 where
  pub to : Text
  pub value : ℤ
  pub call_data : Text
  pub gas_limit : ℕ
  pub max_fee_per_gas : ℕ
  pub max_priority_fee_per_gas : ℕ
  pub nonce : ℕ
  pub chain_id : ℤ

pub record LaneStates : Type 0 where
  pub ctl : LaneState
  pub txb : LaneState
  pub auth : LaneState
  pub net : LaneState
  pub fin : LaneState
  pub sft : LaneState

abbrev pub all_idle : LaneStates
all_idle = record {
  ctl = LaneState.idle;
  txb = LaneState.idle;
  auth = LaneState.idle;
  net = LaneState.idle;
  fin = LaneState.idle;
  sft = LaneState.idle;
}

pub record ExecutionContext : Type 0 where
  pub execution_id : Text
  pub contract_id : Text
  pub request : ExecutionRequest
  pub obligation : Obligation
  pub created_at : ℕ
  pub deadline : ℕ
  pub lane_states : LaneStates

pub record GasStrategy : Type 0 where
  pub base_fee_multiplier : ℕ
  pub priority_fee : ℕ
  pub max_fee_per_gas_cap : ℕ

abbrev pub default_gas_strategy : GasStrategy
default_gas_strategy = record {
  base_fee_multiplier = 125;
  priority_fee = 1_000_000_000;
  max_fee_per_gas_cap = 500_000_000_000;
}

abbrev pub confirmation_depth : ℕ
confirmation_depth = 12

abbrev pub max_gas_limit : ℕ
max_gas_limit = 15_000_000

abbrev pub max_retries : ℕ
max_retries = 3

abbrev pub dispute_window_seconds : ℕ
dispute_window_seconds = 86_400

-- What is thrown: an `AuthError` with its code, or any other `Error`.
pub data Exn : Type 0 where
  auth_error : ℕ → Message → Text → Exn
  error : Message → Exn

-- A call's value, or what it throws.
pub data Result {ℓ} (A : Type ℓ) : Type ℓ where
  err : Exn → Result A
  ok : A → Result A

pub Result-cases {ℓ} :
    {A : Type ℓ} (r : Result A) → ((a : A) × (r ≡ ok a)) ⊎ ((e : Exn) × (r ≡ err e))
Result-cases (ok a) = inl (a, refl)
Result-cases (err e) = inr (e, refl)

pub ok-injective {ℓ} : {A : Type ℓ} {a b : A} → ok a ≡ ok b → a ≡ b
ok-injective h = cc

-- `if (bad) throw e`
abbrev pub throw_if : Bool → Exn → Result (Unit {0})
throw_if b e = elim b [ true ↦ err e | false ↦ ok tt ]

infixl 5 ◌>>=◌ ◌>>◌
abbrev pub ◌>>=◌ : {A B : Type 0} → Result A → (A → Result B) → Result B
r >>= f = elim r [ err e ↦ err e | ok a ↦ f a ]

abbrev pub ◌>>◌ : {B : Type 0} → Result (Unit {0}) → Result B → Result B
first >> second = first >>= (λ u. second)
