-- ===== src/Engine/Orchestrator.antt =====
-- layer4/engine/src/orchestrator.ts: the orchestrator that its caller drives step by step.
-- `Date.now()` is the argument `now`.
pub mod Laws
use creation_of_energy_token.Prelude.{
  ℕ, ◌+◌, Bool, true, false, List, [], ◌∷◌, ◌++◌, replicate, Option, none, some, Text, codes,
  or_else,
}
use creation_of_energy_token.Prelude.Int.{ℤ, pos}
use creation_of_energy_token.Engine.Types.{
  Lane, LaneState, LaneStates, all_idle, ExecutionLaneStatus, RecordStatus, Obligation,
  ExecutionRequest, ExecutionContext, TransactionRequest, ConfirmationStatus, pending, confirmed,
  reverted, stuck, triggered, default_gas_strategy, confirmation_depth, Result, ok, err, Exn, error,
  build_error,
}
use creation_of_energy_token.Engine.External.{Viem}
use creation_of_energy_token.Engine.Idempotency.{Guard, assert_not_in_flight, record_status}
use creation_of_energy_token.Engine.Gas.{enrich_with_gas}
use creation_of_energy_token.Engine.Builder.{
  built, refused, build_execute_batch_tx_legacy, zero_hash, one_hash, placeholder_signature,
}
use creation_of_energy_token.Engine.Confirmation.{
  ConfirmationTracker, Receipt, update_confirmation, create_tracker,
}

pub record OrchestratorConfig : Type 0 where
  pub engine_address : Text
  pub chain_id : ℤ

pub record ExecutionOrchestrator : Type 0 where
  pub status : ExecutionLaneStatus
  pub guard : Guard
  pub lane_states : LaneStates

abbrev pub new_orchestrator : ExecutionOrchestrator
new_orchestrator = record { status = ExecutionLaneStatus.idle; guard = []; lane_states = all_idle }

-- The arguments of `prepareExecution`, with the time at which the guard records.
pub record Preparation : Type 0 where
  pub ctx : ExecutionContext
  pub estimated_gas : ℕ
  pub base_fee : ℕ
  pub priority_fee : ℕ
  pub nonce : ℕ
  pub now : ℕ

-- The state when the transaction is built: the guard has the execution as QUEUED.
abbrev pub queue : Preparation → ExecutionOrchestrator → ExecutionOrchestrator
queue p s = record s {
  guard = record_status s.guard p.ctx.execution_id RecordStatus.queued none p.now;
}

abbrev pub begin : ExecutionOrchestrator → ExecutionOrchestrator
begin s = record s {
  status = ExecutionLaneStatus.preparing;
  lane_states = record (s.lane_states) { ctl = LaneState.running; sft = LaneState.running };
}

-- A thrown error leaves what was assigned before it.
unfoldable pub prepare_execution :
    Viem
    → OrchestratorConfig
    → Preparation
    → ExecutionOrchestrator
    → Result TransactionRequest × ExecutionOrchestrator
prepare_execution viem config p s = elim (assert_not_in_flight s.guard p.ctx.execution_id) [
  | err e ↦ (err e, begin s)
  | ok _ ↦
      let queued = queue p (begin s) in
      elim (build_execute_batch_tx_legacy viem config.engine_address config.chain_id
        p.ctx.contract_id p.ctx.execution_id p.ctx.obligation p.nonce) [
          | err e ↦ (err e, queued)
          | ok (refused code) ↦ (
            err (error build_error),
            record queued {
              status = ExecutionLaneStatus.failed;
              lane_states = record (queued.lane_states) { txb = LaneState.failed };
            },
          )
          | ok (built tx) ↦ (
            ok (enrich_with_gas tx p.estimated_gas p.base_fee p.priority_fee default_gas_strategy),
            record queued {
              status = ExecutionLaneStatus.authorizing;
              lane_states = record (queued.lane_states) {
                txb = LaneState.completed;
                sft = LaneState.completed;
                ctl = LaneState.completed;
              };
            },
          )
        ]
]

unfoldable pub mark_submitted : Text → Text → ℕ → ExecutionOrchestrator → ExecutionOrchestrator
mark_submitted execution_id tx_hash now s = record {
  status = ExecutionLaneStatus.mempool;
  guard = record_status s.guard execution_id RecordStatus.submitted (some tx_hash) now;
  lane_states = record (s.lane_states) { net = LaneState.completed };
}

-- What `trackConfirmations` stores, by the status of the tracker.
unfoldable pub note_confirmation :
    ConfirmationStatus → Text → Text → ℕ → ExecutionOrchestrator → ExecutionOrchestrator
note_confirmation confirmed execution_id tx_hash now s = record {
  status = ExecutionLaneStatus.finalized;
  guard = record_status s.guard execution_id RecordStatus.finalized (some tx_hash) now;
  lane_states = record (s.lane_states) { fin = LaneState.completed };
}
note_confirmation pending execution_id tx_hash now s = record s {
  status = ExecutionLaneStatus.confirming;
  guard = record_status s.guard execution_id RecordStatus.confirming (some tx_hash) now;
}
note_confirmation _ execution_id tx_hash now s = record s {
  status = ExecutionLaneStatus.failed;
  lane_states = record (s.lane_states) { fin = LaneState.failed };
}

unfoldable pub track_confirmations :
    Text
    → Text
    → ℕ
    → ℕ
    → Option Receipt
    → ℕ
    → ExecutionOrchestrator
    → ConfirmationTracker × ExecutionOrchestrator
track_confirmations execution_id tx_hash submitted_at_block current_block receipt now s =
    let updated =
      update_confirmation (create_tracker tx_hash submitted_at_block confirmation_depth)
        current_block receipt in
    (updated, note_confirmation updated.status execution_id tx_hash now s)

-- The request that stands in for a missing one.
abbrev pub default_request : Text → Obligation → ExecutionRequest
default_request contract_id obligation = record {
  contract_id = contract_id;
  current_state = triggered;
  obligation_hash = zero_hash;
  oracle_snapshot_hash = one_hash;
  zk_proof = record { proof = codes "0x01"; input_hash = one_hash; output_commitment = one_hash };
  dispute_deadline = pos 0;
  active_challenge = false;
  obligations = obligation ∷ [];
  eip712_signatures = placeholder_signature ∷ [];
}

unfoldable pub create_execution_context :
    Text → Text → Obligation → Option ExecutionRequest → Option ℕ → ℕ → ExecutionContext
create_execution_context execution_id contract_id obligation request deadline_ms now = record {
  execution_id = execution_id;
  contract_id = contract_id;
  request = or_else request (default_request contract_id obligation);
  obligation = obligation;
  created_at = now;
  deadline = now + or_else deadline_ms 86_400_000;
  lane_states = all_idle;
}
