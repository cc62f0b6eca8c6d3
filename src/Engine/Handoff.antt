-- ===== src/Engine/Handoff.antt =====
-- layer4/engine/src/l3Handoff.ts: what layer 3 hands over, and the gates that it must pass.
pub mod Laws
use creation_of_energy_token.Prelude.{
  ℕ, Bool, true, false, ◌||◌, List, Option, none, some, Text, codes, text_Eq, ◌===◌, length, leb,
}
use creation_of_energy_token.Prelude.Int.{ℤ, pos, ◌-ℤ◌, ltb_ℤ}
use creation_of_energy_token.Engine.Types.{
  Lane, LifecycleState, triggered, arbitration_resolved, other, Obligation, ZkProof,
  ExecutionRequest, FailureReport, SuggestedState, monitoring, disputing, arbitration, Message,
  invalid_fsm_state, missing_zk_proof, active_challenge, dispute_window_open,
  obligation_hash_mismatch, dispute_window_seconds, Result, ok, ◌>>=◌,
}
use creation_of_energy_token.Engine.External.{Viem}

unfoldable pub compute_execution_id : Viem → Text → Text → ℤ → Result Text
compute_execution_id viem contract_id obligation_hash nonce = do
  packed ← viem.encode_packed contract_id obligation_hash nonce
  ok (viem.keccak256 packed)

unfoldable pub compute_obligation_hash : Viem → List Obligation → Result Text
compute_obligation_hash viem obligations = do
  encoded ← viem.encode_obligations obligations
  ok (viem.keccak256 encoded)

abbrev pub failure : Text → Lane → ℕ → Bool → SuggestedState → Message → FailureReport
failure execution_id lane error_code recoverable suggested message = record {
  execution_id = execution_id;
  lane = lane;
  error_code = error_code;
  recoverable = recoverable;
  suggested_l3_state = suggested;
  message = message;
}

abbrev pub is_executable : LifecycleState → Bool
is_executable triggered = true
is_executable arbitration_resolved = true
is_executable (other _) = false

-- The checks behind the four that read no hash.
unfoldable pub check_hash : Viem → ExecutionRequest → Result (Option FailureReport)
check_hash viem request = do
  hash ← compute_obligation_hash viem request.obligations
  ok (elim (hash === request.obligation_hash) [
    | true ↦ none
    | false ↦
        some (failure request.contract_id Lane.ctl 4042 false arbitration obligation_hash_mismatch)
  ])

unfoldable pub validate_l3_request : Viem → ExecutionRequest → ℤ → Result (Option FailureReport)
validate_l3_request viem request now_sec =
    let exec_ref = request.contract_id in
    let proof = request.zk_proof.proof in
    elim (is_executable request.current_state) [
      | false ↦ ok (some (failure exec_ref Lane.ctl 4001 false monitoring invalid_fsm_state))
      | true ↦ elim (proof === codes "0x" || leb (length proof) 2) [
        | true ↦ ok (some (failure exec_ref Lane.ctl 4010 true monitoring missing_zk_proof))
        | false ↦ elim request.active_challenge [
          | true ↦ ok (some (failure exec_ref Lane.ctl 4021 false disputing active_challenge))
          | false ↦ elim (ltb_ℤ now_sec request.dispute_deadline) [
            | true ↦ ok (some (failure exec_ref Lane.auth 1103 true monitoring dispute_window_open))
            | false ↦ check_hash viem request
          ]
        ]
      ]
    ]

unfoldable pub bind_handoff :
    Viem
    → Text
    → List Obligation
    → ZkProof
    → Text
    → LifecycleState
    → ℤ
    → List Text
    → Result ExecutionRequest
bind_handoff viem contract_id obligations zk_proof oracle_snapshot_hash state deadline sigs = do
  obligation_hash ← compute_obligation_hash viem obligations
  ok (record {
    contract_id = contract_id;
    current_state = state;
    obligation_hash = obligation_hash;
    oracle_snapshot_hash = oracle_snapshot_hash;
    zk_proof = zk_proof;
    dispute_deadline = deadline;
    active_challenge = false;
    obligations = obligations;
    eip712_signatures = sigs;
  })

unfoldable pub default_dispute_deadline : ℤ → ℤ
unfolding ◌-ℤ◌
default_dispute_deadline now_sec = now_sec -ℤ pos dispute_window_seconds -ℤ pos 1
