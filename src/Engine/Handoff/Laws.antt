-- ===== src/Engine/Handoff/Laws.antt =====
-- Which requests of layer 3 pass the gates, and that the requests it builds do.
use creation_of_energy_token.Prelude.{
  ◌<◌, ◌≡◌, ◌↔◌, ◌⊎◌, true, false, List, none, some, Text, codes, text_Eq, text_eq_iff, length,
  arith, inl, inr,
}
use creation_of_energy_token.Prelude.Int.{ℤ, ◌≤ℤ◌, int_laws}
use creation_of_energy_token.Engine.Types.{
  Lane, LifecycleState, Obligation, ZkProof, ExecutionRequest, FailureReport, ok, Result-cases,
  obligation_hash_mismatch, monitoring, disputing, arbitration,
}
use creation_of_energy_token.Engine.External.{Viem}
use creation_of_energy_token.Engine.Handoff.{
  compute_obligation_hash, is_executable, failure, check_hash, validate_l3_request, bind_handoff,
  default_dispute_deadline,
}

-- What a request must satisfy: an executable state, a proof beyond "0x", no open challenge, a
-- dispute window that is over, and the hash of its own obligations.
pub record IsAdmissible (viem : Viem) (request : ExecutionRequest) (now : ℤ) : Type 0 where
  pub state : is_executable request.current_state ≡ true
  pub proof : 2 < length request.zk_proof.proof
  pub unchallenged : request.active_challenge ≡ false
  pub window : request.dispute_deadline ≤ℤ now
  pub hash : compute_obligation_hash viem request.obligations ≡ ok request.obligation_hash

check_hash_iff :
    (viem : Viem) (request : ExecutionRequest)
    → (check_hash viem request ≡ ok none)
      ↔ (compute_obligation_hash viem request.obligations ≡ ok request.obligation_hash)
unfolding check_hash
check_hash_iff viem request =
    elim (Result-cases (compute_obligation_hash viem request.obligations)) [
      | inl (hash, e) ↦ ground (arith, text_eq_iff hash request.obligation_hash)
      | inr (thrown, e) ↦ ground arith
    ]

-- A request passes without a report exactly when it is admissible.
pub validate_l3_request_iff :
    (viem : Viem) (request : ExecutionRequest) (now : ℤ)
    → (validate_l3_request viem request now ≡ ok none) ↔ IsAdmissible viem request now
unfolding validate_l3_request
validate_l3_request_iff viem request now =
    ground (arith, check_hash_iff viem request, text_eq_iff request.zk_proof.proof (codes "0x"))

check_hash_reports :
    (viem : Viem) (request : ExecutionRequest) (r : FailureReport)
    → check_hash viem request ≡ ok (some r)
    → r ≡ failure request.contract_id Lane.ctl 4042 false arbitration obligation_hash_mismatch
unfolding check_hash
check_hash_reports viem request r h = ground arith

-- A report of the gates names the contract, and has one of five codes: 4001, 4010, 4021 and 4042,
-- each with whether it may be repeated and the state advised, and 1103, which may be repeated and
-- is reported only while the dispute window is open.
pub validate_l3_request_reports :
    (viem : Viem) (request : ExecutionRequest) (now : ℤ) (r : FailureReport)
    → validate_l3_request viem request now ≡ ok (some r)
    → (r.execution_id ≡ request.contract_id)
      × (((r.error_code ≡ 4001) × (r.recoverable ≡ false) × (r.suggested_l3_state ≡ monitoring))
          ⊎ ((r.error_code ≡ 4010) × (r.recoverable ≡ true) × (r.suggested_l3_state ≡ monitoring))
          ⊎ ((r.error_code ≡ 4021) × (r.recoverable ≡ false) × (r.suggested_l3_state ≡ disputing))
          ⊎ ((r.error_code ≡ 1103) × (r.recoverable ≡ true) × (¬ (request.dispute_deadline ≤ℤ now)))
          ⊎ ((r.error_code ≡ 4042)
              × (r.recoverable ≡ false)
              × (r.suggested_l3_state ≡ arbitration)))
unfolding validate_l3_request
validate_l3_request_reports viem request now r h = ground (arith, check_hash_reports viem request r)

default_dispute_deadline-le : (built now : ℤ) → built ≤ℤ now → default_dispute_deadline built ≤ℤ now
unfolding default_dispute_deadline
default_dispute_deadline-le built now h = omega int_laws

-- A request that layer 3 builds in an executable state, with a proof beyond "0x" and the default
-- deadline, passes the gates at that time and at every later one.
pub bind_handoff-IsAdmissible :
    (viem : Viem) (contract_id : Text) (obligations : List Obligation) (proof : ZkProof)
    (oracle : Text) (state : LifecycleState) (sigs : List Text) (built now : ℤ)
    {request : ExecutionRequest}
    → bind_handoff viem contract_id obligations proof oracle state
        (default_dispute_deadline built)
        sigs
      ≡ ok request
    → is_executable state ≡ true
    → 2 < length proof.proof
    → built ≤ℤ now
    → validate_l3_request viem request now ≡ ok none
unfolding bind_handoff
bind_handoff-IsAdmissible viem contract_id obligations proof oracle state sigs built now {request} h
      s p t =
    elim (Result-cases (compute_obligation_hash viem obligations)) [
      | inl (hash, e) ↦
          ground
            (arith, validate_l3_request_iff viem request now, default_dispute_deadline-le built now)
      | inr (thrown, e) ↦ ground arith
    ]
