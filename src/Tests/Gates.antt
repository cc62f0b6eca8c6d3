-- ===== src/Tests/Gates.antt =====
-- The gates of the engine, and layer 3's requests, at the test request.
use creation_of_energy_token.Prelude.{
  ◌≤◌, ◌<◌, ◌≡◌, ◌↔◌, refl, false, List, [], ◌∷◌, none, some, Text, text_Eq, codes, length,
}
use creation_of_energy_token.Prelude.Equality.{text_eq}
use creation_of_energy_token.Prelude.Sets.{Distinct, Within}
use creation_of_energy_token.Prelude.Int.{pos}
use creation_of_energy_token.Engine.Types.{
  triggered, ExecutionRequest, FailureReport, Lane, arbitration, obligation_hash_mismatch, ok,
}
use creation_of_energy_token.Engine.Auth
use creation_of_energy_token.Engine.Auth.Laws.{prefixes, validate_iff}
use creation_of_energy_token.Engine.SafeAuth
use creation_of_energy_token.Engine.SafeAuth.Laws.{IsAuthorized, validate-IsAuthorized_iff}
use creation_of_energy_token.Engine.Handoff.{
  failure, check_hash, compute_obligation_hash, validate_l3_request, bind_handoff,
  default_dispute_deadline,
}
use creation_of_energy_token.Engine.Handoff.Laws.{IsAdmissible, validate_l3_request_iff}
use creation_of_energy_token.L3.{
  SuiMintAttestation, sui_attestation_to_execution_request, attested_proof, attested_obligation,
  L3FsmState, trigger, RequestParams, build_execution_request,
}
use creation_of_energy_token.L3.Laws.{Reachable, start, next, trigger_ok}
use creation_of_energy_token.Tests.Data.{
  test_viem, test_obligation, test_request, test_id, two_of_three, safe_config,
}

validate-IsAuthorized_iff_example :
    (SafeAuth.validate test_viem safe_config
        (ok 1)
        (ok (codes "A" ∷ codes "B" ∷ []))
        test_request
        test_id
      ≡ ok tt)
    ↔ IsAuthorized test_viem safe_config
        (ok 1)
        (ok (codes "A" ∷ codes "B" ∷ []))
        test_request
        test_id
validate-IsAuthorized_iff_example =
    validate-IsAuthorized_iff test_viem safe_config (ok 1) (ok (codes "A" ∷ codes "B" ∷ []))
      test_request test_id

validate_iff_example : (Auth.validate two_of_three test_request test_id ≡ ok tt) ↔ (
    ((signers : List Text) × Distinct signers
      × Within (prefixes test_request) signers
      × (2 ≤ length signers))
    × (2 < length test_request.zk_proof.proof))
validate_iff_example = validate_iff two_of_three test_request test_id

validate_l3_request_iff_example :
    (validate_l3_request test_viem test_request (pos 1) ≡ ok none)
    ↔ IsAdmissible test_viem test_request (pos 1)
validate_l3_request_iff_example = validate_l3_request_iff test_viem test_request (pos 1)

abbrev forged_request : ExecutionRequest
forged_request = record test_request { obligation_hash = codes "z" }

abbrev forged_report : FailureReport
forged_report = failure test_id Lane.ctl 4042 false arbitration obligation_hash_mismatch

forged-reported : validate_l3_request test_viem forged_request (pos 1) ≡ ok (some forged_report)
unfolding validate_l3_request check_hash compute_obligation_hash text_eq
forged-reported = refl

abbrev bound_request : ExecutionRequest
bound_request = record test_request { dispute_deadline = pos 3599 }

test-bound :
    bind_handoff test_viem test_id
      (test_obligation ∷ [])
      test_request.zk_proof
      (codes "o")
      triggered
      (default_dispute_deadline (pos 90_000))
      test_request.eip712_signatures
    ≡ ok bound_request
unfolding bind_handoff compute_obligation_hash default_dispute_deadline
test-bound = refl

abbrev test_params : RequestParams
test_params = record {
  contract_id = test_id;
  obligations = test_obligation ∷ [];
  zk_proof = test_request.zk_proof;
  oracle_snapshot_hash = codes "o";
  signatures = test_request.eip712_signatures;
  now_sec = none;
  dispute_deadline = none;
}

test-requested :
    build_execution_request test_viem (pos 90_000) test_params L3FsmState.triggered
    ≡ ok bound_request
unfolding build_execution_request
test-requested = test-bound

triggered-Reachable : Reachable L3FsmState.triggered
unfolding trigger
triggered-Reachable =
    next L3FsmState.monitoring L3FsmState.triggered start
      (trigger_ok L3FsmState.monitoring L3FsmState.triggered refl)

-- An attestation without a signature.
abbrev test_attestation : SuiMintAttestation
test_attestation = record {
  meter_id = codes "m";
  kwh = pos 7;
  timestamp_ms = pos 1;
  producer_address = codes "a";
  energy_token_address = codes "t";
  oracle_snapshot_hash = codes "o";
  secp256k1_sig = codes "0x";
}

abbrev attested_request : ExecutionRequest
attested_request = record {
  contract_id = test_id;
  current_state = triggered;
  obligation_hash = codes "h";
  oracle_snapshot_hash = codes "o";
  zk_proof = attested_proof test_attestation;
  dispute_deadline = pos 3599;
  active_challenge = false;
  obligations = attested_obligation test_attestation ∷ [];
  eip712_signatures = [];
}

test-attested :
    sui_attestation_to_execution_request test_viem (pos 90_000) test_id test_attestation []
    ≡ ok attested_request
unfolding sui_attestation_to_execution_request bind_handoff compute_obligation_hash
    default_dispute_deadline
test-attested = refl
