-- ===== src/Tests/Runs.antt =====
-- Runs of the test request in simulation mode.
use creation_of_energy_token.Prelude.{◌≡◌, refl, [], ◌∷◌, some, codes, arith}
use creation_of_energy_token.Engine.Types.{RecordStatus, ok}
use creation_of_energy_token.Prelude.Equality.{text_eq}
use creation_of_energy_token.Prelude.Dict.{get}
use creation_of_energy_token.Prelude.Sets.{unique, add_all}
use creation_of_energy_token.Engine.Auth
use creation_of_energy_token.Engine.Handoff.{
  validate_l3_request, check_hash, compute_obligation_hash, compute_execution_id,
}
use creation_of_energy_token.Engine.Idempotency.{assert_not_in_flight, record_status}
use creation_of_energy_token.Engine.Runner.{finalized, PipelineRunOutcome, run}
use creation_of_energy_token.Engine.Runner.State.{Runner}
use creation_of_energy_token.Engine.Runner.Phases.{authorize}
use creation_of_energy_token.Engine.Runner.Effects.{IsAdmitted}
use creation_of_energy_token.Engine.Runner.Ending.{run_id}
use creation_of_energy_token.Engine.Runner.Guarding.{IsBlocked, record-IsBlocked_self}
use creation_of_energy_token.Engine.Runner.Outcome.{
  HadNoEffect, IsFinalized, run_not_admitted, run-IsFinalized,
}
use creation_of_energy_token.Engine.Runner.Simulated.{IsReady, run-finalizes}
use creation_of_energy_token.Engine.Runner.Once.{HandedOnce, run_all, run_all-HandedOnce}
use creation_of_energy_token.Engine.Runner.Resending.{sent_for, run_all-sent_for}
use creation_of_energy_token.Tests.Data.{
  test_viem, test_setup, test_outside, test_request, unsigned_request, test_gas, test_id,
  fresh_runner, test_call, test_tx, test_ack,
}

test-id : run_id test_viem test_request ≡ ok test_id
unfolding compute_execution_id
test-id = refl

test-IsAdmitted : IsAdmitted test_viem test_setup test_outside test_request test_id fresh_runner
unfolding assert_not_in_flight validate_l3_request check_hash compute_obligation_hash authorize
    Auth.validate get text_eq unique add_all
test-IsAdmitted = record { closed = refl; fresh = refl; gates = refl; signed = refl }

fresh-HandedOnce : HandedOnce fresh_runner
fresh-HandedOnce = record { distinct = tt; blocked = tt }

test-IsReady : IsReady test_viem test_setup test_outside test_request test_gas test_id
test-IsReady = record {
  mode = refl;
  net_mode = refl;
  obligations = λ e. ground arith;
  chain_id = λ h. ground arith;
  call_data = test_id;
  encodes = refl;
  ack = test_ack;
  acknowledged = refl;
  answers = λ r. refl;
}

run_all-HandedOnce_example :
    HandedOnce (run_all test_viem test_setup (test_call ∷ test_call ∷ []) fresh_runner)
run_all-HandedOnce_example =
    run_all-HandedOnce test_viem test_setup (test_call ∷ test_call ∷ []) fresh_runner
      fresh-HandedOnce

run-finalizes_example :
    (outcome : PipelineRunOutcome) × ((run test_viem test_setup test_outside test_request test_gas
        fresh_runner).0
      ≡ ok outcome)
    × (outcome.status ≡ finalized)
run-finalizes_example =
    run-finalizes test_viem test_setup test_outside test_request test_gas test_id fresh_runner
      test-id test-IsReady test-IsAdmitted

-- The same run, for the theorem on finalized outcomes.
test-finalizes :
    (outcome : PipelineRunOutcome) × ((run test_viem test_setup test_outside test_request test_gas
        fresh_runner).0
      ≡ ok outcome)
    × (outcome.status ≡ finalized)
test-finalizes =
    run-finalizes test_viem test_setup test_outside test_request test_gas test_id fresh_runner
      test-id test-IsReady test-IsAdmitted

run-IsFinalized_example :
    IsFinalized test_viem test_setup test_outside test_request test_gas test_id fresh_runner
      (run test_viem test_setup test_outside test_request test_gas fresh_runner).1
      test-finalizes.0
run-IsFinalized_example =
    run-IsFinalized test_viem test_setup test_outside test_request test_gas test_id fresh_runner
      test-finalizes.0 test-id test-finalizes.1 test-finalizes.2

unsigned-id : run_id test_viem unsigned_request ≡ ok (codes "d")
unfolding compute_execution_id
unsigned-id = refl

not-IsAdmitted :
    IsAdmitted test_viem test_setup test_outside unsigned_request (codes "d") fresh_runner → ⊥
unfolding authorize Auth.validate
not-IsAdmitted a = ground (arith, a.signed)

run_not_admitted_example :
    HadNoEffect test_viem test_setup test_outside unsigned_request test_gas
      (codes "d")
      fresh_runner
      (run test_viem test_setup test_outside unsigned_request test_gas fresh_runner)
run_not_admitted_example =
    run_not_admitted test_viem test_setup test_outside unsigned_request test_gas (codes "d")
      fresh_runner unsigned-id not-IsAdmitted

-- A runner that has submitted the test request.
abbrev sent_runner : Runner
sent_runner = record fresh_runner {
  guard = record_status [] test_id RecordStatus.submitted (some (codes "x")) 1002;
  sent = (test_id, test_tx) ∷ [];
}

sent-IsBlocked : IsBlocked sent_runner.guard test_id
sent-IsBlocked =
    record-IsBlocked_self [] test_id RecordStatus.submitted (some (codes "x")) 1002 refl

run_all-sent_for_example :
    IsBlocked (run_all test_viem test_setup (test_call ∷ []) sent_runner).guard test_id
    × (sent_for test_id (run_all test_viem test_setup (test_call ∷ []) sent_runner).sent
        ≡ sent_for test_id ((test_id, test_tx) ∷ []))
run_all-sent_for_example =
    run_all-sent_for test_viem test_setup (test_call ∷ []) test_id sent_runner sent-IsBlocked
