-- ===== src/Tests/Interleaving.antt =====
-- Turns of runs at concrete inputs, and two runs of one execution that overlap.
use creation_of_energy_token.Prelude.Int.{◌-ℤ◌}
use creation_of_energy_token.Engine.SafeAuth.{
  auth_domain, build_execution_auth_message, collect_signers, to_lower_case,
}
use creation_of_energy_token.Engine.Runner.Turns
use creation_of_energy_token.Engine.Nonce
use creation_of_energy_token.Engine.Gas.{apply_gas_buffer, compute_eip1559_fees, enrich_with_gas}
use creation_of_energy_token.Engine.Confirmation.{
  await_confirmations, create_tracker, update_confirmation,
}
use creation_of_energy_token.Engine.Submitter
use creation_of_energy_token.Engine.Submitter.{submit_with_retry, submit_from, bump_fees}
use creation_of_energy_token.Engine.Builder.{
  build_execute_batch_tx, build_execute_batch_via_safe_calldata, lifecycle_to_uint8, map_obligation,
  request_tuple,
}
use creation_of_energy_token.Engine.SafeAuth
use creation_of_energy_token.Engine.Auth
use creation_of_energy_token.Engine.Runner.Phases.{
  authorize, build_call, partial_result, submit_to_network,
}
use creation_of_energy_token.Prelude.Dict.{get, set}
use creation_of_energy_token.Engine.Idempotency.{assert_not_in_flight, record_status}
use creation_of_energy_token.Engine.Breaker.{
  assert_closed, count_attempt, open_on_failures, open_on_rate, record_attempt, roll_window,
}
use creation_of_energy_token.Prelude.{◌≡◌, refl, [], ◌∷◌, Text, text_Eq, codes, includes, true}
use creation_of_energy_token.Prelude.Equality.{text_eq}
use creation_of_energy_token.Prelude.Sets.{Distinct, unique, add_all}
use creation_of_energy_token.Engine.Handoff.{
  compute_execution_id, validate_l3_request, check_hash, compute_obligation_hash,
}
use creation_of_energy_token.Engine.Runner.{conclude, fail, report_of}
use creation_of_energy_token.Engine.Runner.Guarding.{IsBlocked}
use creation_of_energy_token.Engine.Runner.Once.{handed_ids}
use creation_of_energy_token.Engine.Runner.Turns.{
  Job, started, ended, turn, after_confirmations, after_l5, after_network, after_receipt,
  after_signatures, begin, build_and_queue, next_nonce, settle_turn,
}
use creation_of_energy_token.Engine.Runner.Turns.Pool.{
  System, launch, resumed, resume_at, Reach, here, next, call, resume,
}
use creation_of_energy_token.Engine.Runner.Turns.Interleaved.{Reach-Distinct}
use creation_of_energy_token.Tests.Data.{
  test_viem, test_setup, test_outside, test_request, unsigned_request, test_gas, test_id,
  fresh_runner,
}

abbrev test_job : Job
test_job = record { out = test_outside; request = test_request; id = test_id; gas = test_gas }

abbrev other_job : Job
other_job = record test_job { request = unsigned_request; id = codes "d" }

abbrev idle : System
idle = record { runner = fresh_runner; pool = [] }

-- A run of each of two executions; the first then takes its next turn.
abbrev both : System
both =
    resumed test_viem test_setup 1
      (launch test_viem test_setup other_job (launch test_viem test_setup test_job idle))

both-Reach : Reach test_viem test_setup idle both
unfolding compute_execution_id launch text_eq
both-Reach = next (next (next here (call test_job refl refl)) (call other_job refl refl)) (resume 1)

Reach-Distinct_example :
    Distinct (handed_ids both.runner)
    × ((x : Text) → includes (handed_ids both.runner) x ≡ true → IsBlocked both.runner.guard x)
Reach-Distinct_example =
    Reach-Distinct test_viem test_setup (record { distinct = tt; blocked = tt }) both-Reach

-- A second run of the execution is called while the first waits for the network; each then takes
-- two more turns.
abbrev overlapping : System
overlapping =
    let later = resumed test_viem test_setup in
    later 1 (
      later 0 (
        later 1 (
          later 0
            (launch test_viem test_setup test_job (launch test_viem test_setup test_job idle)))))

-- The execution is handed to layer 5 twice.
test-overlapping : handed_ids overlapping.runner ≡ test_id ∷ test_id ∷ []
unfolding assert_closed assert_not_in_flight get validate_l3_request check_hash
    compute_obligation_hash authorize Auth.validate SafeAuth.validate unique add_all build_call
    build_execute_batch_tx submit_with_retry submit_from Submitter.submit count_attempt
    open_on_failures open_on_rate record_attempt roll_window build_execute_batch_via_safe_calldata
    lifecycle_to_uint8 map_obligation request_tuple await_confirmations create_tracker
    update_confirmation apply_gas_buffer compute_eip1559_fees enrich_with_gas record_status
    Nonce.next partial_result submit_to_network after_confirmations after_l5 after_network
    after_receipt after_signatures begin build_and_queue next_nonce Turns.resume settle_turn
    conclude fail report_of auth_domain build_execution_auth_message collect_signers to_lower_case
    bump_fees set ◌-ℤ◌ text_eq resume_at launch turn
test-overlapping = refl
