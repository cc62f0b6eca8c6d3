-- ===== src/Tests/Pipelines.antt =====
-- The whole pipeline on the test data, in simulation mode.
use creation_of_energy_token.Pipeline.Settling.Laws.{TookOver, run_settling-TookOver}
use creation_of_energy_token.Engine.Runner.Ending.{run_id}
use creation_of_energy_token.Prelude.{
  ◌≡◌, ◌↔◌, refl, ◌++◌, some, codes, true, none, replicate, [], ◌∷◌, length, ◌+◌,
}
use creation_of_energy_token.Prelude.Equality.{text_eq}
use creation_of_energy_token.Engine.Auth
use creation_of_energy_token.Engine.Nonce
use creation_of_energy_token.Engine.Types.{ok, LaneState}
use creation_of_energy_token.Engine.Runner.{finalized, PipelineRunOutcome}
use creation_of_energy_token.L3.{L3FsmState}
use creation_of_energy_token.Settlement.PtbClient.{ab_repeat}
use creation_of_energy_token.Pipeline.Full.{
  FullInputs, HookInputs, FullPipelineResult, new_service, first_audit,
}
use creation_of_energy_token.Pipeline.Full.Laws.{run_full_pipeline-consistent}
use creation_of_energy_token.Tests.Data.{
  test_viem, test_setup, test_outside, test_obligation, test_request, test_gas, fresh_runner,
  test_id,
}
use creation_of_energy_token.Tests.Site.{test_site, test_inputs, test_planning, describe}
use creation_of_energy_token.Prelude.Dict.{get, set}
use creation_of_energy_token.Prelude.Strings.{
  starts_with, has_part, trim_start, trim_end, trim, trimmed,
}
use creation_of_energy_token.Prelude.Int.{◌+ℤ◌, ◌-ℤ◌, ◌*ℤ◌, quot, pos}
use creation_of_energy_token.Prelude.Sets.{add_all, unique}
use creation_of_energy_token.Engine.Gas.{apply_gas_buffer, compute_eip1559_fees, enrich_with_gas}
use creation_of_energy_token.Engine.Breaker.{
  new_breaker, assert_closed, roll_window, count_attempt, open_on_rate, open_on_failures,
  record_attempt,
}
use creation_of_energy_token.Engine.Confirmation.{
  update_confirmation, create_tracker, await_confirmations,
}
use creation_of_energy_token.Engine.Handoff.{
  compute_execution_id, compute_obligation_hash, check_hash, validate_l3_request, bind_handoff,
  default_dispute_deadline,
}
use creation_of_energy_token.Engine.Idempotency.{check, assert_not_in_flight, record_status}
use creation_of_energy_token.Engine.Submitter.{submit, bump_fees, submit_from, submit_with_retry}
use creation_of_energy_token.Engine.Builder.{
  lifecycle_to_uint8, map_obligation, request_tuple, build_execute_batch_tx,
  build_execute_batch_tx_legacy, build_execute_batch_via_safe_calldata,
}
use creation_of_energy_token.Engine.Runner.{fail, report_of, execute, conclude, run}
use creation_of_energy_token.Engine.Runner.State.{choose_gate, new_runner}
use creation_of_energy_token.Engine.Runner.Phases.{
  authorize, admit, take_nonce, build_call, build_tx, submit_to_network, check_receipt, submit_tx,
  partial_result, ask_l5, finish,
}
use creation_of_energy_token.L3.{
  trigger, resolve_arbitration, build_execution_request, on_execution_success, on_execution_failure,
  register_obligation_hash, sui_attestation_to_execution_request,
}
use creation_of_energy_token.Settlement.Credit.{validate_credit, assert_credit_or_throw}
use creation_of_energy_token.Settlement.Burns.{record_burn, assert_burn_amount}
use creation_of_energy_token.Settlement.Billing.{
  issue_credit_note, reconcile_from, reconcile_burns, append_record, find_by_contract,
  audit_record_from_result,
}
use creation_of_energy_token.Settlement.Reporting.{emit, query}
use creation_of_energy_token.Settlement.Archive.{
  archive, archived, generate_report, get_report, validate_settlement_event_v1,
}
use creation_of_energy_token.Settlement.Grid.{record_response, sync_with_erp}
use creation_of_energy_token.Settlement.Deployment.{
  env_value, required, rpc_by_network, is_stub_package_id, has_published_deployment, load_objects,
  published_rpc_url, load_published_deployment, load_published_deployment_or_stub,
  sui_ptb_config_from_env, resolve_sui_rpc_url, resolve_sui_rpc_headers,
}
use creation_of_energy_token.Settlement.Manifest.{
  load_network_manifest, is_valid_sui_object_id, is_placeholder_object_id, placeholder_errors,
  validate_external_contracts, is_unset, unset_errors, validate_production_env,
  assess_production_readiness,
}
use creation_of_energy_token.Settlement.PtbClient.{
  resolve_targets, resolve_objects, use_stub, build_redeem_transaction, build_redeem_ptb_steps,
  dry_run,
}
use creation_of_energy_token.Settlement.Planner.{
  gas_budget, erp_url, sync_note, check_plan, issue_and_check, plan_redemption, acknowledge,
  process_l4_execution,
}
use creation_of_energy_token.Settlement.Service.{plan_of, settle, process}
use creation_of_energy_token.Pipeline.Settling.{run_settling, Settled}
use creation_of_energy_token.Pipeline.Full.{
  hook_config, plan_sui_redemption_after_l4, l3_after, run_request, run_layers, digest_after,
  run_full_pipeline,
}

abbrev full_inputs : FullInputs
full_inputs = record {
  now_sec = pos 1;
  created_at = 0;
  out = test_outside;
  processing = test_inputs;
  stored = [];
}

abbrev hook_inputs : HookInputs
hook_inputs = record { planning = test_planning; planned_at = 6; submitted_at = 7 }

abbrev full_result : FullPipelineResult
full_result = record {
  l3_state = L3FsmState.settled;
  l4_status = finalized;
  audit_count = 1;
  tx_hash = some (codes "c");
  sui_redemption_digest = some (codes "0x" ++ ab_repeat 32);
}

test-full_run :
    run_full_pipeline test_viem test_site describe test_setup.config
      (codes "c")
      test_obligation
      full_inputs
      hook_inputs
    ≡ ok full_result
unfolding text_eq get set starts_with has_part trim_start trim_end trim trimmed ◌+ℤ◌ ◌-ℤ◌ ◌*ℤ◌ quot
    add_all unique apply_gas_buffer compute_eip1559_fees enrich_with_gas new_breaker assert_closed
    roll_window count_attempt open_on_rate open_on_failures record_attempt update_confirmation
    create_tracker await_confirmations compute_execution_id compute_obligation_hash check_hash
    validate_l3_request bind_handoff default_dispute_deadline check assert_not_in_flight
    record_status submit bump_fees submit_from submit_with_retry lifecycle_to_uint8 map_obligation
    request_tuple build_execute_batch_tx build_execute_batch_tx_legacy
    build_execute_batch_via_safe_calldata fail report_of execute conclude run choose_gate new_runner
    authorize admit take_nonce build_call build_tx submit_to_network check_receipt submit_tx
    partial_result ask_l5 finish trigger resolve_arbitration build_execution_request
    on_execution_success on_execution_failure register_obligation_hash
    sui_attestation_to_execution_request validate_credit assert_credit_or_throw record_burn
    assert_burn_amount issue_credit_note reconcile_from reconcile_burns append_record
    find_by_contract audit_record_from_result emit query archive archived generate_report get_report
    validate_settlement_event_v1 record_response sync_with_erp env_value required rpc_by_network
    is_stub_package_id has_published_deployment load_objects published_rpc_url
    load_published_deployment load_published_deployment_or_stub sui_ptb_config_from_env
    resolve_sui_rpc_url resolve_sui_rpc_headers load_network_manifest is_valid_sui_object_id
    is_placeholder_object_id placeholder_errors validate_external_contracts is_unset unset_errors
    validate_production_env assess_production_readiness resolve_targets resolve_objects use_stub
    build_redeem_transaction build_redeem_ptb_steps dry_run gas_budget erp_url sync_note check_plan
    issue_and_check plan_redemption acknowledge process_l4_execution plan_of settle process
    run_settling hook_config plan_sui_redemption_after_l4 l3_after run_request run_layers
    digest_after run_full_pipeline Auth.validate Nonce.next
test-full_run = refl

run_full_pipeline-consistent_example :
    ((full_result.l3_state ≡ L3FsmState.settled) ↔ (full_result.l4_status ≡ finalized))
    × (full_result.l4_status ≡ finalized
        → full_result.audit_count ≡ length (first_audit test_site.env full_inputs.stored) + 1)
run_full_pipeline-consistent_example =
    run_full_pipeline-consistent test_viem test_site describe test_setup.config (codes "c")
      test_obligation full_inputs hook_inputs full_result test-full_run

abbrev settled_test : Settled
settled_test =
    run_settling test_viem test_setup test_site describe test_outside test_inputs test_request
      test_gas fresh_runner new_service

abbrev test_outcome : PipelineRunOutcome
test_outcome = record {
  status = finalized;
  execution_id = codes "c";
  result = some (record {
    contract_id = codes "c";
    execution_id = codes "c";
    tx_hash = codes "c";
    execution_block = 1_000_000;
    confirmation_block = 1_000_012;
    settled = true;
    rollback_reason = codes "0x" ++ replicate 64 b'0';
    proof_ids = codes "q" ∷ [];
    regulatory_report_cid = codes "g";
    gas_used = pos 100_000;
  });
  failure = none;
  lane_states = record {
    ctl = LaneState.completed;
    txb = LaneState.completed;
    auth = LaneState.completed;
    net = LaneState.completed;
    fin = LaneState.completed;
    sft = LaneState.completed;
  };
}

test-settled : settled_test.outcome ≡ ok test_outcome
unfolding text_eq get set starts_with has_part trim_start trim_end trim trimmed ◌+ℤ◌ ◌-ℤ◌ ◌*ℤ◌ quot
    add_all unique apply_gas_buffer compute_eip1559_fees enrich_with_gas new_breaker assert_closed
    roll_window count_attempt open_on_rate open_on_failures record_attempt update_confirmation
    create_tracker await_confirmations compute_execution_id compute_obligation_hash check_hash
    validate_l3_request bind_handoff default_dispute_deadline check assert_not_in_flight
    record_status submit bump_fees submit_from submit_with_retry lifecycle_to_uint8 map_obligation
    request_tuple build_execute_batch_tx build_execute_batch_tx_legacy
    build_execute_batch_via_safe_calldata fail report_of execute conclude run choose_gate new_runner
    authorize admit take_nonce build_call build_tx submit_to_network check_receipt submit_tx
    partial_result ask_l5 finish trigger resolve_arbitration build_execution_request
    on_execution_success on_execution_failure register_obligation_hash
    sui_attestation_to_execution_request validate_credit assert_credit_or_throw record_burn
    assert_burn_amount issue_credit_note reconcile_from reconcile_burns append_record
    find_by_contract audit_record_from_result emit query archive archived generate_report get_report
    validate_settlement_event_v1 record_response sync_with_erp env_value required rpc_by_network
    is_stub_package_id has_published_deployment load_objects published_rpc_url
    load_published_deployment load_published_deployment_or_stub sui_ptb_config_from_env
    resolve_sui_rpc_url resolve_sui_rpc_headers load_network_manifest is_valid_sui_object_id
    is_placeholder_object_id placeholder_errors validate_external_contracts is_unset unset_errors
    validate_production_env assess_production_readiness resolve_targets resolve_objects use_stub
    build_redeem_transaction build_redeem_ptb_steps dry_run gas_budget erp_url sync_note check_plan
    issue_and_check plan_redemption acknowledge process_l4_execution plan_of settle process
    run_settling hook_config plan_sui_redemption_after_l4 l3_after run_request run_layers
    digest_after run_full_pipeline Auth.validate Nonce.next
test-settled = refl

test-id_of : run_id test_viem test_request ≡ ok test_id
unfolding compute_execution_id
test-id_of = refl

run_settling-TookOver_example :
    TookOver test_viem test_setup test_site describe test_outside test_inputs test_request test_gas
      test_id new_service settled_test.service
run_settling-TookOver_example =
    run_settling-TookOver test_viem test_setup test_site describe test_outside test_inputs
      test_request test_gas test_id fresh_runner new_service test_outcome test-id_of test-settled
      refl
