-- ===== src/Tests/Steps.antt =====
-- The idempotency guard and the orchestrator at concrete inputs.
use creation_of_energy_token.Prelude.{
  ◌≤◌, ◌≡◌, refl, false, List, [], ◌∷◌, none, some, text_Eq, codes,
}
use creation_of_energy_token.Prelude.Equality.{text_eq}
use creation_of_energy_token.Prelude.Dict.{get}
use creation_of_energy_token.Prelude.Int.{pos}
use creation_of_energy_token.Engine.Types.{
  RecordStatus, max_gas_limit, TransactionRequest, ok, err, Exn, all_idle,
}
use creation_of_energy_token.Engine.Idempotency.{ExecutionRecord, check, assert_not_in_flight}
use creation_of_energy_token.Engine.Idempotency.Laws.{blocks, status_of}
use creation_of_energy_token.Engine.Gas.{enrich_with_gas}
use creation_of_energy_token.Engine.Builder.{
  bare_tx, build_execute_batch_tx, build_execute_batch_tx_legacy,
}
use creation_of_energy_token.Engine.Orchestrator.{
  new_orchestrator, OrchestratorConfig, Preparation, prepare_execution, mark_submitted,
  default_request,
}
use creation_of_energy_token.Engine.Orchestrator.Laws.{
  Call, track, apply_calls, mark_submitted-then-prepare, prepare_execution-ok,
}
use creation_of_energy_token.Tests.Data.{test_viem, test_obligation, test_id}

abbrev old_record : ExecutionRecord
old_record = record {
  execution_id = test_id;
  status = RecordStatus.submitted;
  tx_hash = some (codes "x");
  created_at = 5;
  updated_at = 6;
}

old-checked : check ((test_id, old_record) ∷ []) test_id ≡ some old_record
unfolding check get text_eq
old-checked = refl

abbrev test_orchestrator : OrchestratorConfig
test_orchestrator = record { engine_address = codes "e"; chain_id = pos 42_161 }

abbrev test_preparation : Preparation
test_preparation = record {
  ctx = record {
    execution_id = test_id;
    contract_id = codes "k";
    request = default_request (codes "k") test_obligation;
    obligation = test_obligation;
    created_at = 1;
    deadline = 2;
    lane_states = all_idle;
  };
  estimated_gas = 100_000;
  base_fee = 30;
  priority_fee = 2;
  nonce = 4;
  now = 8;
}

abbrev prepared : TransactionRequest
prepared = record (bare_tx (codes "e") test_id 4 (pos 42_161)) {
  gas_limit = 125_000;
  max_fee_per_gas = 1_000_000_060;
  max_priority_fee_per_gas = 1_000_000_000;
}

test-prepared :
    (prepare_execution test_viem test_orchestrator test_preparation new_orchestrator).0
    ≡ ok prepared
unfolding prepare_execution assert_not_in_flight get build_execute_batch_tx_legacy
    build_execute_batch_tx enrich_with_gas
test-prepared = refl

prepare_execution-ok_example :
    (blocks (status_of new_orchestrator.guard test_id) ≡ false)
    × (status_of
          (prepare_execution test_viem test_orchestrator test_preparation new_orchestrator).1.guard
          test_id
        ≡ some RecordStatus.queued)
    × (prepared.to ≡ codes "e")
    × (prepared.nonce ≡ 4)
    × (prepared.gas_limit ≤ max_gas_limit)
    × (prepared.max_fee_per_gas ≤ 500_000_000_000)
prepare_execution-ok_example =
    prepare_execution-ok test_viem test_orchestrator test_preparation new_orchestrator prepared
      test-prepared

-- Marked as submitted, then found stuck.
abbrev stuck_calls : List Call
stuck_calls = track test_id (codes "x") 10 100 none 9 ∷ []

mark_submitted-then-prepare_example :
    (e : Exn) × ((prepare_execution test_viem test_orchestrator test_preparation (
        apply_calls test_viem test_orchestrator stuck_calls
          (mark_submitted test_id (codes "x") 8 new_orchestrator))).0
      ≡ err e)
mark_submitted-then-prepare_example =
    mark_submitted-then-prepare test_viem test_orchestrator stuck_calls new_orchestrator (codes "x")
      8 test_preparation
