-- ===== src/Tests/Site.antt =====
-- The data of the tests of the settlement service: no variable is set, so that its PTB client is a
-- stub, and each callee answers.
use creation_of_energy_token.Prelude.{true, [], ◌++◌, none, some, Text, codes, replicate}
use creation_of_energy_token.Prelude.Int.{pos}
use creation_of_energy_token.Engine.Types.{ExecutionResult, ok}
use creation_of_energy_token.Settlement.Types.{Failure, done}
use creation_of_energy_token.Settlement.Manifest.{NetworkManifest}
use creation_of_energy_token.Settlement.Planner.{Site, PlanInputs}
use creation_of_energy_token.Settlement.Service.{ProcessInputs, no_options}
use creation_of_energy_token.Settlement.Service.Laws.{Request}

-- An object id of 64 digits.
abbrev pub test_object : Text
test_object = codes "0x" ++ replicate 64 b'1'

abbrev pub test_manifest : NetworkManifest
test_manifest = record {
  network = codes "testnet";
  rpc_url = codes "u";
  contracts = record {
    native_usdc_package = test_object;
    native_usdc_type = codes "t";
    wormhole_package = test_object;
    wormhole_state_object = test_object;
    pyth_package = test_object;
    pyth_state_object = test_object;
  };
  wormhole_scan = codes "w";
  pyth_hermes = codes "https://hermes-beta.pyth.network";
  circle_api = codes "c";
}

abbrev pub test_site : Site
test_site = record {
  env = λ key. none;
  config = record {
    package_id = codes "0x0";
    l3_grid_package_id = none;
    network = codes "testnet";
    rpc_url = none;
    signer_secret_key = none;
    objects = none;
    stub = some true;
  };
  read_manifest = λ file. done test_manifest;
  formats = record { iso_string = λ t. ok (codes "2026-01-01T00"); bigint_text = λ n. codes "1" };
  sui = record {
    utf8 = λ t. t;
    dev_inspect = λ tx sender. done (record { status = none; gas = none });
    sign_and_execute = λ tx. done (codes "d");
  };
}

abbrev pub test_planning : PlanInputs
test_planning = record {
  issued_at = 1;
  erp_answer = none;
  trace_id = codes "u";
  emitted_at = 2;
  burned_at = 3;
}

abbrev pub test_inputs : ProcessInputs
test_inputs = record {
  archived = done (codes "q");
  reported = done (codes "g");
  audited_at = 4;
  period_end = 5;
  planning = test_planning;
}

abbrev pub test_result : ExecutionResult
test_result = record {
  contract_id = codes "c";
  execution_id = codes "0xab";
  tx_hash = codes "x";
  execution_block = 1;
  confirmation_block = 13;
  settled = true;
  rollback_reason = [];
  proof_ids = [];
  regulatory_report_cid = [];
  gas_used = pos 0;
}

abbrev pub test_process : Request
test_process = record { inputs = test_inputs; result = test_result; options = no_options }

abbrev pub describe : Failure → Text
describe e = codes "failed"
