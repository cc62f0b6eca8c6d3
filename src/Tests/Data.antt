-- ===== src/Tests/Data.antt =====
-- The test data: short texts in place of hashes and addresses.
use creation_of_energy_token.Prelude.{zero, suc, true, false, [], ◌∷◌, none, some, Text, codes}
use creation_of_energy_token.Prelude.Int.{pos}
use creation_of_energy_token.Engine.Types.{
  triggered, Obligation, ExecutionRequest, TransactionRequest, all_idle, ExecutionLaneStatus, ok,
  err, error, external,
}
use creation_of_energy_token.Engine.External.{Viem, Network}
use creation_of_energy_token.Engine.Auth.{ThresholdConfig}
use creation_of_energy_token.Engine.SafeAuth.{SafeAuthConfig}
use creation_of_energy_token.Engine.Submitter.{simulation, live, Submitter}
use creation_of_energy_token.Engine.Runner.State.{basic, Setup, Runner, Outside, GasArgs, L5Ack}
use creation_of_energy_token.Engine.Runner.Once.{Call}

-- Hashing changes nothing, calldata is the batch's id, and a signature is its signer's address.
abbrev pub test_viem : Viem
test_viem = record {
  keccak256 = λ x. x;
  encode_packed = λ a b n. ok a;
  encode_obligations = λ os. ok (codes "h");
  encode_execute_batch = λ call. ok call.batch_id;
  encode_execute_batch_via_safe = λ call. ok call.batch_id;
  recover_signer = λ d m s. ok s;
}

abbrev pub test_obligation : Obligation
test_obligation = record {
  token = codes "t";
  partition = codes "p";
  to = codes "a";
  value = pos 5;
  call_data = codes "0x";
  reversible = true;
}

abbrev pub test_request : ExecutionRequest
test_request = record {
  contract_id = codes "c";
  current_state = triggered;
  obligation_hash = codes "h";
  oracle_snapshot_hash = codes "o";
  zk_proof = record { proof = codes "0x1"; input_hash = codes "i"; output_commitment = codes "j" };
  dispute_deadline = pos 0;
  active_challenge = false;
  obligations = test_obligation ∷ [];
  eip712_signatures = codes "a" ∷ codes "b" ∷ [];
}

-- A second execution, that carries too few signatures.
abbrev pub unsigned_request : ExecutionRequest
unsigned_request = record test_request { contract_id = codes "d"; eip712_signatures = [] }

abbrev pub test_id : Text
test_id = codes "c"

abbrev pub two_of_three : ThresholdConfig
two_of_three = record { m = 2; n = 3 }

abbrev pub test_setup : Setup
test_setup = record {
  config = record {
    engine_address = codes "e";
    chain_id = pos 42_161;
    relayer_address = codes "r";
    auth = some two_of_three;
    safe_auth = none;
    submit_mode = simulation;
    has_account = false;
    safe_executor = none;
  };
  gate = basic two_of_three;
  submitter = record { mode = simulation; has_account = false; has_public_client = false };
}

-- A wallet that refuses the first attempt.
abbrev pub test_network : Network
test_network = record {
  simulated_hash = λ to call_data nonce retry. call_data;
  send_transaction =
      λ retry tx. elim retry [ zero ↦ err (error (external [])) | suc n ↦ ok (codes "x") ];
  block_number = λ retry. ok 70;
}

abbrev pub test_ack : L5Ack
test_ack = record {
  acknowledged = true;
  proof_ids = codes "q" ∷ [];
  regulatory_report_cid = codes "g";
}

abbrev pub test_outside : Outside
test_outside = record {
  started_at = 1000;
  queued_at = 1001;
  submitted_at = 1002;
  finalized_at = 1003;
  attempted_at = 1004;
  get_threshold = ok 2;
  get_owners = ok (codes "A" ∷ codes "B" ∷ codes "C" ∷ []);
  transaction_count = ok 0;
  network = test_network;
  receipt_success = ok true;
  l5 = λ r. ok test_ack;
}

abbrev pub test_gas : GasArgs
test_gas = record { estimated_gas = 100_000; base_fee = 30; priority_fee = 2 }

abbrev pub fresh_runner : Runner
fresh_runner = record {
  status = ExecutionLaneStatus.idle;
  guard = [];
  breaker = record { is_open = false; window_start = 0; attempts = 0; failures = 0 };
  nonces = [];
  lane_states = all_idle;
  sent = [];
  handed_over = [];
}

abbrev pub test_call : Call
test_call = record { out = test_outside; request = test_request; gas = test_gas }

abbrev pub live_submitter : Submitter
live_submitter = record { mode = live; has_account = true; has_public_client = true }

abbrev pub test_tx : TransactionRequest
test_tx = record {
  to = codes "e";
  value = pos 0;
  call_data = codes "c";
  gas_limit = 125_000;
  max_fee_per_gas = 400;
  max_priority_fee_per_gas = 100;
  nonce = 3;
  chain_id = pos 42_161;
}

abbrev pub safe_config : SafeAuthConfig
safe_config = record { chain_id = pos 42_161; verifying_contract = codes "e" }
