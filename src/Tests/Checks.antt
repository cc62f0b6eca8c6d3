-- ===== src/Tests/Checks.antt =====
-- The gates, the rate limiter, the bridge, the off-ramp and the PTB builders at concrete inputs.
use creation_of_energy_token.Engine.SafeAuth.{to_lower_case}
use creation_of_energy_token.Settlement.Gates.Laws.{run_gate_checklist-loads}
use creation_of_energy_token.Settlement.Gates.{
  World, GateChecklistResult, checklist_of, all_gates, run_gate_checklist, onchain_gates,
  manifest_gates, rpc_gates, publish_gate, missing_keys, settings_gates, ipfs_provider,
  is_bad_contract,
}
use creation_of_energy_token.Prelude.{
  ◌-◌, ◌<◌, min, ◌≡◌, ◌↔◌, refl, true, false, [], ◌∷◌, filter, includes, none, some, Text, text_Eq,
  codes, if◌then◌else◌, All, arith, nat_Eq, or_else,
}
use creation_of_energy_token.Prelude.Equality.{text_eq}
use creation_of_energy_token.Prelude.Dict.{get}
use creation_of_energy_token.Prelude.Sets.{Within, Distinct}
use creation_of_energy_token.Prelude.Int.{pos}
use creation_of_energy_token.Prelude.Strings.{Env, trimmed, trim, trim_start, trim_end, starts_with}
use creation_of_energy_token.Settlement.Types.{is_done, done, callee, threw}
use creation_of_energy_token.Settlement.Deployment.{load_published_deployment}
use creation_of_energy_token.Settlement.Manifest.{
  assess_production_readiness, is_valid_sui_object_id,
}
use creation_of_energy_token.Settlement.Manifest.Laws.{
  SoundManifest, SoundEnv, assess_production_readiness_iff,
}
use creation_of_energy_token.Settlement.Security.{Buckets}
use creation_of_energy_token.Settlement.Security.Laws.{
  accepted_calls, calls_from, check_rate_limit-accepts,
}
use creation_of_energy_token.Settlement.Redeeming.{redemption_id_bytes}
use creation_of_energy_token.Settlement.Redeeming.Laws.{redemption_id_bytes-hex_text}
use creation_of_energy_token.Settlement.Wormhole.Laws.{fresh_sequences, fresh_sequences-Distinct}
use creation_of_energy_token.Settlement.Offramp.{Circle}
use creation_of_energy_token.Settlement.BridgeWorker.{BridgePendingRow, Fetch, Round, poll_rows}
use creation_of_energy_token.Settlement.BridgeWorker.Laws.{confirmed_ids, not_in, poll_rows-keeps}
use creation_of_energy_token.Sdk.Transaction.{new_transaction, used_objects}
use creation_of_energy_token.Sdk.Transaction.Laws.{IsOrdered}
use creation_of_energy_token.Sdk.Layer2.{
  Layer2SharedObjects, MintPtbTargets, VerifyReadingArgs, build_mint_ptb,
  list_required_shared_objects,
}
use creation_of_energy_token.Sdk.Layer2.Laws.{build_mint_ptb-IsOrdered}
use creation_of_energy_token.Tests.Site.{test_manifest, test_object}

abbrev no_env : Env
no_env key = none

assess_production_readiness_iff_example :
    ((assess_production_readiness (codes "mainnet") test_manifest no_env).ready ≡ true)
    ↔ (SoundManifest test_manifest × (codes "mainnet" ≡ codes "mainnet" → SoundEnv no_env))
assess_production_readiness_iff_example =
    assess_production_readiness_iff (codes "mainnet") test_manifest no_env

-- An address with one call left of its two, and another address between its calls.
abbrev test_buckets : Buckets
test_buckets = (codes "i", record { count = 1; reset_at = 100 }) ∷ []

check_rate_limit-accepts_example :
    accepted_calls
      (codes "i")
      2
      ((codes "i", 7) ∷ (codes "j", 200) ∷ (codes "i", 8) ∷ [])
      test_buckets
    ≡ min (calls_from (codes "i") ((codes "i", 7) ∷ (codes "j", 200) ∷ (codes "i", 8) ∷ [])) (2 - 1)
unfolding get text_eq
check_rate_limit-accepts_example =
    check_rate_limit-accepts (codes "i") 2 ((codes "i", 7) ∷ (codes "j", 200) ∷ (codes "i", 8) ∷ [])
      (record { count = 1; reset_at = 100 }) test_buckets refl
      (λ h. omega arith, (λ h. absurd (ground arith), (λ h. omega arith, tt)))

-- The text aBCd writes the bytes 171 and 205.
redemption_id_bytes-hex_text_example :
    (redemption_id_bytes (λ t. t) (codes "0xaBCd") ≡ 171 ∷ 205 ∷ [])
    × (redemption_id_bytes (λ t. t) (codes "aBCd") ≡ 171 ∷ 205 ∷ [])
redemption_id_bytes-hex_text_example =
    redemption_id_bytes-hex_text (λ t. t)
      (record { byte = 171; upper_high = false; upper_low = true })
      (record { byte = 205; upper_high = true; upper_low = false } ∷ [])
      (omega arith, (omega arith, tt))

fresh_sequences-Distinct_example :
    Distinct (fresh_sequences (4 ∷ 3 ∷ 4 ∷ 6 ∷ []) 2)
    × All (λ n. 2 < n) (fresh_sequences (4 ∷ 3 ∷ 4 ∷ 6 ∷ []) 2)
fresh_sequences-Distinct_example = fresh_sequences-Distinct (4 ∷ 3 ∷ 4 ∷ 6 ∷ []) 2

abbrev test_circle : Circle
test_circle = record {
  api_key = some (codes "k");
  amount_text = codes "5";
  now_text = codes "9";
  transfer = done (record { ok = true; id = some (codes "i"); status = some (codes "complete") });
}

abbrev test_row : Text → BridgePendingRow
test_row id = record {
  bridge_tx_id = id;
  emitter_chain = 21;
  emitter_address = codes "e";
  sequence = 3;
  started_at = 0;
  alerted = false;
}

-- The VAA of the first row is signed, and the fetch of the second fails.
abbrev test_fetch : Fetch
test_fetch row client =
    if text_Eq.beq row.bridge_tx_id (codes "a")
    then (
      done (record { sequence = 3; emitted = true; signed = true; vaa_base64 = some (codes "v") }),
      3,
    )
    else (threw (callee (codes "f")), client)

abbrev test_round : Round
test_round = record {
  rows = test_row (codes "a") ∷ test_row (codes "b") ∷ [];
  watcher = (codes "a", record { started_at = 0; alerted = false }) ∷ [];
  wormhole = 0;
}

poll_rows-keeps_example :
    ((poll_rows test_fetch test_round.rows test_round).rows
      ≡ filter (not_in (confirmed_ids test_fetch test_round.rows 0)) test_round.rows)
    × ((id : Text)
        → get id (poll_rows test_fetch test_round.rows test_round).watcher ≡ (
            if includes (confirmed_ids test_fetch test_round.rows 0) id
            then none
            else get id test_round.watcher))
poll_rows-keeps_example = poll_rows-keeps test_fetch test_round.rows test_round

abbrev test_shared : Layer2SharedObjects
test_shared = record {
  device_registry_id = codes "d";
  processed_attestations_id = codes "p";
  energy_meter_id = codes "m";
  oracle_aggregator_id = codes "o";
  compliance_registry_id = codes "c";
  jurisdiction_blacklist_id = codes "j";
  zk_registry_id = some (codes "z");
}

abbrev test_targets : MintPtbTargets
test_targets = record {
  oracle_package_id = codes "0xo";
  minting_package_id = codes "0xm";
  batch_receipt_package_id = codes "0xb";
}

abbrev test_reading : VerifyReadingArgs
test_reading = record {
  attestation = record {
    device_id = 1 ∷ [];
    kwh_delta = pos 5;
    timestamp_ms = pos 6;
    secp256k1_sig = 7 ∷ [];
  };
  use_zk = true;
  zk_proof = some (8 ∷ []);
  zk_public_inputs = none;
}

build_mint_ptb-IsOrdered_example :
    let tx =
      build_mint_ptb new_transaction test_shared test_targets test_reading
        (codes "t")
        (codes "x") in
    IsOrdered tx
    × Within (list_required_shared_objects test_shared (codes "t")) (used_objects tx.commands)
build_mint_ptb-IsOrdered_example =
    build_mint_ptb-IsOrdered test_shared test_targets test_reading (codes "t") (codes "x")

-- Every variable is set but that of the network.
abbrev full_env : Env
full_env key = if text_Eq.beq key (codes "SUI_NETWORK") then none else some (codes "1")

abbrev test_world : World
test_world = record {
  read_manifest =
      λ network. done (record { contract = λ key. some test_object; pyth_hermes = none });
  failure_text = λ e. codes "f";
  ping = λ network. (true, codes "checkpoint 1");
  object_exists = λ id. done true;
}

abbrev test_checklist : GateChecklistResult
test_checklist =
    checklist_of (codes "testnet") (all_gates test_world full_env false (codes "testnet") [])

test-checked : run_gate_checklist test_world full_env (some false) ≡ done test_checklist
unfolding run_gate_checklist onchain_gates text_eq
test-checked = refl

test-ready : test_checklist.ready ≡ true
unfolding checklist_of all_gates manifest_gates rpc_gates publish_gate missing_keys settings_gates
    ipfs_provider is_bad_contract is_valid_sui_object_id starts_with trimmed trim trim_start
    trim_end to_lower_case text_eq
test-ready = refl

full-testnet : or_else (full_env (codes "SUI_NETWORK")) (codes "testnet") ≡ codes "testnet"
unfolding text_eq
full-testnet = refl

run_gate_checklist-loads_example : is_done (load_published_deployment full_env) ≡ true
run_gate_checklist-loads_example =
    run_gate_checklist-loads test_world full_env (some false) test_checklist test-checked test-ready
      full-testnet
