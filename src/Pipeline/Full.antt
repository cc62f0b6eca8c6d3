-- ===== src/Pipeline/Full.antt =====
-- pipeline/src/suiRedemptionHook.ts and pipeline/src/runFullPipeline.ts.
pub mod Laws
use creation_of_energy_token.Prelude.{
  ℕ, zero, suc, Bool, true, false, not, List, [], ◌∷◌, ◌++◌, Option, none, some, Text, codes,
  length, replicate, if◌then◌else◌,
}
use creation_of_energy_token.Prelude.Int.{ℤ, pos, ◌*ℤ◌}
use creation_of_energy_token.Engine.Types.{
  Obligation, ExecutionRequest, ExecutionResult, FailureReport, Result, ok, err, ◌>>=◌, error,
  external,
}
use creation_of_energy_token.Engine.External.{Viem}
use creation_of_energy_token.Engine.Builder.{one_hash}
use creation_of_energy_token.Engine.Runner.{
  OutcomeStatus, finalized, failed, rolled_back, PipelineRunOutcome,
}
use creation_of_energy_token.Engine.Runner.State.{
  RunnerConfig, Outside, GasArgs, Setup, Runner, new_runner,
}
use creation_of_energy_token.L3.{
  L3FsmState, initial_state, trigger, RequestParams, build_execution_request, on_execution_success,
  on_execution_failure,
}
use creation_of_energy_token.Settlement.Types.{Failure, Attempt, done, threw}
use creation_of_energy_token.Settlement.Deployment.{
  SuiPtbConfig, PublishedDeployment, has_published_deployment, load_published_deployment,
}
use creation_of_energy_token.Settlement.PtbClient.{RedemptionPlan, submit}
use creation_of_energy_token.Settlement.Planner.{
  Site, PlanInputs, SettlementOrchestrator, OrchestratorOutcome, default_redemption_id,
  process_l4_execution,
}
use creation_of_energy_token.Settlement.Service.{SettlementService, ProcessInputs}
use creation_of_energy_token.Prelude.Strings.{Env}
use creation_of_energy_token.Settlement.Billing.{AuditStore}
use creation_of_energy_token.Settlement.Stores.{settlement_data_dir}
use creation_of_energy_token.Pipeline.Settling.{Settled, run_settling}

pub record SuiRedemptionHookConfig : Type 0 where
  pub package_id : Text
  pub consumer : Text
  pub kwh_claim : ℤ

-- The orchestrator that a new one starts as.
abbrev pub new_orchestrator : SettlementOrchestrator
new_orchestrator = record {
  burns = [];
  events = [];
  billing = [];
  grid_operator = record { delivered = []; posts = [] };
}

abbrev pub new_service : SettlementService
new_service = record { audit = []; orchestrator = new_orchestrator }

-- The audit trail that the store of `createPersistenceFromEnv` lists at first: with a directory
-- the records that its file has, and without one none.
unfoldable pub first_audit : Env → AuditStore → AuditStore
unfolding settlement_data_dir
first_audit env stored = elim (settlement_data_dir env) [ none ↦ [] | some root ↦ stored ]

-- `new SettlementService()`
abbrev pub created_service : Env → AuditStore → SettlementService
created_service env stored = record new_service { audit = first_audit env stored }

-- The PTB configuration of the hook: the published deployment, or a stub.
abbrev pub published_config : PublishedDeployment → SuiPtbConfig
published_config published = record {
  package_id = published.targets.l5_package_id;
  l3_grid_package_id = some published.targets.l3_grid_package_id;
  network = published.network;
  rpc_url = published.rpc_url;
  signer_secret_key = none;
  objects = some published.objects;
  stub = none;
}

unfoldable pub hook_config : Site → SuiRedemptionHookConfig → Attempt SuiPtbConfig
unfolding has_published_deployment load_published_deployment
hook_config site config =
    if has_published_deployment site.env
    then (elim (load_published_deployment site.env) [
      | threw e ↦ threw e
      | done published ↦ done (published_config published)
    ])
    else done (record {
      package_id = config.package_id;
      l3_grid_package_id = none;
      network = codes "localnet";
      rpc_url = none;
      signer_secret_key = none;
      objects = none;
      stub = some true;
    })

-- The plan of the hook at a time.
abbrev pub hook_plan : ExecutionResult → SuiRedemptionHookConfig → ℕ → RedemptionPlan
unfolding ◌*ℤ◌
hook_plan result config now = record {
  redemption_id = default_redemption_id result.execution_id;
  consumer = config.consumer;
  kwh_claim = config.kwh_claim;
  coin_balance_micro = config.kwh_claim *ℤ pos 1_000_000;
  batch_kwh = config.kwh_claim;
  batch_redeemed = false;
  billing_period_end_ms = now;
}

-- The digest and the trace id, where there are any. The times of the two plans are `planned_at`
-- and `submitted_at`.
unfoldable pub plan_sui_redemption_after_l4 :
    Site
    → PlanInputs
    → ℕ
    → ℕ
    → ExecutionResult
    → SuiRedemptionHookConfig
    → Attempt (Option Text × Option Text)
unfolding hook_config process_l4_execution submit
plan_sui_redemption_after_l4 site inputs planned_at submitted_at result config =
    if not result.settled then done (none, none) else (elim (hook_config site config) [
      | threw e ↦ threw e
      | done sui_config ↦
          elim (process_l4_execution (record site { config = sui_config }) inputs result
            (hook_plan result config planned_at) new_orchestrator).0 [
              | threw e ↦ threw e
              | done none ↦ done (none, none)
              | done (some plan) ↦
                  elim (submit site.env sui_config site.sui
                    (record (hook_plan result config submitted_at) {
                      redemption_id = plan.redemption_id;
                    })) [ threw e ↦ threw e | done digest ↦ done (some digest, some plan.trace_id) ]
            ]
    ])

-- `"11".repeat(65)`, and `"22".repeat(65)`, as a signature.
abbrev pub test_signature : ℕ → Text
test_signature digit = codes "0x" ++ replicate 130 digit

abbrev pub full_request : Text → Obligation → RequestParams
full_request contract_id obligation = record {
  contract_id = contract_id;
  obligations = obligation ∷ [];
  zk_proof = record { proof = codes "0x01"; input_hash = one_hash; output_commitment = one_hash };
  oracle_snapshot_hash = one_hash;
  signatures = test_signature b'1' ∷ test_signature b'2' ∷ [];
  now_sec = none;
  dispute_deadline = none;
}

abbrev pub full_gas : GasArgs
full_gas = record {
  estimated_gas = 350_000;
  base_fee = 30_000_000_000;
  priority_fee = 2_000_000_000;
}

-- The state of layer 3 after an outcome.
unfoldable pub l3_after : PipelineRunOutcome → L3FsmState → L3FsmState
unfolding on_execution_success on_execution_failure
l3_after outcome s =
    let failed_state : L3FsmState = elim outcome.failure [
      | none ↦ s
      | some report ↦ on_execution_failure report.suggested_l3_state s
    ] in
    elim outcome.status [
      | finalized ↦ on_execution_success s
      | failed ↦ failed_state
      | rolled_back ↦ failed_state
    ]

-- The layers after the run of `runFullPipeline`, before the hook.
pub record Layers : Type 0 where
  pub l3_state : L3FsmState
  pub settled : Settled

-- What the pipeline reads from outside; `stored` are the records of the audit file.
pub record FullInputs : Type 0 where
  pub now_sec : ℤ
  pub created_at : ℕ
  pub out : Outside
  pub processing : ProcessInputs
  pub stored : AuditStore

-- The layers that a run leaves, where it returns.
abbrev pub layers_of :
    L3FsmState → Settled → Result PipelineRunOutcome → Result (PipelineRunOutcome × Layers)
layers_of l3 settled (err e) = err e
layers_of l3 settled (ok outcome) =
    ok (outcome, record { l3_state = l3_after outcome l3; settled = settled })

-- The run of a request in a new runner that is set up, with a new service.
unfoldable pub run_request :
    Viem
    → Site
    → (Failure → Text)
    → FullInputs
    → L3FsmState
    → ExecutionRequest
    → Setup × Runner
    → Result (PipelineRunOutcome × Layers)
unfolding run_settling first_audit
run_request viem site describe inputs l3 request (setup, runner) =
    let settled =
      run_settling viem setup site describe inputs.out inputs.processing request full_gas runner
        (created_service site.env inputs.stored) in
    layers_of l3 settled settled.outcome

unfoldable pub run_layers :
    Viem
    → Site
    → (Failure → Text)
    → RunnerConfig
    → Text
    → Obligation
    → FullInputs
    → Result (PipelineRunOutcome × Layers)
unfolding trigger build_execution_request new_runner run_request
run_layers viem site describe config contract_id obligation inputs = do
  l3 ← trigger initial_state
  request ← build_execution_request viem inputs.now_sec (full_request contract_id obligation) l3
  started ← new_runner config inputs.created_at
  run_request viem site describe inputs l3 request started

pub record FullPipelineResult : Type 0 where
  pub l3_state : L3FsmState
  pub l4_status : OutcomeStatus
  pub audit_count : ℕ
  pub tx_hash : Option Text
  pub sui_redemption_digest : Option Text

-- What the hook reads from outside: its plan, and the times of its two plans.
pub record HookInputs : Type 0 where
  pub planning : PlanInputs
  pub planned_at : ℕ
  pub submitted_at : ℕ

abbrev pub hook_settings : SuiRedemptionHookConfig
hook_settings = record {
  package_id = codes "0x0";
  consumer = codes "0xconsumer";
  kwh_claim = pos 1;
}

-- The digest of the hook, which runs after a finalized outcome that has a result.
unfoldable pub digest_after :
    Site → (Failure → Text) → HookInputs → PipelineRunOutcome → Result (Option Text)
unfolding plan_sui_redemption_after_l4
digest_after site describe hook outcome =
    let planned : Result (Option Text) = elim outcome.result [
      | none ↦ ok none
      | some result ↦
          elim (plan_sui_redemption_after_l4 site hook.planning hook.planned_at hook.submitted_at
            result hook_settings) [
              | threw e ↦ err (error (external (describe e)))
              | done ids ↦ ok ids.0
            ]
    ] in
    elim outcome.status [ finalized ↦ planned | failed ↦ ok none | rolled_back ↦ ok none ]

abbrev pub full_result : PipelineRunOutcome × Layers → Option Text → FullPipelineResult
full_result ran digest = record {
  l3_state = ran.1.l3_state;
  l4_status = ran.0.status;
  audit_count = length ran.1.settled.service.audit;
  tx_hash = elim ran.0.result [ none ↦ none | some result ↦ some result.tx_hash ];
  sui_redemption_digest = digest;
}

unfoldable pub run_full_pipeline :
    Viem
    → Site
    → (Failure → Text)
    → RunnerConfig
    → Text
    → Obligation
    → FullInputs
    → HookInputs
    → Result FullPipelineResult
unfolding run_layers digest_after
run_full_pipeline viem site describe config contract_id obligation inputs hook = do
  ran ← run_layers viem site describe config contract_id obligation inputs
  digest ← digest_after site describe hook ran.0
  ok (full_result ran digest)
