-- ===== src/Pipeline/Settling.antt =====
-- A run of the execution engine whose layer 5 is the settlement service, as in
-- pipeline/src/runFullPipeline.ts; the text of what settlement throws is a parameter.
pub mod Laws
use creation_of_energy_token.Prelude.{ℕ, List, [], ◌∷◌, Text, length, drop}
use creation_of_energy_token.Engine.Types.{
  ExecutionRequest, ExecutionResult, Result, ok, err, error, external,
}
use creation_of_energy_token.Engine.External.{Viem}
use creation_of_energy_token.Engine.Runner.{PipelineRunOutcome, run}
use creation_of_energy_token.Engine.Runner.State.{Setup, Runner, Outside, GasArgs, L5Ack}
use creation_of_energy_token.Settlement.Types.{Failure, Attempt, done, threw}
use creation_of_energy_token.Settlement.Planner.{Site}
use creation_of_energy_token.Settlement.Service.{
  SettlementOutcome, SettlementService, ProcessInputs, no_options, process,
}

-- What the runner sees of the service's answer.
abbrev pub ack_of : (Failure → Text) → Attempt SettlementOutcome → Result L5Ack
ack_of describe (threw e) = err (error (external (describe e)))
ack_of describe (done o) = ok (record {
  acknowledged = o.acknowledged;
  proof_ids = o.proof_ids;
  regulatory_report_cid = o.regulatory_report_cid;
})

-- What a run leaves: its outcome, the runner, and the service.
pub record Settled : Type 0 where
  pub outcome : Result PipelineRunOutcome
  pub runner : Runner
  pub service : SettlementService

module _ (viem : Viem) (setup : Setup) (site : Site) (describe : Failure → Text) where
  -- The engine's outside, with the service as layer 5.
  abbrev pub with_service : ProcessInputs → SettlementService → Outside → Outside
  with_service inputs service out = record out {
    l5 = λ result. ack_of describe (process site inputs result no_options service).0;
  }

  -- The service after it was handed results.
  abbrev pub after_results :
      ProcessInputs → List ExecutionResult → SettlementService → SettlementService
  after_results inputs [] service = service
  after_results inputs (result ∷ results) service =
      after_results inputs results (process site inputs result no_options service).1

  unfoldable pub run_settling :
      Outside → ProcessInputs → ExecutionRequest → GasArgs → Runner → SettlementService → Settled
  unfolding run
  run_settling out inputs request gas s service =
      let (outcome, t) = run viem setup (with_service inputs service out) request gas s in
      record {
        outcome = outcome;
        runner = t;
        service = after_results inputs (drop (length s.handed_over) t.handed_over) service;
      }
