-- ===== src/Settlement/Service.antt =====
-- layer5/settlement/src/settlementService.ts. The archive and the reporter are those of the
-- persistence that the service is given: parameters, which may throw.
pub mod Laws
use creation_of_energy_token.Prelude.{
  ℕ, Bool, true, false, not, List, [], ◌∷◌, Option, none, some, Text, codes, or_else, if◌then◌else◌,
}
use creation_of_energy_token.Prelude.Int.{ℤ, pos, ◌*ℤ◌}
use creation_of_energy_token.Engine.Types.{ExecutionResult}
use creation_of_energy_token.Settlement.Types.{Failure, Attempt, done, threw}
use creation_of_energy_token.Settlement.PtbClient.{RedemptionPlan}
use creation_of_energy_token.Settlement.Billing.{
  AuditStore, append_record, audit_record_from_result,
}
use creation_of_energy_token.Settlement.Planner.{
  OrchestratorOutcome, SettlementOrchestrator, Site, PlanInputs, zero_hex_32, default_redemption_id,
  process_l4_execution,
}

pub record SettlementOutcome : Type 0 where
  pub acknowledged : Bool
  pub proof_ids : List Text
  pub regulatory_report_cid : Text
  pub trace_id : Option Text
  pub redemption_id : Option Text

pub record SettlementProcessOptions : Type 0 where
  pub consumer : Option Text
  pub kwh_claim : Option ℤ
  pub coin_balance_micro : Option ℤ
  pub batch_kwh : Option ℤ
  pub batch_redeemed : Option Bool

abbrev pub no_options : SettlementProcessOptions
no_options = record {
  consumer = none;
  kwh_claim = none;
  coin_balance_micro = none;
  batch_kwh = none;
  batch_redeemed = none;
}

pub record SettlementService : Type 0 where
  pub audit : AuditStore
  pub orchestrator : SettlementOrchestrator

-- What one call reads from outside: what the archive and the reporter answer, the clock, and what
-- the plan reads.
pub record ProcessInputs : Type 0 where
  pub archived : Attempt Text
  pub reported : Attempt Text
  pub audited_at : ℕ
  pub period_end : ℕ
  pub planning : PlanInputs

-- The plan that the options and their defaults make.
unfoldable pub plan_of : ExecutionResult → SettlementProcessOptions → ℕ → RedemptionPlan
unfolding ◌*ℤ◌
plan_of result options now =
    let kwh_claim = or_else options.kwh_claim (pos 1) in
    record {
      redemption_id = default_redemption_id result.execution_id;
      consumer = or_else options.consumer (codes "0x0");
      kwh_claim = kwh_claim;
      coin_balance_micro = or_else options.coin_balance_micro (kwh_claim *ℤ pos 1_000_000);
      batch_kwh = or_else options.batch_kwh kwh_claim;
      batch_redeemed = or_else options.batch_redeemed false;
      billing_period_end_ms = now;
    }

abbrev pub refusal : SettlementOutcome
refusal = record {
  acknowledged = false;
  proof_ids = [];
  regulatory_report_cid = zero_hex_32;
  trace_id = none;
  redemption_id = none;
}

abbrev pub report_or_zero : Attempt Text → Text
report_or_zero (done cid) = cid
report_or_zero (threw e) = zero_hex_32

abbrev pub acknowledgement : Text → Text → Option OrchestratorOutcome → SettlementOutcome
acknowledgement proof_cid report_cid planned = record {
  acknowledged = true;
  proof_ids = proof_cid ∷ [];
  regulatory_report_cid = report_cid;
  trace_id = elim planned [ none ↦ none | some p ↦ some p.trace_id ];
  redemption_id = elim planned [ none ↦ none | some p ↦ some p.redemption_id ];
}

-- The call after the archive has answered.
unfoldable pub settle :
    Site
    → ProcessInputs
    → ExecutionResult
    → SettlementProcessOptions
    → Text
    → SettlementService
    → Attempt SettlementOutcome × SettlementService
unfolding append_record audit_record_from_result plan_of process_l4_execution
settle site inputs result options proof_cid s =
    let report_cid = report_or_zero inputs.reported in
    let entry = audit_record_from_result result proof_cid report_cid inputs.audited_at in
    let audit = append_record entry s.audit in
    let plan = plan_of result options inputs.period_end in
    let (planned, orchestrator) =
      process_l4_execution site inputs.planning result plan s.orchestrator in
    let s' : SettlementService = record { audit = audit; orchestrator = orchestrator } in
    elim planned [
      | threw e ↦ (threw e, s')
      | done outcome ↦ (done (acknowledgement proof_cid report_cid outcome), s')
    ]

unfoldable pub process :
    Site
    → ProcessInputs
    → ExecutionResult
    → SettlementProcessOptions
    → SettlementService
    → Attempt SettlementOutcome × SettlementService
unfolding settle
process site inputs result options s =
    if not result.settled then (done refusal, s) else (elim inputs.archived [
      | threw e ↦ (threw e, s)
      | done proof_cid ↦ settle site inputs result options proof_cid s
    ])
