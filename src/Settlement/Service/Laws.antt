-- ===== src/Settlement/Service/Laws.antt =====
-- The service as an implementation of a ledger that forgets times, consumers, reports and events.
use mathlib.Core.List.{map-append}
use creation_of_energy_token.Settlement.PtbClient.{RedemptionPlan}
use creation_of_energy_token.Prelude.{
  Bool, true, false, not, List, [], ◌∷◌, ◌++◌, map, Text, if◌then◌else◌, Option, ap, ◌∙◌, refl, ◌≡◌,
  append-nil, ◌↔◌, arith, ◌&&◌,
}
use creation_of_energy_token.Prelude.Int.{ℤ}
use creation_of_energy_token.Engine.Types.{ExecutionResult}
use creation_of_energy_token.Settlement.Types.{Attempt, done, threw, is_done}
use creation_of_energy_token.Settlement.Billing.{
  AuditRecord, append_record, audit_record_from_result,
}
use creation_of_energy_token.Settlement.Planner.{
  Site, plan_redemption, process_l4_execution, SettlementOrchestrator, OrchestratorOutcome,
}
use creation_of_energy_token.Settlement.Planner.Laws.{
  can_plan, seen_burn, burn_entry, plan_redemption-can_plan, process_l4_execution-burns, CanPlan,
  can_plan_iff,
}
use creation_of_energy_token.Settlement.Service.{
  SettlementOutcome, SettlementProcessOptions, SettlementService, ProcessInputs, plan_of, settle,
  report_or_zero, process,
}

-- The answer says that the execution is acknowledged.
abbrev pub acknowledges : Attempt SettlementOutcome → Bool
acknowledges (done o) = o.acknowledged
acknowledges (threw e) = false

-- The abstract ledger: the executions that were audited, each with its proof, and the burns, each
-- with its redemption id.
pub record Ledger : Type 0 where
  pub audited : List (Text × Text)
  pub burned : List (Text × ℤ)

abbrev ledger : List (Text × Text) → List (Text × ℤ) → Ledger
ledger audited burned = record { audited = audited; burned = burned }

-- What a call is to the ledger.
pub data Step : Type 0 where
  ignored : Step
  audited_only : Text × Text → Step
  settled : Text × Text → Text × ℤ → Step

abbrev pub apply_step : Step → Ledger → Ledger
apply_step ignored l = l
apply_step (audited_only entry) l = record l { audited = l.audited ++ entry ∷ [] }
apply_step (settled entry burn) l = record {
  audited = l.audited ++ entry ∷ [];
  burned = l.burned ++ burn ∷ [];
}

abbrev pub is_settled : Step → Bool
is_settled ignored = false
is_settled (audited_only entry) = false
is_settled (settled entry burn) = true

-- One call of `process`.
pub record Request : Type 0 where
  pub inputs : ProcessInputs
  pub result : ExecutionResult
  pub options : SettlementProcessOptions

abbrev pub plan_for : Request → RedemptionPlan
plan_for r = plan_of r.result r.options r.inputs.period_end

-- The step depends on the call alone: the service's state plays no part.
abbrev pub step_of : Site → Request → Step
step_of site r = if not r.result.settled then ignored else elim r.inputs.archived [
  | threw e ↦ ignored
  | done cid ↦
      if can_plan site (plan_for r)
      then settled (r.result.execution_id, cid) (burn_entry (plan_for r))
      else audited_only (r.result.execution_id, cid)
]

abbrev pub seen_audit : AuditRecord → Text × Text
seen_audit a = (a.execution_id, a.proof_cid)

-- The ledger that a service stands for.
abbrev pub view : SettlementService → Ledger
view s = record { audited = map seen_audit s.audit; burned = map seen_burn s.orchestrator.burns }

module _ (site : Site) (r : Request) (s : SettlementService) where
  -- The record that the audit store gets.
  abbrev entry_of : Text → AuditRecord
  entry_of cid =
      audit_record_from_result r.result cid (report_or_zero r.inputs.reported) r.inputs.audited_at

  abbrev acknowledged_execution : Attempt (Option OrchestratorOutcome) × SettlementOrchestrator
  acknowledged_execution =
      process_l4_execution site r.inputs.planning r.result (plan_for r) s.orchestrator

  settle-parts :
      (cid : Text) (planned : Attempt (Option OrchestratorOutcome))
      → acknowledged_execution.0 ≡ planned
      → let t = settle site r.inputs r.result r.options cid s in
        (acknowledges t.0 ≡ is_done planned)
        × (t.1 ≡ record {
          audit = append_record (entry_of cid) s.audit;
          orchestrator = acknowledged_execution.1;
        })
  unfolding settle
  settle-parts cid (threw e) h = rw (h, settle) (refl, refl)
  settle-parts cid (done o) h = rw (h, settle) (refl, refl)

  settle-refines :
      (cid : Text)
      → r.result.settled ≡ true
      → let t = settle site r.inputs r.result r.options cid s in
        (acknowledges t.0 ≡ can_plan site (plan_for r))
        × (view t.1 ≡ record {
          audited = map seen_audit s.audit ++ (r.result.execution_id, cid) ∷ [];
          burned =
              map seen_burn s.orchestrator.burns
              ++ (if can_plan site (plan_for r) then burn_entry (plan_for r) ∷ [] else []);
        })
  unfolding append_record audit_record_from_result
  settle-refines cid h =
      let parts = settle-parts cid acknowledged_execution.0 refl in
      let (finished, burned) =
        process_l4_execution-burns site r.inputs.planning (plan_for r) r.result s.orchestrator
          (plan_redemption site r.inputs.planning (plan_for r) s.orchestrator).0 h refl in
      let planned = plan_redemption-can_plan site r.inputs.planning (plan_for r) s.orchestrator in
      let burned_as_planned =
        burned
        ∙ ap
            (λ b.
              map seen_burn s.orchestrator.burns
              ++ (if b then burn_entry (plan_for r) ∷ [] else []))
            planned in
      (
        parts.0 ∙ finished ∙ planned,
        ap view parts.1
            ∙ ap (λ audited. ledger audited (map seen_burn acknowledged_execution.1.burns))
                (map-append seen_audit s.audit (entry_of cid ∷ []))
            ∙ ap (ledger (map seen_audit s.audit ++ (r.result.execution_id, cid) ∷ []))
                burned_as_planned,
      )

  apply_step-planned :
      (cid : Text) (planned : Bool)
      → ledger (map seen_audit s.audit ++ (r.result.execution_id, cid) ∷ []) (
          map seen_burn s.orchestrator.burns
          ++ (if planned then burn_entry (plan_for r) ∷ [] else []))
        ≡ apply_step
            (if planned
              then settled (r.result.execution_id, cid) (burn_entry (plan_for r))
              else audited_only (r.result.execution_id, cid))
            (view s)
  apply_step-planned cid true = refl
  apply_step-planned cid false = ap (ledger _) (append-nil (map seen_burn s.orchestrator.burns))

  is_settled-planned :
      (a : Text × Text) (b : Text × ℤ) (planned : Bool)
      → planned ≡ is_settled (if planned then settled a b else audited_only a)
  is_settled-planned a b true = refl
  is_settled-planned a b false = refl

  process-refines_if :
      (has_settled : Bool) (archived : Attempt Text)
      → r.result.settled ≡ has_settled
      → r.inputs.archived ≡ archived
      → let t = process site r.inputs r.result r.options s in
        (acknowledges t.0 ≡ is_settled (step_of site r))
        × (view t.1 ≡ apply_step (step_of site r) (view s))
  unfolding process
  process-refines_if false archived h k = rw (h, process) (refl, refl)
  process-refines_if true (threw e) h k = rw (h, k, process) (refl, refl)
  process-refines_if true (done cid) h k =
      let planned = can_plan site (plan_for r) in
      let (answer, state) = settle-refines cid h in
      rw (h, k, process)
        (answer ∙ is_settled-planned _ _ planned, state ∙ apply_step-planned cid planned)

step-settles :
    (site : Site) (r : Request) (has_settled possible : Bool) (archived : Attempt Text)
    → r.result.settled ≡ has_settled
    → r.inputs.archived ≡ archived
    → can_plan site (plan_for r) ≡ possible
    → is_settled (step_of site r) ≡ (has_settled && (is_done archived && possible))
step-settles site r false possible archived h k l = rw h refl
step-settles site r true possible (threw e) h k l = rw (h, k) refl
step-settles site r true true (done cid) h k l = rw (h, k, l) refl
step-settles site r true false (done cid) h k l = rw (h, k, l) refl

pub process-refines :
    (site : Site) (r : Request) (s : SettlementService)
    → let t = process site r.inputs r.result r.options s in
      (acknowledges t.0 ≡ is_settled (step_of site r))
      × (view t.1 ≡ apply_step (step_of site r) (view s))
process-refines site r s = process-refines_if site r s r.result.settled r.inputs.archived refl refl

settled_if :
    (site : Site) (r : Request) (has_settled possible : Bool) (archived : Attempt Text)
    → r.result.settled ≡ has_settled
    → r.inputs.archived ≡ archived
    → can_plan site (plan_for r) ≡ possible
    → is_settled (step_of site r) ≡ true
    → (cid : Text) × (step_of site r
        ≡ settled (r.result.execution_id, cid) (burn_entry (plan_for r)))
unfolding plan_of
settled_if site r true true (done cid) h k l m = (cid, rw (h, k, l) refl)
settled_if site r false possible archived h k l m =
    absurd (ground (arith, m, step-settles site r false possible archived h k l))
settled_if site r true possible (threw e) h k l m =
    absurd (ground (arith, m, step-settles site r true possible (threw e) h k l))
settled_if site r true false (done cid) h k l m =
    absurd (ground (arith, m, step-settles site r true false (done cid) h k l))

-- The step of a call that is settled.
pub settled-step :
    (site : Site) (r : Request)
    → is_settled (step_of site r) ≡ true
    → (cid : Text) × (step_of site r
        ≡ settled (r.result.execution_id, cid) (burn_entry (plan_for r)))
settled-step site r h =
    settled_if site r r.result.settled (can_plan site (plan_for r)) r.inputs.archived refl refl refl
      h

-- Calls of `process`, one after the other, with their answers.
abbrev pub process_all :
    Site → List Request → SettlementService → List (Attempt SettlementOutcome) × SettlementService
process_all site [] s = ([], s)
process_all site (r ∷ rs) s =
    let (answer, s') = process site r.inputs r.result r.options s in
    let (answers, final) = process_all site rs s' in (answer ∷ answers, final)

abbrev pub apply_steps : List Step → Ledger → Ledger
apply_steps [] l = l
apply_steps (step ∷ steps) l = apply_steps steps (apply_step step l)

-- The service implements the ledger: after any calls its view is the ledger after their steps, and
-- the calls that it acknowledges are those whose step is a settlement. The steps depend on the
-- calls alone.
pub process_all-refines :
    (site : Site) (rs : List Request) (s : SettlementService)
    → let t = process_all site rs s in
      (map acknowledges t.0 ≡ map (λ r. is_settled (step_of site r)) rs)
      × (view t.1 ≡ apply_steps (map (step_of site) rs) (view s))
process_all-refines site [] s = (refl, refl)
process_all-refines site (r ∷ rs) s =
    let next = (process site r.inputs r.result r.options s).1 in
    let (answer, state) =
      process-refines_if site r s r.result.settled r.inputs.archived refl refl in
    let (answers, final) = process_all-refines site rs next in
    (
      ap (λ a. a ∷ map acknowledges (process_all site rs next).0) answer
          ∙ ap (λ rest. is_settled (step_of site r) ∷ rest) answers,
      final ∙ ap (apply_steps (map (step_of site) rs)) state,
    )

-- A call is acknowledged exactly for a settled result that the archive takes, and whose plan is
-- possible.
pub process-acknowledges_iff :
    (site : Site) (r : Request) (s : SettlementService)
    → (acknowledges (process site r.inputs r.result r.options s).0 ≡ true)
      ↔ ((r.result.settled ≡ true) × (is_done r.inputs.archived ≡ true) × CanPlan site (plan_for r))
process-acknowledges_iff site r s = ground (
  arith,
  can_plan_iff site (plan_for r),
  (process-refines_if site r s r.result.settled r.inputs.archived refl refl).0,
  step-settles site r r.result.settled (can_plan site (plan_for r)) r.inputs.archived refl refl
      refl,
)
