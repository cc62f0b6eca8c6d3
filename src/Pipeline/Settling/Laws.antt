-- ===== src/Pipeline/Settling/Laws.antt =====
-- What a finalized run leaves in the settlement service.
use creation_of_energy_token.Prelude.{
  true, List, [], ◌∷◌, ◌++◌, Text, take, drop, length, ◌≡◌, refl, sym, ap, ◌∙◌, subst, arith,
}
use creation_of_energy_token.Prelude.Int.{pos, ◌*ℤ◌}
use creation_of_energy_token.Engine.Types.{ExecutionRequest, ExecutionResult, ok, ok-injective}
use creation_of_energy_token.Engine.External.{Viem}
use creation_of_energy_token.Engine.Runner.{finalized, PipelineRunOutcome}
use creation_of_energy_token.Engine.Runner.State.{Setup, Runner, Outside, GasArgs, L5Ack}
use creation_of_energy_token.Engine.Runner.Ending.{run_id}
use creation_of_energy_token.Engine.Runner.Outcome.{run-IsFinalized}
use creation_of_energy_token.Settlement.Types.{Failure, Attempt, done, threw}
use creation_of_energy_token.Settlement.Planner.{Site}
use creation_of_energy_token.Settlement.Service.{
  SettlementOutcome, SettlementService, ProcessInputs, no_options, process, plan_of,
}
use creation_of_energy_token.Settlement.Service.Laws.{
  acknowledges, Ledger, apply_step, Request, view, process-refines, settled-step,
}
use creation_of_energy_token.Pipeline.Settling.{ack_of, with_service, after_results, run_settling}

drop-append {ℓ} : {A : Type ℓ} (xs ys : List A) → drop (length xs) (xs ++ ys) ≡ ys
drop-append [] ys = refl
drop-append (x ∷ xs) ys = drop-append xs ys

ack-acknowledges :
    (describe : Failure → Text) (answer : Attempt SettlementOutcome) (ack : L5Ack)
    → ack_of describe answer ≡ ok ack
    → ack.acknowledged ≡ true
    → acknowledges answer ≡ true
ack-acknowledges describe (done o) ack h k = ap (λ (a : L5Ack). a.acknowledged) (ok-injective h) ∙ k
ack-acknowledges describe (threw e) ack h k = ground arith

module _ (viem : Viem) (setup : Setup) (site : Site) (describe : Failure → Text) (out : Outside)
    (inputs : ProcessInputs) (request : ExecutionRequest) (gas : GasArgs) (id : Text) where
  -- The service took over one execution: one more audit record and one more burn of one kWh.
  pub record TookOver (before after : SettlementService) : Type 0 where
    pub proof_cid : Text
    pub audited : (view after).audited ≡ (view before).audited ++ (id, proof_cid) ∷ []
    pub burned :
        (view after).burned ≡ (view before).burned ++ (take 32 (drop 2 id), pos 1_000_000) ∷ []

  handed-TookOver :
      (given : ExecutionResult) (ack : L5Ack) (service : SettlementService)
      → given.execution_id ≡ id
      → ack_of describe (process site inputs given no_options service).0 ≡ ok ack
      → ack.acknowledged ≡ true
      → TookOver service (process site inputs given no_options service).1
  unfolding plan_of ◌*ℤ◌
  handed-TookOver given ack service same answer said =
      let r : Request = record { inputs = inputs; result = given; options = no_options } in
      let (settles, state) = process-refines site r service in
      let now =
        sym settles
        ∙ ack-acknowledges describe (process site inputs given no_options service).0 ack answer
            said in
      let (cid, step) = settled-step site r now in
      let after = state ∙ ap (λ st. apply_step st (view service)) step in
      record {
        proof_cid = cid;
        audited =
            ap (λ (l : Ledger). l.audited) after
            ∙ ap (λ e. (view service).audited ++ (e, cid) ∷ []) same;
        burned =
            ap (λ (l : Ledger). l.burned) after
            ∙ ap (λ e. (view service).burned ++ (take 32 (drop 2 e), pos 1_000_000) ∷ []) same;
      }

  -- A finalized run leaves one more audit record in the service, for the execution of the request,
  -- and one more burn, of one kWh under the redemption id that the execution's id makes.
  pub run_settling-TookOver :
      (s : Runner) (service : SettlementService) (outcome : PipelineRunOutcome)
      → run_id viem request ≡ ok id
      → (run_settling viem setup site describe out inputs request gas s service).outcome
        ≡ ok outcome
      → outcome.status ≡ finalized
      → TookOver service
          (run_settling viem setup site describe out inputs request gas s service).service
  unfolding run_settling
  run_settling-TookOver s service outcome h e f =
      let out' = with_service viem setup site describe inputs service out in
      let final = run-IsFinalized viem setup out' request gas id s outcome h e f in
      let new =
        ap (drop (length s.handed_over)) final.handed_over
        ∙ drop-append s.handed_over (final.given ∷ []) in
      subst
        (λ results.
          TookOver service (after_results viem setup site describe inputs results service))
        (sym new)
        (handed-TookOver final.given final.ack service final.execution_id final.answer
          final.acknowledged)
