-- ===== src/Engine/Runner/Outcome.antt =====
-- What a run's outcome says of what was checked, sent and recorded.
use creation_of_energy_token.Prelude.{
  ◌+◌, ◌≡◌, refl, true, false, [], ◌∷◌, ◌++◌, some, Text, arith, sym, ◌∙◌, ap, subst,
}
use creation_of_energy_token.Engine.Types.{
  ok-injective, RecordStatus, ExecutionRequest, ExecutionResult, confirmation_depth, Result, ok,
}
use creation_of_energy_token.Engine.External.{Viem}
use creation_of_energy_token.Engine.Idempotency.Laws.{status_of, status_of-record_self}
use creation_of_energy_token.Engine.Submitter.{SubmitResult}
use creation_of_energy_token.Engine.Runner.{
  finalized, failed, PipelineRunOutcome, execute, conclude, run,
}
use creation_of_energy_token.Engine.Runner.State.{
  Setup, Runner, Outside, GasArgs, L5Ack, Exit, done, is_done,
}
use creation_of_energy_token.Engine.Runner.Phases.{partial_result}
use creation_of_energy_token.Engine.Runner.Effects.{IsAdmitted, SameTrace, submitted_guard}
use creation_of_energy_token.Engine.Runner.Progress.{
  Progress, before_network, refused, unconfirmed, unacknowledged, completed,
}
use creation_of_energy_token.Engine.Runner.Progress.Reached.{execute-Progress}
use creation_of_energy_token.Engine.Runner.Ending.{conclude-trace, conclude-stopped, run_id, run-ok}

module _ (viem : Viem) (setup : Setup) (out : Outside) (request : ExecutionRequest) (gas : GasArgs)
    (id : Text) where
  -- What is left by a run that had no effect outside.
  pub record HadNoEffect (s : Runner) (x : Result PipelineRunOutcome × Runner) : Type 0 where
    pub outcome : PipelineRunOutcome
    pub returns : x.0 ≡ ok outcome
    pub fails : outcome.status ≡ failed
    pub guard : x.1.guard ≡ s.guard
    pub sent : x.1.sent ≡ s.sent
    pub handed_over : x.1.handed_over ≡ s.handed_over

  not_admitted-Progress :
      (s t : Runner) (r : Exit ExecutionResult)
      → Progress viem setup out request id gas s r t
      → (IsAdmitted viem setup out request id s → ⊥)
      → (is_done r ≡ false) × SameTrace s t
  not_admitted-Progress s t r (before_network stop same) n = (stop, same)
  not_admitted-Progress s t r (refused tx e sent h x g o) n = absurd (n h.admitted)
  not_admitted-Progress s t r (unconfirmed tx result sent h x g o) n = absurd (n h.admitted)
  not_admitted-Progress s t r (unacknowledged tx result sent h x g o) n = absurd (n h.admitted)
  not_admitted-Progress s t r (completed tx result sent ack h x y z g o) n = absurd (n h.admitted)

  -- A run, of a request whose id can be computed, that the breaker, the guard, a gate of layer 3
  -- or the signatures refuse returns a failure; the guard stays as it was, no transaction is sent,
  -- and layer 5 is handed nothing.
  pub run_not_admitted :
      (s : Runner)
      → run_id viem request ≡ ok id
      → (IsAdmitted viem setup out request id s → ⊥)
      → HadNoEffect s (run viem setup out request gas s)
  run_not_admitted s h n =
      let (r, t) = execute viem setup out request id gas s in
      let (stop, same) =
        not_admitted-Progress s t r (execute-Progress viem setup out request id gas s) n in
      let (guard, sent, handed) = conclude-trace out id r t in
      subst (HadNoEffect s) (sym (run-ok viem setup out request gas s h)) (record {
        outcome = (conclude out id r t).0;
        returns = refl;
        fails = conclude-stopped out id r t stop;
        guard = guard ∙ same.guard;
        sent = sent ∙ same.sent;
        handed_over = handed ∙ same.handed_over;
      })

  -- What a finalized outcome says of the run: `given` is what layer 5 was handed.
  pub record IsFinalized (s t : Runner) (outcome : PipelineRunOutcome) : Type 0 where
    pub admitted : IsAdmitted viem setup out request id s
    pub given : ExecutionResult
    pub ack : L5Ack
    pub handed_over : t.handed_over ≡ s.handed_over ++ given ∷ []
    pub answer : out.l5 given ≡ ok ack
    pub acknowledged : ack.acknowledged ≡ true
    pub reported :
        outcome.result
        ≡ some (record given {
          proof_ids = ack.proof_ids;
          regulatory_report_cid = ack.regulatory_report_cid;
        })
    pub execution_id : given.execution_id ≡ id
    pub depth : given.confirmation_block ≡ given.execution_block + confirmation_depth
    pub recorded : status_of t.guard id ≡ some RecordStatus.finalized

  partial_result_lem :
      (result : SubmitResult)
      → let given = partial_result request id gas result in
        (given.execution_id ≡ id)
        × (given.confirmation_block ≡ given.execution_block + confirmation_depth)
  unfolding partial_result
  partial_result_lem result = (refl, refl)

  conclude-result :
      (t : Runner) (r : Exit ExecutionResult) {result : ExecutionResult}
      → r ≡ done result
      → (conclude out id r t).0.result ≡ some result
  unfolding conclude
  conclude-result t r h = ground arith

  done-IsFinalized :
      (s t : Runner) (r : Exit ExecutionResult)
      → Progress viem setup out request id gas s r t
      → (conclude out id r t).0.status ≡ finalized
      → IsFinalized s (conclude out id r t).1 (conclude out id r t).0
  done-IsFinalized s t r (before_network stop same) h =
      absurd (ground (arith, conclude-stopped out id r t stop))
  done-IsFinalized s t r (refused tx e sent d x g o) h =
      absurd (ground (arith, conclude-stopped out id r t (rw x)))
  done-IsFinalized s t r (unconfirmed tx result sent d x g o) h =
      absurd (ground (arith, conclude-stopped out id r t x))
  done-IsFinalized s t r (unacknowledged tx result sent d x g o) h =
      absurd (ground (arith, conclude-stopped out id r t x))
  done-IsFinalized s t r (completed tx result sent ack d x y z g o) h = record {
    admitted = d.admitted;
    given = partial_result request id gas result;
    ack = ack;
    handed_over = (conclude-trace out id r t).2 ∙ o;
    answer = x;
    acknowledged = y;
    reported = conclude-result t r z;
    execution_id = (partial_result_lem result).0;
    depth = (partial_result_lem result).1;
    recorded =
        ap (λ g. status_of g id) ((conclude-trace out id r t).0 ∙ g)
        ∙ status_of-record_self (submitted_guard out id result.tx_hash s) id RecordStatus.finalized
            (some result.tx_hash) out.finalized_at;
  }

  -- A run whose outcome is finalized was admitted, handed its result to layer 5 after all earlier
  -- ones, and layer 5 acknowledged it: the outcome carries that result with layer 5's proofs,
  -- twelve blocks deep, and the guard has the execution as FINALIZED.
  pub run-IsFinalized :
      (s : Runner) (outcome : PipelineRunOutcome)
      → run_id viem request ≡ ok id
      → (run viem setup out request gas s).0 ≡ ok outcome
      → outcome.status ≡ finalized
      → IsFinalized s (run viem setup out request gas s).1 outcome
  run-IsFinalized s outcome h e f =
      let (r, t) = execute viem setup out request id gas s in
      let ends = run-ok viem setup out request gas s h in
      let same : (conclude out id r t).0 ≡ outcome = ok-injective (sym (ap (λ x. x.0) ends) ∙ e) in
      subst (IsFinalized s (run viem setup out request gas s).1) same (
        subst (λ u. IsFinalized s u (conclude out id r t).0) (sym (ap (λ x. x.1) ends))
          (done-IsFinalized s t r (execute-Progress viem setup out request id gas s)
            (ap (λ (o : PipelineRunOutcome). o.status) same ∙ f)))
