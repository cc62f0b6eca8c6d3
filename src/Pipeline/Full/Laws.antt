-- ===== src/Pipeline/Full/Laws.antt =====
-- What the whole pipeline reports.
use creation_of_energy_token.Settlement.Planner.{Site}
use creation_of_energy_token.Engine.External.{Viem}
use creation_of_energy_token.Settlement.Types.{Failure}
use creation_of_energy_token.Engine.Runner.Ending.{run_id, run-err}
use creation_of_energy_token.Pipeline.Settling.Laws.{run_settling-TookOver}
use creation_of_energy_token.Engine.Runner.State.{Setup, Runner, RunnerConfig, new_runner}
use creation_of_energy_token.Settlement.Service.Laws.{seen_audit}
use creation_of_energy_token.Pipeline.Settling.{Settled, run_settling, with_service}
use creation_of_energy_token.Prelude.{
  ℕ, suc, ◌+◌, length-append, ◌≡◌, refl, ◌↔◌, arith, length, map, ◌∷◌, List, ◌++◌, subst, sym, ap,
  ◌∙◌, [], Text,
}
use creation_of_energy_token.Engine.Types.{
  Result, ok, err, ◌>>=◌, ExecutionRequest, ok-injective, Obligation,
}
use creation_of_energy_token.Engine.Runner.{finalized, PipelineRunOutcome}
use creation_of_energy_token.L3.{L3FsmState, on_execution_failure, trigger, build_execution_request}
use creation_of_energy_token.Pipeline.Full.{
  l3_after, full_gas, run_request, Layers, FullPipelineResult, HookInputs, run_layers,
  run_full_pipeline, created_service, first_audit, FullInputs, layers_of, full_result, full_request,
  digest_after,
}

-- A bind that succeeds.
bind-ok :
    {A B : Type 0} (r : Result A) (f : A → Result B) (b : B)
    → (r >>= f) ≡ ok b
    → (a : A) × (r ≡ ok a) × (f a ≡ ok b)
bind-ok (ok a) f b h = (a, refl, h)
bind-ok (err e) f b h = absurd (ground arith)

l3_after-settled_iff :
    (outcome : PipelineRunOutcome)
    → (l3_after outcome L3FsmState.triggered ≡ L3FsmState.settled) ↔ (outcome.status ≡ finalized)
unfolding l3_after on_execution_failure
l3_after-settled_iff outcome = ground arith

length-map : {A B : Type 0} (f : A → B) (xs : List A) → length (map f xs) ≡ length xs
length-map f [] = refl
length-map f (x ∷ xs) = ap suc (length-map f xs)

-- A list with one element more, as far as it is seen.
length_seen :
    {A B : Type 0} (f : A → B) (xs ys : List A) (b : B)
    → map f xs ≡ map f ys ++ b ∷ []
    → length xs ≡ length ys + 1
length_seen f xs ys b h =
    omega (arith, length-map f xs, ap length h, length-append (map f ys) (b ∷ []), length-map f ys)

module _ (viem : Viem) (site : Site) (describe : Failure → Text) (inputs : FullInputs) where
  abbrev settled_run : ExecutionRequest → Setup × Runner → Settled
  settled_run request started =
      run_settling viem started.0 site describe inputs.out inputs.processing request full_gas
        started.1 (created_service site.env inputs.stored)

  -- The records that the audit trail has before the run.
  abbrev first_count : ℕ
  first_count = length (first_audit site.env inputs.stored)

  -- A finalized run in a new service adds one audit record.
  run_request-audits :
      (request : ExecutionRequest) (started : Setup × Runner) (outcome : PipelineRunOutcome)
      (id : Result Text)
      → run_id viem request ≡ id
      → (settled_run request started).outcome ≡ ok outcome
      → outcome.status ≡ finalized
      → length (settled_run request started).service.audit ≡ first_count + 1
  unfolding run_settling
  run_request-audits request started outcome (ok id) k h f =
      let took =
        run_settling-TookOver viem started.0 site describe inputs.out inputs.processing request
          full_gas id started.1 (created_service site.env inputs.stored) outcome k h f in
      length_seen seen_audit (settled_run request started).service.audit
        (first_audit site.env inputs.stored) _ took.audited
  run_request-audits request started outcome (err e) k h f =
      let stops =
        run-err viem started.0
          (with_service viem started.0 site describe inputs.processing
            (created_service site.env inputs.stored) inputs.out)
          request full_gas started.1 k in
      let impossible : err e ≡ ok outcome = sym (ap (λ x. x.0) stops) ∙ h in absurd (ground arith)

  run_request-consistent :
      (request : ExecutionRequest) (started : Setup × Runner) (answer : Result PipelineRunOutcome)
      (ran : PipelineRunOutcome × Layers)
      → (settled_run request started).outcome ≡ answer
      → run_request viem site describe inputs L3FsmState.triggered request started ≡ ok ran
      → ((ran.1.l3_state ≡ L3FsmState.settled) ↔ (ran.0.status ≡ finalized))
        × (ran.0.status ≡ finalized → length ran.1.settled.service.audit ≡ first_count + 1)
  unfolding run_request
  run_request-consistent request started (err e) ran k h =
      let left = settled_run request started in
      let stops = sym (ap (layers_of L3FsmState.triggered left) k) ∙ h in
      let impossible : err e ≡ ok ran = stops in absurd (ground arith)
  run_request-consistent request started (ok outcome) ran k h =
      let left = settled_run request started in
      let returns = ap (layers_of L3FsmState.triggered left) k in
      subst
        (λ (x : PipelineRunOutcome × Layers).
          ((x.1.l3_state ≡ L3FsmState.settled) ↔ (x.0.status ≡ finalized))
          × (x.0.status ≡ finalized → length x.1.settled.service.audit ≡ first_count + 1))
        (ok-injective (sym returns ∙ h))
        (
          l3_after-settled_iff outcome,
          λ f. run_request-audits request started outcome (run_id viem request) refl k f,
        )

-- Where the whole pipeline returns, layer 3 is settled exactly if the execution is finalized, and
-- then the audit trail has one record more than it had at first: none without a directory for the
-- settlement's data, and with one the records of the file in it.
pub run_full_pipeline-consistent :
    (viem : Viem) (site : Site) (describe : Failure → Text) (config : RunnerConfig)
    (contract_id : Text) (obligation : Obligation) (inputs : FullInputs) (hook : HookInputs)
    (r : FullPipelineResult)
    → run_full_pipeline viem site describe config contract_id obligation inputs hook ≡ ok r
    → ((r.l3_state ≡ L3FsmState.settled) ↔ (r.l4_status ≡ finalized))
      × (r.l4_status ≡ finalized → r.audit_count ≡ length (first_audit site.env inputs.stored) + 1)
unfolding run_full_pipeline run_layers trigger
run_full_pipeline-consistent viem site describe config contract_id obligation inputs hook r h =
    let (ran, ran_ok, digested) =
      bind-ok (run_layers viem site describe config contract_id obligation inputs)
        (λ ran. digest_after site describe hook ran.0 >>= λ digest. ok (full_result ran digest)) r
        h in
    let (digest, digest_ok, made) =
      bind-ok (digest_after site describe hook ran.0) (λ digest. ok (full_result ran digest)) r
        digested in
    let (request, request_ok, begun) =
      bind-ok
        (build_execution_request viem inputs.now_sec (full_request contract_id obligation)
          L3FsmState.triggered)
        (λ request. new_runner config inputs.created_at >>= λ started.
          run_request viem site describe inputs L3FsmState.triggered request started)
        ran ran_ok in
    let (pair, pair_ok, run_ok) =
      bind-ok (new_runner config inputs.created_at)
        (run_request viem site describe inputs L3FsmState.triggered request) ran begun in
    let (states, audits) =
      run_request-consistent viem site describe inputs request pair
        (settled_run viem site describe inputs request pair).outcome ran refl run_ok in
    let same = ok-injective made in
    subst
      (λ (x : FullPipelineResult).
        ((x.l3_state ≡ L3FsmState.settled) ↔ (x.l4_status ≡ finalized))
        × (x.l4_status ≡ finalized
            → x.audit_count ≡ length (first_audit site.env inputs.stored) + 1))
      same (states, audits)
