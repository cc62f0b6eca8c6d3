-- ===== src/Engine/Runner/Turns/Preparing.antt =====
-- The turns before the transaction goes to the network: each ends the run, or leaves it waiting
-- with at most a queued record.
use creation_of_energy_token.Engine.Runner.{
  ExecutionLaneStatus, Action, Exit, Option, LaneStates, Result, modify, FailureReport, ℕ, done,
  set_lanes, returned, thrown, pure, pos,
}
use creation_of_energy_token.Prelude.{
  refl, ℕ, Option, Bool, true, false, ◌≡◌, ◌⊎◌, inl, inr, none, some, arith, ◌∙◌, ap, ◌/◌,
}
use creation_of_energy_token.Engine.Types.{
  RecordStatus, Result, FailureReport, ExecutionLaneStatus, LaneStates, ok, Result-cases, LaneState,
}
use creation_of_energy_token.Engine.External.{Viem}
use creation_of_energy_token.Engine.Idempotency.{Guard, assert_not_in_flight, record_status}
use creation_of_energy_token.Engine.Runner.State.{
  Setup, Runner, lift, report_some, ◌>>=◌, gets, Gate, eip712, basic, ◌>>◌,
}
use creation_of_energy_token.Engine.Runner.Phases.{set_status, has_obligation, authorize}
use creation_of_energy_token.Engine.Runner.Turns.{
  Job, Wait, for_signatures, for_nonce, for_receipt, for_confirmations, for_l5, ended, Pause, waits,
  build_and_queue, next_nonce, after_signatures, begin, has_client, next_nonce, after_signatures,
  begin, build_and_queue, Pause, waits, assert_closed, validate_l3_request,
}

-- How far a run is: before its transaction was accepted, before its result was handed over, before
-- layer 5 has answered, or at its end.
pub data Stage : Type 0 where
  early late last over : Stage

abbrev pub stage : Wait → Stage
stage (for_receipt result) = late
stage (for_confirmations result) = late
stage (for_l5 result) = last
stage (ended outcome) = over
stage _ = early

abbrev pub queued_in : Job → Guard → Guard
queued_in job g = record_status g job.id RecordStatus.queued none job.out.queued_at

-- How far the end of a turn's body leaves the run.
abbrev pub exit_stage : Exit Pause → Stage
exit_stage (done (waits w)) = stage w
exit_stage _ = over

-- The turn only prepares the transaction: the guard is told at most that it is queued, and that
-- only where the run goes on.
abbrev pub Prepares : Job → Runner → Exit Pause × Runner → Type 0
Prepares job s (r, t) =
    (t.handed_over ≡ s.handed_over)
    × (((exit_stage r ≡ over) × (t.guard ≡ s.guard))
        ⊎ ((exit_stage r ≡ early) × ((t.guard ≡ s.guard) ⊎ (t.guard ≡ queued_in job s.guard))))

-- The guard and what was handed over stay.
pub record IsSilent {A : Type 0} (m : Action A) : Type 0 where
  guard : (s : Runner) → (m s).1.guard ≡ s.guard
  handed_over : (s : Runner) → (m s).1.handed_over ≡ s.handed_over

pub lift-IsSilent : {A : Type 0} (r : Result A) → IsSilent (lift r)
lift-IsSilent r = record { guard = λ s. refl; handed_over = λ s. refl }

gets-IsSilent : {A : Type 0} (f : Runner → A) → IsSilent (gets f)
gets-IsSilent f = record { guard = λ s. refl; handed_over = λ s. refl }

report_some-IsSilent : (report : Option FailureReport) → IsSilent (report_some report)
report_some-IsSilent none = record { guard = λ s. refl; handed_over = λ s. refl }
report_some-IsSilent (some report) = record { guard = λ s. refl; handed_over = λ s. refl }

set_status-IsSilent : (status : ExecutionLaneStatus) → IsSilent (modify (set_status status))
set_status-IsSilent status = record { guard = λ s. refl; handed_over = λ s. refl }

set_lanes-IsSilent : (f : LaneStates → LaneStates) → IsSilent (modify (set_lanes f))
set_lanes-IsSilent f = record { guard = λ s. refl; handed_over = λ s. refl }

-- An action whose turn only prepares, in every state.
pub record IsPreparing (job : Job) (m : Action Pause) : Type 0 where
  pub prepares : (s : Runner) → Prepares job s (m s)

-- What is left to do after an exit.
abbrev continued : {A : Type 0} → (A → Action Pause) → Exit A × Runner → Exit Pause × Runner
continued k (r, t) = elim r [
  | done a ↦ k a t
  | returned report ↦ (returned report, t)
  | thrown e ↦ (thrown e, t)
]

continued-Prepares :
    (job : Job) (s : Runner) {A : Type 0} (k : A → Action Pause)
    → ((a : A) → IsPreparing job (k a))
    → (r : Exit A) (t : Runner) → t.guard ≡ s.guard
    → t.handed_over ≡ s.handed_over
    → Prepares job s (continued k (r, t))
continued-Prepares job s k h (done a) t guard handed_over =
    let (o, effect) = (h a).prepares t in
    (
      o ∙ handed_over,
      elim effect [
        | inl (e, same) ↦ inl (e, same ∙ guard)
        | inr (e, inl same) ↦ inr (e, inl (same ∙ guard))
        | inr (e, inr queued) ↦ inr (e, inr (queued ∙ ap (queued_in job) guard))
      ],
    )
continued-Prepares job s k h (returned report) t guard handed_over =
    (handed_over, inl (refl, guard))
continued-Prepares job s k h (thrown e) t guard handed_over = (handed_over, inl (refl, guard))

pub >>=-IsPreparing :
    (job : Job) {A : Type 0} {m : Action A} {k : A → Action Pause}
    → IsSilent m
    → ((a : A) → IsPreparing job (k a))
    → IsPreparing job (m >>= k)
>>=-IsPreparing job {A} {m} {k} silent h = record {
  prepares =
      λ s. continued-Prepares job s k h (m s).0 (m s).1 (silent.guard s) (silent.handed_over s);
}

module _ (viem : Viem) (setup : Setup) (job : Job) where
  pub build_and_queue-IsPreparing :
      (nonce : ℕ) → IsPreparing job (build_and_queue viem setup job nonce)
  unfolding build_and_queue
  build_and_queue-IsPreparing nonce = record { prepares = λ s. ground arith }

  next_nonce-IsSilent : IsSilent (next_nonce viem setup job)
  unfolding next_nonce
  next_nonce-IsSilent = record { guard = λ s. refl; handed_over = λ s. refl }

  waits-IsPreparing : (w : Wait) → stage w ≡ early → IsPreparing job (pure (waits w))
  waits-IsPreparing w e = record { prepares = λ s. (refl, inr (e, inl refl)) }

  ready-IsPreparing :
      (b : Bool)
      → IsPreparing job (elim b as (λ b. Action Pause) [
        | true ↦ pure (waits for_nonce)
        | false ↦ (do nonce ← next_nonce viem setup job; build_and_queue viem setup job nonce)
      ])
  ready-IsPreparing true = waits-IsPreparing for_nonce refl
  ready-IsPreparing false = >>=-IsPreparing job next_nonce-IsSilent build_and_queue-IsPreparing

  after_signatures-IsPreparing : IsPreparing job (after_signatures viem setup job)
  unfolding after_signatures
  after_signatures-IsPreparing =
      >>=-IsPreparing job (set_lanes-IsSilent (λ l. record l { auth = LaneState.completed })) (λ _.
        >>=-IsPreparing job (set_status-IsSilent ExecutionLaneStatus.authorizing) (λ _.
          >>=-IsPreparing job (lift-IsSilent (has_obligation job.request.obligations))
            (λ _. ready-IsPreparing (has_client setup))))

  pub authorized-IsPreparing :
      IsPreparing job
        (do lift (authorize viem setup job.out job.request job.id); after_signatures viem setup job)
  authorized-IsPreparing =
      >>=-IsPreparing job (lift-IsSilent (authorize viem setup job.out job.request job.id))
        (λ _. after_signatures-IsPreparing)

  signed-IsPreparing :
      (gate : Gate)
      → IsPreparing job (elim gate as (λ g. Action Pause) [
        | eip712 config ↦ pure (waits for_signatures)
        | basic threshold ↦ (do
          lift (authorize viem setup job.out job.request job.id)
          after_signatures viem setup job)
      ])
  signed-IsPreparing (eip712 config) = waits-IsPreparing for_signatures refl
  signed-IsPreparing (basic threshold) = authorized-IsPreparing

  pub begin-IsPreparing : IsPreparing job (begin viem setup job)
  unfolding begin
  begin-IsPreparing =
      let validated = validate_l3_request viem job.request (pos (job.out.started_at / 1000)) in
      >>=-IsPreparing job (gets-IsSilent (λ s. s.breaker)) (λ breaker.
        >>=-IsPreparing job (lift-IsSilent (assert_closed breaker)) (λ _.
          >>=-IsPreparing job (set_lanes-IsSilent (λ l. record l { sft = LaneState.running })) (λ _.
            >>=-IsPreparing job (gets-IsSilent (λ s. s.guard)) (λ guard.
              >>=-IsPreparing job (lift-IsSilent (assert_not_in_flight guard job.id)) (λ _.
                >>=-IsPreparing job (lift-IsSilent validated) (λ report.
                  >>=-IsPreparing job (report_some-IsSilent report) (λ _.
                    >>=-IsPreparing job
                      (set_lanes-IsSilent (λ l. record l { ctl = LaneState.completed }))
                      (λ _.
                        >>=-IsPreparing job (set_status-IsSilent ExecutionLaneStatus.preparing)
                          (λ _. signed-IsPreparing setup.gate)))))))))

  pub begin-fresh :
      (s : Runner)
      → exit_stage (begin viem setup job s).0 ≡ early
      → assert_not_in_flight s.guard job.id ≡ ok tt
  unfolding begin
  begin-fresh s h = elim (Result-cases (assert_not_in_flight s.guard job.id)) [
    | inl (u, e) ↦ e
    | inr (x, e) ↦ absurd (ground arith)
  ]
