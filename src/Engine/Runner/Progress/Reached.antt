-- ===== src/Engine/Runner/Progress/Reached.antt =====
-- The body of `run` comes as far as Progress says, and no other way.
use creation_of_energy_token.Prelude.{
  ◌≡◌, refl, inl, inr, List, [], ◌∷◌, ◌++◌, none, some, Text, arith, sym, ◌∙◌, ap, subst,
}
use creation_of_energy_token.Engine.Types.{
  RecordStatus, ExecutionRequest, ExecutionResult, TransactionRequest, Result, ok, err,
  Result-cases, Exn,
}
use creation_of_energy_token.Engine.External.{Viem}
use creation_of_energy_token.Engine.Idempotency.{record_status}
use creation_of_energy_token.Engine.Submitter.{Submission, SubmitResult, submit_with_retry}
use creation_of_energy_token.Engine.Runner.{execute}
use creation_of_energy_token.Engine.Runner.State.{
  Setup, Runner, Outside, GasArgs, Exit, done, Exit-cases, >>=-done, >>=-stopped, >>=-thrown, ◌>>=◌,
}
use creation_of_energy_token.Engine.Runner.Phases.{
  admit, build_tx, submit_tx, partial_result, finish,
}
use creation_of_energy_token.Engine.Runner.Effects.{
  SameTrace, IsAdmitted, admit-SameTrace, admit-done_iff, build_tx-SameTrace, queued_guard,
  submitted_guard, submit_tx-trace, submit_tx_refused, submit_tx_sent, finish-trace, finish-stopped,
  finish-done,
}
use creation_of_energy_token.Engine.Runner.Progress.{
  Handed, Progress, before_network, refused, unconfirmed, unacknowledged, completed,
}

module _ (viem : Viem) (setup : Setup) (out : Outside) (request : ExecutionRequest) (id : Text)
    (gas : GasArgs) where
  abbrev HandedTo : Runner → Runner → TransactionRequest → Submission → Type 0
  HandedTo s t tx submitted = Handed viem setup out request id gas s t tx submitted

  -- The state in which each phase begins.
  abbrev admitted_state : Runner → Runner
  admitted_state s = (admit viem setup out request id s).1

  abbrev built_state : Runner → Runner
  built_state s = (build_tx viem setup out request id gas (admitted_state s)).1

  abbrev submitted_state : Runner → TransactionRequest → Runner
  submitted_state s tx = (submit_tx setup out id tx (built_state s)).1

  built-SameTrace : (s : Runner) → SameTrace s (built_state s)
  built-SameTrace s = ground (
    arith,
    admit-SameTrace viem setup out request id s,
    build_tx-SameTrace viem setup out request id gas (admitted_state s),
  )

  submitted-Handed :
      (s : Runner) (tx : TransactionRequest) {r : Submission}
      → IsAdmitted viem setup out request id s
      → submit_with_retry setup.submitter out.network tx ≡ r
      → HandedTo s (submitted_state s tx) tx r
  submitted-Handed s tx a h =
      ground (arith, built-SameTrace s, submit_tx-trace setup out id tx (built_state s))

  abbrev pub at_finish : SubmitResult → Runner → Exit ExecutionResult × Runner
  at_finish submitted = finish out request id gas submitted

  abbrev pub at_submit : TransactionRequest → Runner → Exit ExecutionResult × Runner
  at_submit tx = do submitted ← submit_tx setup out id tx; finish out request id gas submitted

  abbrev pub at_build : Unit {0} → Runner → Exit ExecutionResult × Runner
  at_build _ = do tx ← build_tx viem setup out request id gas; at_submit tx

  abbrev Reaches : Runner → Exit ExecutionResult × Runner → Type 0
  Reaches s x = Progress viem setup out request id gas s x.0 x.1

  abbrev attempts_of : TransactionRequest → Submission
  attempts_of tx = submit_with_retry setup.submitter out.network tx

  pair_of :
      (tx : TransactionRequest) {r : Result SubmitResult}
      → (attempts_of tx).0 ≡ r
      → attempts_of tx ≡ (r, (attempts_of tx).1)
  pair_of tx h = λ i. (h i, (attempts_of tx).1)

  queued :
      (s : Runner) (tx : TransactionRequest) (e : Exn)
      → (submit_with_retry setup.submitter out.network tx).0 ≡ err e
      → (submitted_state s tx).guard ≡ queued_guard out id s
  queued s tx e h =
      (submit_tx_refused setup out id tx (built_state s) h).1
      ∙ ap (λ g. record_status g id RecordStatus.queued none out.queued_at)
          (built-SameTrace s).guard

  marked :
      (s : Runner) (tx : TransactionRequest) (result : SubmitResult)
      → (submit_with_retry setup.submitter out.network tx).0 ≡ ok result
      → (submitted_state s tx).guard ≡ submitted_guard out id result.tx_hash s
  marked s tx result h =
      (submit_tx_sent setup out id tx (built_state s) h).0
      ∙ ap
          (λ g.
            record_status (record_status g id RecordStatus.queued none out.queued_at) id
              RecordStatus.submitted (some result.tx_hash) out.submitted_at)
          (built-SameTrace s).guard

  handed :
      (s : Runner) (tx : TransactionRequest) → (submitted_state s tx).handed_over ≡ s.handed_over
  handed s tx =
      (submit_tx-trace setup out id tx (built_state s)).1 ∙ (built-SameTrace s).handed_over

  finished-Handed :
      (s : Runner) (tx : TransactionRequest) (result : SubmitResult)
      (sent : List TransactionRequest)
      → IsAdmitted viem setup out request id s
      → submit_with_retry setup.submitter out.network tx ≡ (ok result, sent)
      → HandedTo s (at_finish result (submitted_state s tx)).1 tx (ok result, sent)
  finished-Handed s tx result sent a h = ground (
    arith,
    submitted-Handed s tx a h,
    finish-trace out request id gas result (submitted_state s tx),
  )

  finish-Reaches :
      (s : Runner) (tx : TransactionRequest) (result : SubmitResult)
      (sent : List TransactionRequest)
      → IsAdmitted viem setup out request id s
      → submit_with_retry setup.submitter out.network tx ≡ (ok result, sent)
      → Reaches s (at_finish result (submitted_state s tx))
  finish-Reaches s tx result sent a h =
      let handed' = finished-Handed s tx result sent a h in
      let given =
        (finish-trace out request id gas result (submitted_state s tx)).2
        ∙ ap (λ l. l ++ partial_result request id gas result ∷ []) (handed s tx) in
      elim (Exit-cases (at_finish result (submitted_state s tx)).0) [
        | inr stop ↦
            unacknowledged tx result sent handed' stop
              (finish-stopped out request id gas result (submitted_state s tx) stop
                ∙ marked s tx result (ap (λ x. x.0) h))
              given
        | inl (r, e) ↦
            let (ack, answer, acked, same, guard) =
              finish-done out request id gas result (submitted_state s tx) r e in
            completed tx result sent ack handed' answer acked (e ∙ ap done same)
              (guard
                ∙ ap
                    (λ g.
                      record_status g id RecordStatus.finalized (some result.tx_hash)
                        out.finalized_at)
                    (marked s tx result (ap (λ x. x.0) h)))
              given
      ]

  submit-Reaches :
      (s : Runner) (tx : TransactionRequest)
      → IsAdmitted viem setup out request id s
      → Reaches s (at_submit tx (built_state s))
  submit-Reaches s tx a = elim (Result-cases (submit_with_retry setup.submitter out.network tx).0) [
    | inr (e, h) ↦
        subst (Reaches s)
          (sym (
            >>=-thrown (submit_tx setup out id tx) (λ r. at_finish r) (built_state s)
              (submit_tx_refused setup out id tx (built_state s) h).0))
          (refused tx e (attempts_of tx).1 (submitted-Handed s tx a (pair_of tx h)) refl
            (queued s tx e h) (handed s tx))
    | inl (result, h) ↦ elim (Exit-cases (submit_tx setup out id tx (built_state s)).0) [
      | inr stop ↦
          let p = >>=-stopped (submit_tx setup out id tx) (λ r. at_finish r) (built_state s) stop in
          subst (λ t. Progress viem setup out request id gas s (at_submit tx (built_state s)).0 t)
            (sym p.1)
            (unconfirmed tx result (attempts_of tx).1 (submitted-Handed s tx a (pair_of tx h)) p.0
              (marked s tx result h) (handed s tx))
      | inl (r, e) ↦
          subst (Reaches s)
            (sym (>>=-done (submit_tx setup out id tx) (λ r. at_finish r) (built_state s) e))
            (subst (λ x. Reaches s (at_finish x (submitted_state s tx)))
              (sym ((submit_tx_sent setup out id tx (built_state s) h).1 r e))
              (finish-Reaches s tx result (attempts_of tx).1 a (pair_of tx h)))
    ]
  ]

  build-Reaches :
      (s : Runner)
      → IsAdmitted viem setup out request id s
      → Reaches s (at_build tt (admitted_state s))
  build-Reaches s a =
      elim (Exit-cases (build_tx viem setup out request id gas (admitted_state s)).0) [
        | inr stop ↦
            let p =
              >>=-stopped (build_tx viem setup out request id gas) at_submit (admitted_state s)
                stop in
            before_network p.0 (subst (SameTrace s) (sym p.1) (built-SameTrace s))
        | inl (tx, e) ↦
            subst (Reaches s)
              (sym
                (>>=-done (build_tx viem setup out request id gas) at_submit (admitted_state s) e))
              (submit-Reaches s tx a)
      ]

  -- Every run of the body ends in one of the five ways.
  pub execute-Progress : (s : Runner) → Reaches s (execute viem setup out request id gas s)
  unfolding execute
  execute-Progress s = elim (Exit-cases (admit viem setup out request id s).0) [
    | inr stop ↦
        let p = >>=-stopped (admit viem setup out request id) at_build s stop in
        before_network p.0
          (subst (SameTrace s) (sym p.1) (admit-SameTrace viem setup out request id s))
    | inl (u, e) ↦
        subst (Reaches s) (sym (>>=-done (admit viem setup out request id) at_build s e))
          (build-Reaches s ((admit-done_iff viem setup out request id s).0 e))
  ]
