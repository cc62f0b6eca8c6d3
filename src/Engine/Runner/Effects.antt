-- ===== src/Engine/Runner/Effects.antt =====
-- What each phase of a run leaves alone, and what it has checked when it goes on.
use creation_of_energy_token.Prelude.{
  ◌/◌, ◌≡◌, ◌↔◌, inl, inr, true, false, [], ◌∷◌, ◌++◌, none, some, Text, arith,
}
use creation_of_energy_token.Prelude.Int.{pos}
use creation_of_energy_token.Engine.Types.{
  RecordStatus, ExecutionRequest, ExecutionResult, TransactionRequest, ok, err, Result-cases, Exn,
}
use creation_of_energy_token.Engine.External.{Viem}
use creation_of_energy_token.Engine.Handoff.{validate_l3_request}
use creation_of_energy_token.Engine.Idempotency.{Guard, assert_not_in_flight, record_status}
use creation_of_energy_token.Engine.Breaker.{assert_closed}
use creation_of_energy_token.Engine.Submitter.{Submission, SubmitResult, submit_with_retry}
use creation_of_energy_token.Engine.Confirmation.Laws.{await_confirmations_confirms}
use creation_of_energy_token.Engine.Runner.State.{
  Setup, Runner, Outside, GasArgs, L5Ack, done, thrown, is_done,
}
use creation_of_energy_token.Engine.Runner.Phases.{
  authorize, admit, take_nonce, build_tx, tagged, submit_to_network, check_receipt, submit_tx,
  partial_result, ask_l5, finish,
}

-- The parts of the state that decide about later runs and that the outside sees.
pub record SameTrace (s t : Runner) : Type 0 where
  pub guard : t.guard ≡ s.guard
  pub breaker : t.breaker ≡ s.breaker
  pub sent : t.sent ≡ s.sent
  pub handed_over : t.handed_over ≡ s.handed_over

module _ (viem : Viem) (setup : Setup) (out : Outside) (request : ExecutionRequest)
    (id : Text) where
  pub admit-SameTrace : (s : Runner) → SameTrace s (admit viem setup out request id s).1
  unfolding admit
  admit-SameTrace s = ground arith

  -- What `admit` has checked.
  pub record IsAdmitted (s : Runner) : Type 0 where
    pub closed : s.breaker.is_open ≡ false
    pub fresh : assert_not_in_flight s.guard id ≡ ok tt
    pub gates : validate_l3_request viem request (pos (out.started_at / 1000)) ≡ ok none
    pub signed : authorize viem setup out request id ≡ ok tt

  pub admit-done_iff :
      (s : Runner) → ((admit viem setup out request id s).0 ≡ done tt) ↔ IsAdmitted s
  unfolding admit assert_closed
  admit-done_iff s = ground arith

  pub build_tx-SameTrace :
      (gas : GasArgs) (s : Runner) → SameTrace s (build_tx viem setup out request id gas s).1
  unfolding build_tx take_nonce
  build_tx-SameTrace gas s = ground arith

abbrev pub queued_guard : Outside → Text → Runner → Guard
queued_guard out id s = record_status s.guard id RecordStatus.queued none out.queued_at

abbrev pub submitted_guard : Outside → Text → Text → Runner → Guard
submitted_guard out id tx_hash s =
    record_status (queued_guard out id s) id RecordStatus.submitted (some tx_hash) out.submitted_at

module _ (setup : Setup) (out : Outside) (id : Text) (tx : TransactionRequest) where
  abbrev submission : Submission
  submission = submit_with_retry setup.submitter out.network tx

  -- What the phase leaves, whatever the network answers.
  pub submit_tx-trace :
      (s : Runner)
      → let t = (submit_tx setup out id tx s).1 in
        (t.breaker ≡ s.breaker)
        × (t.handed_over ≡ s.handed_over)
        × (t.sent ≡ s.sent ++ tagged id (submit_with_retry setup.submitter out.network tx).1)
  unfolding submit_tx submit_to_network check_receipt
  submit_tx-trace s = ground arith

  -- No attempt succeeds: the error is thrown, and the guard keeps the execution as QUEUED.
  pub submit_tx_refused :
      (s : Runner) {e : Exn}
      → (submit_with_retry setup.submitter out.network tx).0 ≡ err e
      → ((submit_tx setup out id tx s).0 ≡ thrown e)
        × ((submit_tx setup out id tx s).1.guard ≡ queued_guard out id s)
  unfolding submit_tx submit_to_network
  submit_tx_refused s h = ground arith

  -- An attempt succeeds: the guard has the execution as SUBMITTED, also if the receipt says that
  -- the transaction was reverted; the phase goes on with that attempt's result or not at all.
  pub submit_tx_sent :
      (s : Runner) {result : SubmitResult}
      → (submit_with_retry setup.submitter out.network tx).0 ≡ ok result
      → ((submit_tx setup out id tx s).1.guard ≡ submitted_guard out id result.tx_hash s)
        × ((r : SubmitResult) → (submit_tx setup out id tx s).0 ≡ done r → r ≡ result)
  unfolding submit_tx submit_to_network check_receipt
  submit_tx_sent s {result} h = (ground arith, λ r e. ground arith)

module _ (out : Outside) (request : ExecutionRequest) (id : Text) (gas : GasArgs)
    (submitted : SubmitResult) where
  pub finish-trace :
      (s : Runner)
      → let t = (finish out request id gas submitted s).1 in
        (t.breaker ≡ s.breaker)
        × (t.sent ≡ s.sent)
        × (t.handed_over ≡ s.handed_over ++ partial_result request id gas submitted ∷ [])
  unfolding finish ask_l5
  finish-trace s =
      ground (arith, await_confirmations_confirms submitted.tx_hash submitted.submitted_at_block)

  -- Where the phase does not go on, the guard stays as it was.
  pub finish-stopped :
      (s : Runner)
      → is_done (finish out request id gas submitted s).0 ≡ false
      → (finish out request id gas submitted s).1.guard ≡ s.guard
  unfolding finish ask_l5
  finish-stopped s h = ground arith

  pub finish-done :
      (s : Runner) (r : ExecutionResult)
      → (finish out request id gas submitted s).0 ≡ done r
      → (ack : L5Ack) × (out.l5 (partial_result request id gas submitted) ≡ ok ack)
        × (ack.acknowledged ≡ true)
        × (r ≡ record (partial_result request id gas submitted) {
          proof_ids = ack.proof_ids;
          regulatory_report_cid = ack.regulatory_report_cid;
        })
        × ((finish out request id gas submitted s).1.guard
            ≡ record_status s.guard id RecordStatus.finalized
                (some submitted.tx_hash)
                out.finalized_at)
  unfolding finish ask_l5
  finish-done s r h = elim (Result-cases (out.l5 (partial_result request id gas submitted))) [
    | inl (ack, e) ↦ (ack, e, ground arith, ground arith, ground arith)
    | inr (x, e) ↦ absurd (ground arith)
  ]
