-- ===== src/Engine/Runner/Turns.antt =====
-- layer4/engine/src/pipelineRunner.ts: the body of `run` as turns. A turn goes from one `await` to
-- the next; between two turns of a run other runs of the same runner take theirs. The attempts of
-- one submission are taken in the turn that ends it: between them nothing of the runner changes.
pub mod Alone
pub mod Preparing
pub mod Effects
pub mod Pool
pub mod Apart
pub mod Interleaved
use creation_of_energy_token.Prelude.{
  ℕ, ◌/◌, true, false, ◌&&◌, not, List, [], ◌∷◌, ◌++◌, Option, none, some, Text, Bool,
  if◌then◌else◌,
}
use creation_of_energy_token.Prelude.Int.{pos}
use creation_of_energy_token.Engine.Types.{
  Lane, LaneState, ExecutionLaneStatus, RecordStatus, ExecutionRequest, ExecutionResult,
  TransactionRequest, default_gas_strategy, monitoring, arbitration, tx_reverted, finality,
  l5_not_acknowledged,
}
use creation_of_energy_token.Engine.External.{Viem}
use creation_of_energy_token.Engine.Handoff.{failure, validate_l3_request}
use creation_of_energy_token.Engine.Idempotency.{assert_not_in_flight, record_status}
use creation_of_energy_token.Engine.Breaker.{assert_closed}
use creation_of_energy_token.Engine.Nonce.{next}
use creation_of_energy_token.Engine.Gas.{enrich_with_gas}
use creation_of_energy_token.Engine.Submitter.{SubmitResult, submit_with_retry}
use creation_of_energy_token.Engine.Confirmation.{await_confirmations, is_confirmed}
use creation_of_energy_token.Engine.Runner.{PipelineRunOutcome, conclude}
use creation_of_energy_token.Engine.Runner.State.{
  Gate, basic, eip712, Setup, Runner, Outside, GasArgs, L5Ack, Exit, done, returned, thrown, Action,
  ◌>>=◌, ◌>>◌, of_result, lift, pure, modify, gets, report_if, report_some, is_some,
}
use creation_of_energy_token.Engine.Runner.Phases.{
  set_status, set_lanes, record_in_guard, authorize, is_on_chain, build_call, has_obligation,
  submit_to_network, finality_code, is_stuck, partial_result, ask_l5,
}

-- One call of `run`, whose execution has the id `id`.
pub record Job : Type 0 where
  pub out : Outside
  pub request : ExecutionRequest
  pub id : Text
  pub gas : GasArgs

-- What a run waits for, or how it ended. `started` is a call that has not taken its first turn.
pub data Wait : Type 0 where
  started for_signatures for_nonce : Wait
  for_network : TransactionRequest → Wait
  for_receipt for_confirmations for_l5 : SubmitResult → Wait
  ended : PipelineRunOutcome → Wait

-- How a turn ends: the run waits again, or its result is there.
pub data Pause : Type 0 where
  waits : Wait → Pause
  has_result : ExecutionResult → Pause

abbrev pub has_client : Setup → Bool
has_client setup = is_on_chain setup.config.submit_mode && is_some setup.config.safe_auth

abbrev pub ended_by : PipelineRunOutcome × Runner → Wait × Runner
ended_by (outcome, s) = (ended outcome, s)

-- What leaves the body is concluded in the same turn.
unfoldable pub settle_turn : Job → Exit Pause → Runner → Wait × Runner
settle_turn job (done (waits w)) s = (w, s)
settle_turn job (done (has_result r)) s = ended_by (conclude job.out job.id (done r) s)
settle_turn job (returned report) s = ended_by (conclude job.out job.id (returned report) s)
settle_turn job (thrown e) s = ended_by (conclude job.out job.id (thrown e) s)

module _ (viem : Viem) (setup : Setup) (job : Job) where
  -- Lines 163 to 222, after the nonce is there.
  unfoldable pub build_and_queue : ℕ → Action Pause
  build_and_queue nonce = do
    tx ← (λ s. (build_call viem setup job.request job.id nonce, s))
    modify (set_lanes (λ l. record l { txb = LaneState.completed }))
    modify (record_in_guard job.id RecordStatus.queued none job.out.queued_at)
    modify (set_status ExecutionLaneStatus.submitting)
    pure (
        waits (
          for_network (
            enrich_with_gas tx job.gas.estimated_gas job.gas.base_fee job.gas.priority_fee
              default_gas_strategy)))

  -- Line 161: the local nonce.
  unfoldable pub next_nonce : Action ℕ
  next_nonce s =
      let (nonce, nonces) = next s.nonces setup.config.relayer_address in
      (done nonce, record s { nonces = nonces })

  -- Lines 136 to 161, after the signatures are checked. The nonce of the chain is waited for.
  unfoldable pub after_signatures : Action Pause
  unfolding next_nonce build_and_queue
  after_signatures = do
    modify (set_lanes (λ l. record l { auth = LaneState.completed }))
    modify (set_status ExecutionLaneStatus.authorizing)
    lift (has_obligation job.request.obligations)
    (elim (has_client setup) as (λ b. Action Pause) [
      | true ↦ pure (waits for_nonce)
      | false ↦ (do nonce ← next_nonce; build_and_queue nonce)
    ])

  -- Lines 118 to 135. The check of a Safe's signatures is waited for, the basic one is not.
  unfoldable pub begin : Action Pause
  unfolding after_signatures
  begin = do
    breaker ← gets (λ s. s.breaker)
    lift (assert_closed breaker)
    modify (set_lanes (λ l. record l { sft = LaneState.running }))
    guard ← gets (λ s. s.guard)
    lift (assert_not_in_flight guard job.id)
    report ← lift (validate_l3_request viem job.request (pos (job.out.started_at / 1000)))
    report_some report
    modify (set_lanes (λ l. record l { ctl = LaneState.completed }))
    modify (set_status ExecutionLaneStatus.preparing)
    (elim setup.gate as (λ g. Action Pause) [
      | eip712 config ↦ pure (waits for_signatures)
      | basic threshold ↦ (do
        lift (authorize viem setup job.out job.request job.id)
        after_signatures)
    ])

  -- Lines 223 to 231, after the network has answered.
  unfoldable pub after_network : TransactionRequest → Action Pause
  unfolding submit_to_network
  after_network tx = do
    result ← submit_to_network setup job.out job.id tx
    modify
        (record_in_guard job.id RecordStatus.submitted (some result.tx_hash) job.out.submitted_at)
    modify (set_lanes (λ l. record l { net = LaneState.completed }))
    modify (set_status ExecutionLaneStatus.confirming)
    pure (waits (if has_client setup then for_receipt result else for_confirmations result))

  -- Lines 232 to 243.
  unfoldable pub after_receipt : SubmitResult → Action Pause
  after_receipt result = do
    success ← lift job.out.receipt_success
    report_if (not success)
        (failure job.id Lane.net 1201 true monitoring (tx_reverted result.tx_hash))
    pure (waits (for_confirmations result))

  -- Lines 246 to 275: the result is handed to layer 5.
  unfoldable pub after_confirmations : SubmitResult → Action Pause
  after_confirmations result = do
    let fin = await_confirmations result.tx_hash result.submitted_at_block
    report_if (not (is_confirmed fin.status)) (
        failure job.id Lane.fin (finality_code fin.status) (is_stuck fin.status) arbitration
          (finality fin.status))
    modify (set_lanes (λ l. record l { fin = LaneState.completed }))
    modify (set_status ExecutionLaneStatus.awaiting_l5)
    modify (λ s. record s {
      handed_over = s.handed_over ++ partial_result job.request job.id job.gas result ∷ [];
    })
    pure (waits (for_l5 result))

  -- Lines 275 to 301, after layer 5 has answered.
  unfoldable pub after_l5 : SubmitResult → Action Pause
  after_l5 result = do
    let partial = partial_result job.request job.id job.gas result
    ack ← lift (job.out.l5 partial)
    report_if (not ack.acknowledged)
        (failure job.id Lane.fin 1200 true monitoring l5_not_acknowledged)
    modify
        (record_in_guard job.id RecordStatus.finalized (some result.tx_hash) job.out.finalized_at)
    modify (set_status ExecutionLaneStatus.finalized)
    pure (
        has_result (record partial {
          proof_ids = ack.proof_ids;
          regulatory_report_cid = ack.regulatory_report_cid;
        }))

  unfoldable pub resume : Wait → Action Pause
  unfolding begin after_signatures build_and_queue after_network after_receipt after_confirmations
      after_l5
  resume started = begin
  resume for_signatures = (do
    lift (authorize viem setup job.out job.request job.id)
    after_signatures)
  resume for_nonce = (do nonce ← lift job.out.transaction_count; build_and_queue nonce)
  resume (for_network tx) = after_network tx
  resume (for_receipt result) = after_receipt result
  resume (for_confirmations result) = after_confirmations result
  resume (for_l5 result) = after_l5 result
  resume (ended outcome) = pure (waits (ended outcome))

  unfoldable pub turn : Wait → Runner → Wait × Runner
  unfolding resume settle_turn
  turn w s = let (r, s') = resume w s in settle_turn job r s'
