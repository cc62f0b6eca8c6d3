-- ===== src/Engine/Runner/Turns/Alone.antt =====
-- A run whose turns follow one another is the run of Engine/Runner.antt, and ends after seven
-- turns at most.
use creation_of_energy_token.Engine.Runner.Ending.{run-ok}
use creation_of_energy_token.Prelude.{
  ◌≡◌, not, true, some, arith, ◌≤◌, ◌-◌, zero, suc, ◌∙◌, ap, refl, sym,
}
use creation_of_energy_token.Engine.Types.{
  LaneState, ExecutionLaneStatus, RecordStatus, ExecutionResult, monitoring, Lane,
  l5_not_acknowledged, TransactionRequest,
}
use creation_of_energy_token.Engine.External.{Viem}
use creation_of_energy_token.Engine.Handoff.{failure, compute_execution_id}
use creation_of_energy_token.Engine.Gas.{enrich_with_gas}
use creation_of_energy_token.Engine.Submitter.{SubmitResult}
use creation_of_energy_token.Engine.Runner.{execute, conclude, ℕ, PipelineRunOutcome, run, pos, ok}
use creation_of_energy_token.Engine.Runner.State.{
  Setup, Runner, Action, ◌>>=◌, ◌>>◌, lift, pure, modify, report_if,
}
use creation_of_energy_token.Engine.Runner.Phases.{
  set_status, set_lanes, record_in_guard, submit_to_network, check_receipt, partial_result, finish,
  build_call, authorize, take_nonce, ask_l5, admit, build_tx, submit_tx,
}
use creation_of_energy_token.Engine.Runner.Turns.{
  Job, ended_by, Wait, turn, has_client, for_l5, for_network, default_gas_strategy, for_receipt,
  for_confirmations, started, for_signatures, for_nonce, ended,
}

module _ (viem : Viem) (setup : Setup) (job : Job) where
  -- What is left of the body of `run` at each wait.
  abbrev rest_l5 : SubmitResult → Action ExecutionResult
  rest_l5 result = do
    let partial = partial_result job.request job.id job.gas result
    ack ← lift (job.out.l5 partial)
    report_if (not ack.acknowledged)
        (failure job.id Lane.fin 1200 true monitoring l5_not_acknowledged)
    modify
        (record_in_guard job.id RecordStatus.finalized (some result.tx_hash) job.out.finalized_at)
    modify (set_status ExecutionLaneStatus.finalized)
    pure (record partial {
      proof_ids = ack.proof_ids;
      regulatory_report_cid = ack.regulatory_report_cid;
    })

  abbrev rest_confirmations : SubmitResult → Action ExecutionResult
  rest_confirmations result = finish job.out job.request job.id job.gas result

  abbrev rest_receipt : SubmitResult → Action ExecutionResult
  rest_receipt result = do
    check_receipt setup job.out job.id result.tx_hash
    rest_confirmations result

  abbrev rest_network : TransactionRequest → Action ExecutionResult
  rest_network tx = do
    result ← submit_to_network setup job.out job.id tx
    modify
        (record_in_guard job.id RecordStatus.submitted (some result.tx_hash) job.out.submitted_at)
    modify (set_lanes (λ l. record l { net = LaneState.completed }))
    modify (set_status ExecutionLaneStatus.confirming)
    rest_receipt result

  abbrev rest_build : Action ExecutionResult
  rest_build = do
    tx ← build_tx viem setup job.out job.request job.id job.gas
    result ← submit_tx setup job.out job.id tx
    rest_confirmations result

  abbrev rest_signatures : Action ExecutionResult
  rest_signatures = do
    lift (authorize viem setup job.out job.request job.id)
    modify (set_lanes (λ l. record l { auth = LaneState.completed }))
    modify (set_status ExecutionLaneStatus.authorizing)
    rest_build

  abbrev rest_nonce : Action ExecutionResult
  rest_nonce = do
    nonce ← lift job.out.transaction_count
    tx ← (λ s. (build_call viem setup job.request job.id nonce, s))
    modify (set_lanes (λ l. record l { txb = LaneState.completed }))
    result ← submit_tx setup job.out job.id (
        enrich_with_gas tx job.gas.estimated_gas job.gas.base_fee job.gas.priority_fee
          default_gas_strategy)
    rest_confirmations result

  -- How the run will have ended, if it takes its turns alone from here.
  unfoldable pub meaning : Wait → Runner → Wait × Runner
  meaning started s =
      let (r, t) = execute viem setup job.out job.request job.id job.gas s in
      ended_by (conclude job.out job.id r t)
  meaning for_signatures s =
      let (r, t) = rest_signatures s in ended_by (conclude job.out job.id r t)
  meaning for_nonce s = let (r, t) = rest_nonce s in ended_by (conclude job.out job.id r t)
  meaning (for_network tx) s =
      let (r, t) = rest_network tx s in ended_by (conclude job.out job.id r t)
  meaning (for_receipt result) s =
      let (r, t) = rest_receipt result s in ended_by (conclude job.out job.id r t)
  meaning (for_confirmations result) s =
      let (r, t) = rest_confirmations result s in ended_by (conclude job.out job.id r t)
  meaning (for_l5 result) s =
      let (r, t) = rest_l5 result s in ended_by (conclude job.out job.id r t)
  meaning (ended outcome) s = (ended outcome, s)

  abbrev next_meaning : Wait × Runner → Wait × Runner
  next_meaning (w, s) = meaning w s

  turn_l5 :
      (result : SubmitResult) (s : Runner)
      → next_meaning (turn viem setup job (for_l5 result) s) ≡ meaning (for_l5 result) s
  unfolding turn meaning
  turn_l5 result s = ground arith

  turn_confirmations :
      (result : SubmitResult) (s : Runner)
      → next_meaning (turn viem setup job (for_confirmations result) s)
        ≡ meaning (for_confirmations result) s
  unfolding turn meaning finish ask_l5
  turn_confirmations result s = ground arith

  turn_receipt :
      (result : SubmitResult) (s : Runner)
      → has_client setup ≡ true
      → next_meaning (turn viem setup job (for_receipt result) s) ≡ meaning (for_receipt result) s
  unfolding turn meaning check_receipt
  turn_receipt result s h = ground arith

  turn_network :
      (tx : TransactionRequest) (s : Runner)
      → next_meaning (turn viem setup job (for_network tx) s) ≡ meaning (for_network tx) s
  unfolding turn meaning check_receipt
  turn_network tx s = ground arith

  turn_nonce : (s : Runner) → next_meaning (turn viem setup job for_nonce s) ≡ meaning for_nonce s
  unfolding turn meaning submit_tx
  turn_nonce s = ground arith

  turn_signatures :
      (s : Runner) → next_meaning (turn viem setup job for_signatures s) ≡ meaning for_signatures s
  unfolding turn meaning build_tx take_nonce submit_tx
  turn_signatures s = ground arith

  turn_started : (s : Runner) → next_meaning (turn viem setup job started s) ≡ meaning started s
  unfolding turn meaning execute admit build_tx take_nonce submit_tx authorize
  turn_started s = ground arith

-- How many turns a run takes at most from a wait on.
abbrev pub turns_left : Wait → ℕ
turns_left started = 7
turns_left for_signatures = 6
turns_left for_nonce = 5
turns_left (for_network tx) = 4
turns_left (for_receipt result) = 3
turns_left (for_confirmations result) = 2
turns_left (for_l5 result) = 1
turns_left (ended outcome) = 0

-- A run waits for the nonce of the chain and for a receipt only where there is a client for them.
abbrev pub IsExpected : Setup → Wait → Type 0
IsExpected setup (for_receipt result) = has_client setup ≡ true
IsExpected setup _ = Unit {0}

module _ (viem : Viem) (setup : Setup) (job : Job) where
  -- So many turns of one run, one after the other.
  abbrev pub take_turns : ℕ → Wait → Runner → Wait × Runner
  take_turns zero w s = (w, s)
  take_turns (suc n) w s = let (w', s') = turn viem setup job w s in take_turns n w' s'

  turn-turns_left :
      (w : Wait) (s : Runner) → turns_left (turn viem setup job w s).0 ≤ turns_left w - 1
  unfolding turn
  turn-turns_left started s = ground arith
  turn-turns_left for_signatures s = ground arith
  turn-turns_left for_nonce s = ground arith
  turn-turns_left (for_network tx) s = ground arith
  turn-turns_left (for_receipt result) s = ground arith
  turn-turns_left (for_confirmations result) s = ground arith
  turn-turns_left (for_l5 result) s = ground arith
  turn-turns_left (ended outcome) s = ground arith

  turn-IsExpected :
      (w : Wait) (s : Runner) → IsExpected setup w → IsExpected setup (turn viem setup job w s).0
  unfolding turn
  turn-IsExpected started s h = ground arith
  turn-IsExpected for_signatures s h = ground arith
  turn-IsExpected for_nonce s h = ground arith
  turn-IsExpected (for_network tx) s h = ground arith
  turn-IsExpected (for_receipt result) s h = ground arith
  turn-IsExpected (for_confirmations result) s h = ground arith
  turn-IsExpected (for_l5 result) s h = ground arith
  turn-IsExpected (ended outcome) s h = ground arith

  turn_ended :
      (outcome : PipelineRunOutcome) (s : Runner)
      → next_meaning viem setup job (turn viem setup job (ended outcome) s)
        ≡ meaning viem setup job (ended outcome) s
  unfolding turn
  turn_ended outcome s = refl

  turn-meaning :
      (w : Wait) (s : Runner)
      → IsExpected setup w
      → next_meaning viem setup job (turn viem setup job w s) ≡ meaning viem setup job w s
  turn-meaning started s h = turn_started viem setup job s
  turn-meaning for_signatures s h = turn_signatures viem setup job s
  turn-meaning for_nonce s h = turn_nonce viem setup job s
  turn-meaning (for_network tx) s h = turn_network viem setup job tx s
  turn-meaning (for_receipt result) s h = turn_receipt viem setup job result s h
  turn-meaning (for_confirmations result) s h = turn_confirmations viem setup job result s
  turn-meaning (for_l5 result) s h = turn_l5 viem setup job result s
  turn-meaning (ended outcome) s h = turn_ended outcome s

  over-meaning : (w : Wait) (s : Runner) → turns_left w ≤ 0 → (w, s) ≡ meaning viem setup job w s
  unfolding meaning
  over-meaning (ended outcome) s few = refl
  over-meaning w s few = absurd (omega arith)

  take_turns-meaning :
      (n : ℕ) (w : Wait) (s : Runner)
      → IsExpected setup w
      → turns_left w ≤ n
      → take_turns n w s ≡ meaning viem setup job w s
  take_turns-meaning zero w s h few = over-meaning w s few
  take_turns-meaning (suc n) w s h few =
      take_turns-meaning n (turn viem setup job w s).0 (turn viem setup job w s).1
        (turn-IsExpected w s h) (omega (arith, turn-turns_left w s))
      ∙ turn-meaning w s h

  -- A call of `run` whose turns follow one another, with no other run between them, has ended
  -- after seven turns, with the outcome and the state of `run`.
  pub take_turns-run :
      (n : ℕ) (s : Runner)
      → compute_execution_id viem job.request.contract_id job.request.obligation_hash (pos 0)
        ≡ ok job.id
      → 7 ≤ n
      → (outcome : PipelineRunOutcome) × ((take_turns n started s).0 ≡ ended outcome)
        × (run viem setup job.out job.request job.gas s ≡ (ok outcome, (take_turns n started s).1))
  unfolding meaning
  take_turns-run n s e enough =
      let whole = take_turns-meaning n started s tt enough in
      let (r, t) = execute viem setup job.out job.request job.id job.gas s in
      (
        (conclude job.out job.id r t).0,
        ap (λ x. x.0) whole,
        run-ok viem setup job.out job.request job.gas s e
            ∙ ap (λ x. (ok (conclude job.out job.id r t).0, x.1)) (sym whole),
      )
