-- ===== src/Engine/Runner/Phases.antt =====
-- layer4/engine/src/pipelineRunner.ts, lines 118 to 301: the body of `run`, in four phases.
use creation_of_energy_token.Prelude.{
  ℕ, ◌+◌, ◌/◌, Bool, true, false, ◌&&◌, not, List, [], ◌∷◌, ◌++◌, map, Option, none, some, Text,
}
use creation_of_energy_token.Prelude.Int.{pos}
use creation_of_energy_token.Engine.Types.{
  Lane, LaneState, LaneStates, ExecutionLaneStatus, RecordStatus, confirmation_depth, Obligation,
  ExecutionRequest, ExecutionResult, TransactionRequest, default_gas_strategy, monitoring,
  arbitration, error, Result, ok, err, ConfirmationStatus, reverted, stuck, no_obligations,
  safe_executor_required, invalid_chain_id, tx_reverted, finality, l5_not_acknowledged,
}
use creation_of_energy_token.Engine.External.{Viem}
use creation_of_energy_token.Engine.Handoff.{failure, validate_l3_request}
use creation_of_energy_token.Engine.Auth
use creation_of_energy_token.Engine.SafeAuth
use creation_of_energy_token.Engine.Idempotency.{assert_not_in_flight, record_status}
use creation_of_energy_token.Engine.Breaker.{assert_closed}
use creation_of_energy_token.Engine.Nonce.{next}
use creation_of_energy_token.Engine.Gas.{enrich_with_gas}
use creation_of_energy_token.Engine.Builder.{
  built, refused, bare_tx, build_execute_batch_tx, build_execute_batch_via_safe_calldata, zero_hash,
}
use creation_of_energy_token.Engine.Submitter.{
  SubmitMode, simulation, safe, SubmitResult, submit_with_retry,
}
use creation_of_energy_token.Engine.Confirmation.{await_confirmations, is_confirmed}
use creation_of_energy_token.Engine.Runner.State.{
  basic, eip712, Setup, Runner, Outside, GasArgs, L5Ack, Exit, done, returned, thrown, Action,
  ◌>>=◌, ◌>>◌, of_result, lift, pure, modify, gets, report_if, report_some, is_some,
}

abbrev pub set_status : ExecutionLaneStatus → Runner → Runner
set_status status s = record s { status = status }

abbrev pub set_lanes : (LaneStates → LaneStates) → Runner → Runner
set_lanes f s = record s { lane_states = f s.lane_states }

abbrev pub record_in_guard : Text → RecordStatus → Option Text → ℕ → Runner → Runner
record_in_guard id status tx_hash now s = record s {
  guard = record_status s.guard id status tx_hash now;
}

unfoldable pub authorize : Viem → Setup → Outside → ExecutionRequest → Text → Result (Unit {0})
authorize viem setup out request id = elim setup.gate [
  | basic threshold ↦ Auth.validate threshold request id
  | eip712 config ↦ SafeAuth.validate viem config out.get_threshold out.get_owners request id
]

-- Lines 119 to 137: the breaker, the guard, the gates of layer 3 and the signatures.
unfoldable pub admit : Viem → Setup → Outside → ExecutionRequest → Text → Action (Unit {0})
admit viem setup out request id = do
  breaker ← gets (λ s. s.breaker)
  lift (assert_closed breaker)
  modify (set_lanes (λ l. record l { sft = LaneState.running }))
  guard ← gets (λ s. s.guard)
  lift (assert_not_in_flight guard id)
  report ← lift (validate_l3_request viem request (pos (out.started_at / 1000)))
  report_some report
  modify (set_lanes (λ l. record l { ctl = LaneState.completed }))
  modify (set_status ExecutionLaneStatus.preparing)
  lift (authorize viem setup out request id)
  modify (set_lanes (λ l. record l { auth = LaneState.completed }))
  modify (set_status ExecutionLaneStatus.authorizing)

abbrev pub is_on_chain : SubmitMode → Bool
is_on_chain simulation = false
is_on_chain _ = true

-- Lines 154 to 161.
unfoldable pub take_nonce : Setup → Outside → Action ℕ
take_nonce setup out s =
    elim (is_on_chain setup.config.submit_mode && is_some setup.config.safe_auth) [
      | true ↦ lift out.transaction_count s
      | false ↦
          let (nonce, nonces) = next s.nonces setup.config.relayer_address in
          (done nonce, record s { nonces = nonces })
    ]

-- Lines 163 to 216: the transaction without its gas, for the Safe's module or for the engine.
unfoldable pub build_call : Viem → Setup → ExecutionRequest → Text → ℕ → Exit TransactionRequest
build_call viem setup request id nonce = elim setup.config.submit_mode [
  | safe ↦ elim setup.config.safe_executor [
    | none ↦ thrown (error safe_executor_required)
    | some module_address ↦
        elim (build_execute_batch_via_safe_calldata viem request.contract_id request id) [
          | err e ↦ thrown e
          | ok call_data ↦ done (bare_tx module_address call_data nonce setup.config.chain_id)
        ]
  ]
  | _ ↦
      elim (build_execute_batch_tx viem (record {
        engine_address = setup.config.engine_address;
        chain_id = setup.config.chain_id;
        contract_id = some request.contract_id;
        request = request;
        batch_id = id;
        nonce = nonce;
      })) [
        | err e ↦ thrown e
        | ok (built tx) ↦ done tx
        | ok (refused code) ↦ returned (failure id Lane.txb 1000 true monitoring invalid_chain_id)
      ]
]

abbrev pub has_obligation : List Obligation → Result (Unit {0})
has_obligation [] = err (error no_obligations)
has_obligation (o ∷ os) = ok tt

-- Lines 139 to 219. The context that the source makes here is never read.
unfoldable pub build_tx :
    Viem → Setup → Outside → ExecutionRequest → Text → GasArgs → Action TransactionRequest
build_tx viem setup out request id gas = do
  lift (has_obligation request.obligations)
  nonce ← take_nonce setup out
  tx ← (λ s. (build_call viem setup request id nonce, s))
  modify (set_lanes (λ l. record l { txb = LaneState.completed }))
  pure (enrich_with_gas tx gas.estimated_gas gas.base_fee gas.priority_fee default_gas_strategy)

abbrev pub tagged : Text → List TransactionRequest → List (Text × TransactionRequest)
tagged id txs = map (λ tx. (id, tx)) txs

-- Line 223.
unfoldable pub submit_to_network : Setup → Outside → Text → TransactionRequest → Action SubmitResult
submit_to_network setup out id tx s =
    let (r, sent) = submit_with_retry setup.submitter out.network tx in
    (of_result r, record s { sent = s.sent ++ tagged id sent })

-- Lines 228 to 243: a public client, if there is one, is asked for the receipt.
unfoldable pub check_receipt : Setup → Outside → Text → Text → Action (Unit {0})
check_receipt setup out id tx_hash s =
    elim (is_on_chain setup.config.submit_mode && is_some setup.config.safe_auth) [
      | false ↦ (done tt, s)
      | true ↦
          (do
            success ← lift out.receipt_success
            report_if (not success)
                (failure id Lane.net 1201 true monitoring (tx_reverted tx_hash)))
            s
    ]

-- Lines 220 to 243.
unfoldable pub submit_tx : Setup → Outside → Text → TransactionRequest → Action SubmitResult
submit_tx setup out id tx = do
  modify (record_in_guard id RecordStatus.queued none out.queued_at)
  modify (set_status ExecutionLaneStatus.submitting)
  result ← submit_to_network setup out id tx
  modify (record_in_guard id RecordStatus.submitted (some result.tx_hash) out.submitted_at)
  modify (set_lanes (λ l. record l { net = LaneState.completed }))
  modify (set_status ExecutionLaneStatus.confirming)
  check_receipt setup out id result.tx_hash
  pure result

abbrev pub finality_code : ConfirmationStatus → ℕ
finality_code reverted = 1201
finality_code _ = 1200

abbrev pub is_stuck : ConfirmationStatus → Bool
is_stuck stuck = true
is_stuck _ = false

-- Lines 262 to 273.
unfoldable pub partial_result : ExecutionRequest → Text → GasArgs → SubmitResult → ExecutionResult
partial_result request id gas submitted = record {
  contract_id = request.contract_id;
  execution_id = id;
  tx_hash = submitted.tx_hash;
  execution_block = submitted.submitted_at_block;
  confirmation_block = submitted.submitted_at_block + confirmation_depth;
  settled = true;
  rollback_reason = zero_hash;
  proof_ids = [];
  regulatory_report_cid = zero_hash;
  gas_used = pos gas.estimated_gas;
}

-- Line 275.
unfoldable pub ask_l5 : Outside → ExecutionResult → Action L5Ack
ask_l5 out result s =
    (of_result (out.l5 result), record s { handed_over = s.handed_over ++ result ∷ [] })

-- Lines 245 to 294, with the result that is returned.
unfoldable pub finish :
    Outside → ExecutionRequest → Text → GasArgs → SubmitResult → Action ExecutionResult
finish out request id gas submitted = do
  let fin = await_confirmations submitted.tx_hash submitted.submitted_at_block
  report_if (not (is_confirmed fin.status)) (
      failure id Lane.fin (finality_code fin.status) (is_stuck fin.status) arbitration
        (finality fin.status))
  modify (set_lanes (λ l. record l { fin = LaneState.completed }))
  modify (set_status ExecutionLaneStatus.awaiting_l5)
  let partial = partial_result request id gas submitted
  ack ← ask_l5 out partial
  report_if (not ack.acknowledged) (failure id Lane.fin 1200 true monitoring l5_not_acknowledged)
  modify (record_in_guard id RecordStatus.finalized (some submitted.tx_hash) out.finalized_at)
  modify (set_status ExecutionLaneStatus.finalized)
  pure (record partial {
    proof_ids = ack.proof_ids;
    regulatory_report_cid = ack.regulatory_report_cid;
  })
