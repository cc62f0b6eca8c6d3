-- ===== src/Engine/Orchestrator/Laws.antt =====
-- What the orchestrator hands out, and what its guard keeps over any sequence of its operations.
use creation_of_energy_token.Prelude.{
  ℕ, ◌+◌, ◌≤◌, ◌≡◌, ◌↔◌, refl, inl, inr, Bool, true, false, List, [], ◌∷◌, Option, none, some, Text,
  text_Eq, Bool-cases, arith, subst, ap, ◌∙◌,
}
use creation_of_energy_token.Engine.Types.{
  ok, default_gas_strategy, TransactionRequest, max_gas_limit, ExecutionLaneStatus, RecordStatus,
  ConfirmationStatus, pending, confirmed, reverted, stuck, confirmation_depth, err, Exn,
  Result-cases,
}
use creation_of_energy_token.Engine.External.{Viem}
use creation_of_energy_token.Engine.Idempotency.{assert_not_in_flight, record_status}
use creation_of_energy_token.Engine.Idempotency.Laws.{
  blocks, status_of, assert_not_in_flight_iff, status_of-record_self,
}
use creation_of_energy_token.Engine.Confirmation.{Receipt, update_confirmation, create_tracker}
use creation_of_energy_token.Engine.Confirmation.Laws.{update_confirmation-confirmed_iff}
use creation_of_energy_token.Engine.Runner.Guarding.{
  IsBlocked, record-IsBlocked_self, record-IsBlocked, record-IsBlocked_ne,
}
use creation_of_energy_token.Engine.Gas.{enrich_with_gas}
use creation_of_energy_token.Engine.Gas.Laws.{enrich_with_gas_bounds}
use creation_of_energy_token.Engine.Builder.{
  built, build_execute_batch_tx_legacy, BuildResult-cases,
}
use creation_of_energy_token.Engine.Builder.Laws.{legacy-built}
use creation_of_energy_token.Engine.Orchestrator.{
  OrchestratorConfig, ExecutionOrchestrator, Preparation, prepare_execution, mark_submitted,
  note_confirmation, track_confirmations,
}

-- One call of an operation, with its arguments.
pub data Call : Type 0 where
  prepare : Preparation → Call
  mark : Text → Text → ℕ → Call
  track : Text → Text → ℕ → ℕ → Option Receipt → ℕ → Call

module _ (viem : Viem) (config : OrchestratorConfig) where
  abbrev pub apply_call : Call → ExecutionOrchestrator → ExecutionOrchestrator
  apply_call (prepare p) s = (prepare_execution viem config p s).1
  apply_call (mark id tx_hash now) s = mark_submitted id tx_hash now s
  apply_call (track id tx_hash submitted current receipt now) s =
      (track_confirmations id tx_hash submitted current receipt now s).1

  abbrev pub apply_calls : List Call → ExecutionOrchestrator → ExecutionOrchestrator
  apply_calls [] s = s
  apply_calls (c ∷ calls) s = apply_calls calls (apply_call c s)

  -- What one preparation leaves in the guard.
  prepare-guard :
      (p : Preparation) (s : ExecutionOrchestrator)
      → let id = p.ctx.execution_id in
        let g = (prepare_execution viem config p s).1.guard in
        (IsBlocked s.guard id → g ≡ s.guard)
        × (blocks (status_of s.guard id) ≡ false
            → g ≡ record_status s.guard id RecordStatus.queued none p.now)
  unfolding prepare_execution
  prepare-guard p s = ground (arith, assert_not_in_flight_iff s.guard p.ctx.execution_id)

  prepare-IsBlocked :
      (p : Preparation) (s : ExecutionOrchestrator) (id : Text)
      → IsBlocked s.guard id
      → IsBlocked (prepare_execution viem config p s).1.guard id
  prepare-IsBlocked p s id b =
      let own = p.ctx.execution_id in
      elim (Bool-cases (blocks (status_of s.guard own))) [
        | inl held ↦ rw ((prepare-guard p s).0 held) b
        | inr free ↦ rw ((prepare-guard p s).1 free) (
            record-IsBlocked_ne s.guard own id RecordStatus.queued none p.now
              (λ e. ground (arith, subst (λ x. blocks (status_of s.guard x) ≡ false) e free)) b)
      ]

  note-IsBlocked :
      (c : ConfirmationStatus) (own tx_hash : Text) (now : ℕ) (s : ExecutionOrchestrator)
      (id : Text)
      → IsBlocked s.guard id
      → IsBlocked (note_confirmation c own tx_hash now s).guard id
  unfolding note_confirmation
  note-IsBlocked confirmed own tx_hash now s id b =
      record-IsBlocked s.guard own id RecordStatus.finalized (some tx_hash) now refl b
  note-IsBlocked pending own tx_hash now s id b =
      record-IsBlocked s.guard own id RecordStatus.confirming (some tx_hash) now refl b
  note-IsBlocked reverted own tx_hash now s id b = b
  note-IsBlocked stuck own tx_hash now s id b = b

  apply_call-IsBlocked :
      (c : Call) (s : ExecutionOrchestrator) (id : Text)
      → IsBlocked s.guard id
      → IsBlocked (apply_call c s).guard id
  unfolding mark_submitted track_confirmations
  apply_call-IsBlocked (prepare p) s id b = prepare-IsBlocked p s id b
  apply_call-IsBlocked (mark own tx_hash now) s id b =
      record-IsBlocked s.guard own id RecordStatus.submitted (some tx_hash) now refl b
  apply_call-IsBlocked (track own tx_hash submitted current receipt now) s id b =
      note-IsBlocked
        (update_confirmation (create_tracker tx_hash submitted confirmation_depth) current
          receipt).status
        own tx_hash now s id b

  apply_calls-IsBlocked :
      (calls : List Call) (s : ExecutionOrchestrator) (id : Text)
      → IsBlocked s.guard id
      → IsBlocked (apply_calls calls s).guard id
  apply_calls-IsBlocked [] s id b = b
  apply_calls-IsBlocked (c ∷ calls) s id b =
      apply_calls-IsBlocked calls (apply_call c s) id (apply_call-IsBlocked c s id b)

  prepare_blocked :
      (p : Preparation) (s : ExecutionOrchestrator)
      → IsBlocked s.guard p.ctx.execution_id
      → (e : Exn) × ((prepare_execution viem config p s).0 ≡ err e)
  unfolding prepare_execution
  prepare_blocked p s b = elim (Result-cases (assert_not_in_flight s.guard p.ctx.execution_id)) [
    | inl (u, e) ↦ absurd (ground (arith, assert_not_in_flight_iff s.guard p.ctx.execution_id))
    | inr (x, e) ↦ (x, ground arith)
  ]

  -- Once an execution is marked as submitted, a preparation of it throws after every sequence of
  -- operations.
  pub mark_submitted-then-prepare :
      (calls : List Call) (s : ExecutionOrchestrator) (tx_hash : Text) (now : ℕ) (p : Preparation)
      → (e : Exn) × ((prepare_execution viem config p
            (apply_calls calls (mark_submitted p.ctx.execution_id tx_hash now s))).0
          ≡ err e)
  unfolding mark_submitted
  mark_submitted-then-prepare calls s tx_hash now p =
      let id = p.ctx.execution_id in
      prepare_blocked p (apply_calls calls (mark_submitted id tx_hash now s)) (
        apply_calls-IsBlocked calls (mark_submitted id tx_hash now s) id
          (record-IsBlocked_self s.guard id RecordStatus.submitted (some tx_hash) now refl))

note_confirmation-finalized_iff :
    (c : ConfirmationStatus) (id tx_hash : Text) (now : ℕ) (s : ExecutionOrchestrator)
    → let t = note_confirmation c id tx_hash now s in
      ((t.status ≡ ExecutionLaneStatus.finalized) ↔ (c ≡ confirmed))
      × (c ≡ confirmed → status_of t.guard id ≡ some RecordStatus.finalized)
unfolding note_confirmation
note_confirmation-finalized_iff confirmed id tx_hash now s = (
  (λ _. refl, λ _. refl),
  λ _. status_of-record_self s.guard id RecordStatus.finalized (some tx_hash) now,
)
note_confirmation-finalized_iff pending id tx_hash now s = ground arith
note_confirmation-finalized_iff reverted id tx_hash now s = ground arith
note_confirmation-finalized_iff stuck id tx_hash now s = ground arith

-- With a receipt the execution is finalized exactly when the receipt is a success at least twelve
-- blocks deep; the guard has it as FINALIZED then.
pub track_confirmations-finalized_iff :
    (id tx_hash : Text) (submitted current block : ℕ) (good : Bool) (now : ℕ)
    (s : ExecutionOrchestrator)
    → let t =
        (track_confirmations id tx_hash submitted current
          (some (record { block_number = block; success = good }))
          now
          s).1 in
      ((t.status ≡ ExecutionLaneStatus.finalized) ↔ ((good ≡ true) × (block + 12 ≤ current)))
      × (t.status ≡ ExecutionLaneStatus.finalized
          → status_of t.guard id ≡ some RecordStatus.finalized)
unfolding track_confirmations create_tracker
track_confirmations-finalized_iff id tx_hash submitted current block good now s =
    let t = create_tracker tx_hash submitted confirmation_depth in
    let receipt : Receipt = record { block_number = block; success = good } in
    let c = (update_confirmation t current (some receipt)).status in
    let (note, recorded) = note_confirmation-finalized_iff c id tx_hash now s in
    let confirmed_iff = update_confirmation-confirmed_iff t current block good refl in
    ((λ h. confirmed_iff.0 (note.0 h), λ h. note.1 (confirmed_iff.1 h)), λ h. recorded (note.0 h))

prepared_tx :
    (viem : Viem) (config : OrchestratorConfig) (p : Preparation) (s : ExecutionOrchestrator)
    (tx : TransactionRequest)
    → (prepare_execution viem config p s).0 ≡ ok tx
    → (bare : TransactionRequest) × (build_execute_batch_tx_legacy viem config.engine_address
          config.chain_id p.ctx.contract_id p.ctx.execution_id p.ctx.obligation p.nonce
        ≡ ok (built bare))
      × (tx ≡ enrich_with_gas bare p.estimated_gas p.base_fee p.priority_fee default_gas_strategy)
unfolding prepare_execution
prepared_tx viem config p s tx h =
    elim (Result-cases (
      build_execute_batch_tx_legacy viem config.engine_address config.chain_id p.ctx.contract_id
        p.ctx.execution_id p.ctx.obligation p.nonce)) [
          | inr (x, e) ↦ absurd (ground arith)
          | inl (r, e) ↦ elim (BuildResult-cases r) [
            | inr (code, f) ↦ absurd (ground arith)
            | inl (bare, f) ↦ (bare, e ∙ ap ok f, ground arith)
          ]
        ]

-- A preparation that hands out a transaction passed the guard and leaves the execution QUEUED
-- there; the transaction goes to the engine with the nonce given, its gas limit is within the
-- cap, and its fee within the strategy's cap.
pub prepare_execution-ok :
    (viem : Viem) (config : OrchestratorConfig) (p : Preparation) (s : ExecutionOrchestrator)
    (tx : TransactionRequest)
    → (prepare_execution viem config p s).0 ≡ ok tx
    → (blocks (status_of s.guard p.ctx.execution_id) ≡ false)
      × (status_of (prepare_execution viem config p s).1.guard p.ctx.execution_id
          ≡ some RecordStatus.queued)
      × (tx.to ≡ config.engine_address)
      × (tx.nonce ≡ p.nonce)
      × (tx.gas_limit ≤ max_gas_limit)
      × (tx.max_fee_per_gas ≤ 500_000_000_000)
unfolding prepare_execution
prepare_execution-ok viem config p s tx h =
    let id = p.ctx.execution_id in
    let (bare, made, same) = prepared_tx viem config p s tx h in
    ground (
      arith,
      assert_not_in_flight_iff s.guard id,
      status_of-record_self s.guard id RecordStatus.queued none p.now,
      legacy-built viem config.engine_address config.chain_id p.ctx.contract_id id p.ctx.obligation
          p.nonce bare made,
      enrich_with_gas_bounds bare p.estimated_gas p.base_fee p.priority_fee default_gas_strategy,
    )
