-- ===== src/Engine/Runner/Turns/Effects.antt =====
-- What one turn does to the guard and to what was handed to layer 5.
use creation_of_energy_token.Engine.Runner.{conclude, fail, Exit, done, returned, thrown}
use creation_of_energy_token.Prelude.{
  refl, ◌≡◌, ◌⊎◌, inl, inr, [], ◌∷◌, ◌++◌, some, Text, arith, ◌∙◌,
}
use creation_of_energy_token.Engine.Types.{RecordStatus, ok, Result-cases, TransactionRequest}
use creation_of_energy_token.Engine.External.{Viem}
use creation_of_energy_token.Engine.Idempotency.{Guard, assert_not_in_flight, record_status}
use creation_of_energy_token.Engine.Submitter.{SubmitResult, submit_with_retry}
use creation_of_energy_token.Engine.Confirmation.Laws.{await_confirmations_confirms}
use creation_of_energy_token.Engine.Runner.State.{Setup, Runner}
use creation_of_energy_token.Engine.Runner.Phases.{partial_result}
use creation_of_energy_token.Engine.Runner.Turns.{
  Job, started, for_signatures, for_nonce, for_network, for_receipt, for_confirmations, for_l5,
  turn, Pause, waits, has_result, settle_turn, begin, resume, resume, settle_turn, begin, Pause,
  waits, has_result,
}
use creation_of_energy_token.Engine.Runner.Turns.Preparing.{
  early, late, last, over, stage, queued_in, exit_stage, Prepares, lift-IsSilent, >>=-IsPreparing,
  build_and_queue-IsPreparing, authorized-IsPreparing, begin-IsPreparing, begin-fresh,
}

abbrev pub submitted_in : Job → Text → Guard → Guard
submitted_in job tx_hash g =
    record_status g job.id RecordStatus.submitted (some tx_hash) job.out.submitted_at

abbrev pub finalized_in : Job → Text → Guard → Guard
finalized_in job tx_hash g =
    record_status g job.id RecordStatus.finalized (some tx_hash) job.out.finalized_at

module _ (viem : Viem) (setup : Setup) (job : Job) (s : Runner) where
  settle_turn_lem :
      (r : Exit Pause) (t : Runner)
      → let (w, u) = settle_turn job r t in
        (stage w ≡ exit_stage r) × (u.guard ≡ t.guard) × (u.handed_over ≡ t.handed_over)
  unfolding settle_turn conclude fail
  settle_turn_lem (done (waits w)) t = (refl, refl, refl)
  settle_turn_lem (done (has_result r)) t = (refl, refl, refl)
  settle_turn_lem (returned report) t = (refl, refl, refl)
  settle_turn_lem (thrown e) t = (refl, refl, refl)

  -- The first turn ends the run and leaves the guard, or the guard let the execution pass.
  pub started-effect :
      let (w, t) = turn viem setup job started s in
      (t.handed_over ≡ s.handed_over)
      × (((stage w ≡ over) × (t.guard ≡ s.guard))
          ⊎ ((stage w ≡ early)
              × (assert_not_in_flight s.guard job.id ≡ ok tt)
              × ((t.guard ≡ s.guard) ⊎ (t.guard ≡ queued_in job s.guard))))
  unfolding turn resume
  started-effect =
      let (r, t) = begin viem setup job s in
      let (far, guard, handed_over) = settle_turn_lem r t in
      let prepared = (begin-IsPreparing viem setup job).prepares s in
      (
        handed_over ∙ prepared.0,
        elim prepared.1 [
          | inl (e, same) ↦ inl (far ∙ e, guard ∙ same)
          | inr (e, inl same) ↦ inr (far ∙ e, begin-fresh viem setup job s e, inl (guard ∙ same))
          | inr (e, inr queued) ↦
              inr (far ∙ e, begin-fresh viem setup job s e, inr (guard ∙ queued))
        ],
      )

  -- A turn whose body only prepares.
  turn-Prepares :
      (r : Exit Pause) (t : Runner)
      → Prepares job s (r, t)
      → let (w, u) = settle_turn job r t in
        (u.handed_over ≡ s.handed_over)
        × ((stage w ≡ over) ⊎ (stage w ≡ early))
        × ((u.guard ≡ s.guard) ⊎ (u.guard ≡ queued_in job s.guard))
  turn-Prepares r t (o, h) =
      let (far, guard, handed_over) = settle_turn_lem r t in
      (
        handed_over ∙ o,
        elim h [ inl (e, same) ↦ inl (far ∙ e) | inr (e, changed) ↦ inr (far ∙ e) ],
        elim h [
          | inl (e, same) ↦ inl (guard ∙ same)
          | inr (e, inl same) ↦ inl (guard ∙ same)
          | inr (e, inr queued) ↦ inr (guard ∙ queued)
        ],
      )

  pub signatures-effect :
      let (w, t) = turn viem setup job for_signatures s in
      (t.handed_over ≡ s.handed_over)
      × ((stage w ≡ over) ⊎ (stage w ≡ early))
      × ((t.guard ≡ s.guard) ⊎ (t.guard ≡ queued_in job s.guard))
  unfolding turn resume
  signatures-effect =
      let (r, t) = resume viem setup job for_signatures s in
      turn-Prepares r t ((authorized-IsPreparing viem setup job).prepares s)

  pub nonce-effect :
      let (w, t) = turn viem setup job for_nonce s in
      (t.handed_over ≡ s.handed_over)
      × ((stage w ≡ over) ⊎ (stage w ≡ early))
      × ((t.guard ≡ s.guard) ⊎ (t.guard ≡ queued_in job s.guard))
  unfolding turn resume
  nonce-effect =
      let (r, t) = resume viem setup job for_nonce s in
      turn-Prepares r t (
        (>>=-IsPreparing job (lift-IsSilent job.out.transaction_count)
            (build_and_queue-IsPreparing viem setup job)).prepares
          s)

  pub network-effect :
      (tx : TransactionRequest)
      → let (w, t) = turn viem setup job (for_network tx) s in
        (t.handed_over ≡ s.handed_over)
        × (((stage w ≡ over) × (t.guard ≡ s.guard))
            ⊎ ((stage w ≡ late)
                × ((tx_hash : Text) × (t.guard ≡ submitted_in job tx_hash s.guard))))
  unfolding turn conclude fail
  network-effect tx = elim (Result-cases (submit_with_retry setup.submitter job.out.network tx).0) [
    | inl (result, e) ↦ (ground arith, inr (ground arith, (result.tx_hash, ground arith)))
    | inr (x, e) ↦ (ground arith, inl (ground arith, ground arith))
  ]

  pub receipt-effect :
      (result : SubmitResult)
      → let (w, t) = turn viem setup job (for_receipt result) s in
        (t.handed_over ≡ s.handed_over)
        × (t.guard ≡ s.guard)
        × ((stage w ≡ over) ⊎ (stage w ≡ late))
  unfolding turn conclude fail
  receipt-effect result = ground arith

  pub confirmations-effect :
      (result : SubmitResult)
      → let (w, t) = turn viem setup job (for_confirmations result) s in
        (t.handed_over ≡ s.handed_over ++ partial_result job.request job.id job.gas result ∷ [])
        × (t.guard ≡ s.guard)
        × (stage w ≡ last)
  unfolding turn conclude fail
  confirmations-effect result =
      ground (arith, await_confirmations_confirms result.tx_hash result.submitted_at_block)

  pub l5-effect :
      (result : SubmitResult)
      → let (w, t) = turn viem setup job (for_l5 result) s in
        (t.handed_over ≡ s.handed_over)
        × (stage w ≡ over)
        × ((t.guard ≡ s.guard) ⊎ (t.guard ≡ finalized_in job result.tx_hash s.guard))
  unfolding turn conclude fail
  l5-effect result = ground arith
