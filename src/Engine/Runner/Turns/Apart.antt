-- ===== src/Engine/Runner/Turns/Apart.antt =====
-- What a turn does to its own execution, and that it leaves the others alone.
use mathlib.Core.List.{map-append}
use creation_of_energy_token.Prelude.{
  ℕ, ◌≡◌, ◌⊎◌, refl, sym, ap, ◌∙◌, subst, inl, inr, Bool, true, false, List, [], ◌∷◌, ◌++◌, map,
  Text, text_Eq, ===_ne, Option, includes, arith, none, some,
}
use creation_of_energy_token.Prelude.Sets.{Distinct, Distinct-append, includes-append}
use creation_of_energy_token.Engine.Types.{RecordStatus, ExecutionResult}
use creation_of_energy_token.Engine.External.{Viem}
use creation_of_energy_token.Engine.Idempotency.{Guard, record_status}
use creation_of_energy_token.Engine.Idempotency.Laws.{
  status_of, assert_not_in_flight_iff, check-record_ne,
}
use creation_of_energy_token.Engine.Runner.{PipelineRunOutcome}
use creation_of_energy_token.Engine.Runner.State.{Setup, Runner}
use creation_of_energy_token.Engine.Runner.Phases.{partial_result}
use creation_of_energy_token.Engine.Runner.Guarding.{IsBlocked, record-IsBlocked_self}
use creation_of_energy_token.Engine.Runner.Once.{handed_ids}
use creation_of_energy_token.Engine.Runner.Turns.{
  Job, Wait, started, for_signatures, for_nonce, for_network, for_receipt, for_confirmations,
  for_l5, ended, turn,
}
use creation_of_energy_token.Engine.Runner.Turns.Preparing.{
  Stage, early, late, last, over, stage, queued_in,
}
use creation_of_energy_token.Engine.Runner.Turns.Effects.{
  started-effect, signatures-effect, nonce-effect, network-effect, receipt-effect,
  confirmations-effect, l5-effect,
}

-- Whether an execution's result was handed to layer 5.
abbrev pub sees : Runner → Text → Bool
sees s x = includes (handed_ids s) x

-- What holds of an execution by the stage of its run, or without one.
abbrev pub Held : Stage → Runner → Text → Type 0
Held early s x = sees s x ≡ false
Held late s x = (sees s x ≡ false) × IsBlocked s.guard x
Held last s x = IsBlocked s.guard x
Held over s x = sees s x ≡ true → IsBlocked s.guard x

-- Another execution is as it was.
pub record Keeps (x : Text) (s t : Runner) : Type 0 where
  pub status : status_of t.guard x ≡ status_of s.guard x
  pub seen : sees t x ≡ sees s x

seen-same : (s t : Runner) (x : Text) → t.handed_over ≡ s.handed_over → sees t x ≡ sees s x
seen-same s t x h =
    ap (λ (l : List ExecutionResult). includes (map (λ (r : ExecutionResult). r.execution_id) l) x)
      h

ids-same : (s t : Runner) → t.handed_over ≡ s.handed_over → handed_ids t ≡ handed_ids s
ids-same s t h =
    ap (λ (l : List ExecutionResult). map (λ (r : ExecutionResult). r.execution_id) l) h

unseen-Held :
    (st : Stage) (t : Runner) (x : Text)
    → (st ≡ over) ⊎ (st ≡ early)
    → sees t x ≡ false
    → Held st t x
unseen-Held early t x h unseen = unseen
unseen-Held over t x h unseen = λ seen. absurd (ground arith)
unseen-Held late t x h unseen = absurd (ground arith)
unseen-Held last t x h unseen = absurd (ground arith)

seen-more :
    (job : Job) (result : _) (s t : Runner)
    → t.handed_over ≡ s.handed_over ++ partial_result job.request job.id job.gas result ∷ []
    → handed_ids t ≡ handed_ids s ++ job.id ∷ []
unfolding partial_result
seen-more job result s t h =
    ap (map (λ (r : ExecutionResult). r.execution_id)) h
    ∙ map-append (λ (r : ExecutionResult). r.execution_id) s.handed_over _

-- Recording for one execution leaves the others alone.
module _ (id x : Text) (ne : id ≡ x → ⊥) (g : Guard) where
  status-same : (g' : Guard) → g' ≡ g → status_of g' x ≡ status_of g x
  status-same g' h = ap (λ m. status_of m x) h

  status-recorded :
      (g' : Guard) (st : RecordStatus) (h : Option Text) (now : ℕ)
      → g' ≡ record_status g id st h now
      → status_of g' x ≡ status_of g x
  status-recorded g' st h now e =
      ap (λ m. status_of m x) e ∙ ground (arith, check-record_ne g id x st h now ne)

module _ (viem : Viem) (setup : Setup) (job : Job) (s : Runner) where
  status-queued_or_same :
      (x : Text) (g' : Guard)
      → (job.id ≡ x → ⊥)
      → (g' ≡ s.guard) ⊎ (g' ≡ queued_in job s.guard)
      → status_of g' x ≡ status_of s.guard x
  status-queued_or_same x g' ne (inl e) = status-same job.id x ne s.guard g' e
  status-queued_or_same x g' ne (inr e) =
      status-recorded job.id x ne s.guard g' RecordStatus.queued none job.out.queued_at e

  seen-other :
      (x : Text) (t : Runner)
      → (job.id ≡ x → ⊥)
      → handed_ids t ≡ handed_ids s ++ job.id ∷ []
      → sees t x ≡ sees s x
  seen-other x t ne more =
      ap (λ (l : List Text). includes l x) more
      ∙ ground (arith, includes-append (handed_ids s) (job.id ∷ []) x, ===_ne job.id x ne)

  ended-handed :
      (outcome : PipelineRunOutcome)
      → handed_ids (turn viem setup job (ended outcome) s).1 ≡ handed_ids s
  unfolding turn
  ended-handed outcome = refl

  abbrev pub after : Wait → Runner
  after w = (turn viem setup job w s).1

  ended-Keeps :
      (outcome : PipelineRunOutcome) (x : Text)
      → Keeps x s (turn viem setup job (ended outcome) s).1
  unfolding turn
  ended-Keeps outcome x = record { status = refl; seen = refl }

  -- A turn leaves other executions alone.
  pub turn-Keeps : (w : Wait) (x : Text) → (job.id ≡ x → ⊥) → Keeps x s (turn viem setup job w s).1
  turn-Keeps started x ne =
      let (handed, split) = started-effect viem setup job s in
      record {
        status = elim split [
          | inl (o, g) ↦ status-same job.id x ne s.guard _ g
          | inr (e, fresh, g) ↦ status-queued_or_same x _ ne g
        ];
        seen = seen-same s (after started) x handed;
      }
  turn-Keeps for_signatures x ne =
      let (handed, st, g) = signatures-effect viem setup job s in
      record {
        status = status-queued_or_same x _ ne g;
        seen = seen-same s (after for_signatures) x handed;
      }
  turn-Keeps for_nonce x ne =
      let (handed, st, g) = nonce-effect viem setup job s in
      record {
        status = status-queued_or_same x _ ne g;
        seen = seen-same s (after for_nonce) x handed;
      }
  turn-Keeps (for_network tx) x ne =
      let (handed, split) = network-effect viem setup job s tx in
      record {
        status = elim split [
          | inl (o, g) ↦ status-same job.id x ne s.guard _ g
          | inr (l, (tx_hash, g)) ↦
              status-recorded job.id x ne s.guard _ RecordStatus.submitted (some tx_hash)
                job.out.submitted_at g
        ];
        seen = seen-same s (after (for_network tx)) x handed;
      }
  turn-Keeps (for_receipt result) x ne =
      let (handed, g, st) = receipt-effect viem setup job s result in
      record {
        status = status-same job.id x ne s.guard _ g;
        seen = seen-same s (after (for_receipt result)) x handed;
      }
  turn-Keeps (for_confirmations result) x ne =
      let (handed, g, st) = confirmations-effect viem setup job s result in
      record {
        status = status-same job.id x ne s.guard _ g;
        seen =
            seen-other x (after (for_confirmations result)) ne
              (seen-more job result s (after (for_confirmations result)) handed);
      }
  turn-Keeps (for_l5 result) x ne =
      let (handed, st, split) = l5-effect viem setup job s result in
      record {
        status = elim split [
          | inl g ↦ status-same job.id x ne s.guard _ g
          | inr g ↦
              status-recorded job.id x ne s.guard _ RecordStatus.finalized (some result.tx_hash)
                job.out.finalized_at g
        ];
        seen = seen-same s (after (for_l5 result)) x handed;
      }
  turn-Keeps (ended outcome) x ne = ended-Keeps outcome x

  ended-Held :
      (outcome : PipelineRunOutcome)
      → Held over s job.id
      → Held (stage (turn viem setup job (ended outcome) s).0) (after (ended outcome)) job.id
  unfolding turn
  ended-Held outcome h = h

  -- What the first turn does to its own execution, and what a turn does.
  pub started-Held :
      Held over s job.id → Held (stage (turn viem setup job started s).0) (after started) job.id
  started-Held h =
      let (handed, split) = started-effect viem setup job s in
      let seen = seen-same s (after started) job.id handed in
      elim split [
        | inl (o, g) ↦ rw (o, g, seen) h
        | inr (e, fresh, g) ↦ rw (e, seen) (ground (arith, assert_not_in_flight_iff s.guard job.id))
      ]

  pub turn-Held :
      (w : Wait)
      → Held (stage w) s job.id
      → Held (stage (turn viem setup job w s).0) (after w) job.id
  turn-Held started h =
      let (handed, split) = started-effect viem setup job s in
      let seen = seen-same s (after started) job.id handed ∙ h in
      elim split [
        | inl (o, g) ↦ unseen-Held _ (after started) job.id (inl o) seen
        | inr (e, fresh, g) ↦ unseen-Held _ (after started) job.id (inr e) seen
      ]
  turn-Held for_signatures h =
      let (handed, st, g) = signatures-effect viem setup job s in
      unseen-Held _ (after for_signatures) job.id st
        (seen-same s (after for_signatures) job.id handed ∙ h)
  turn-Held for_nonce h =
      let (handed, st, g) = nonce-effect viem setup job s in
      unseen-Held _ (after for_nonce) job.id st (seen-same s (after for_nonce) job.id handed ∙ h)
  turn-Held (for_network tx) h =
      let (handed, split) = network-effect viem setup job s tx in
      let seen = seen-same s (after (for_network tx)) job.id handed ∙ h in
      elim split [
        | inl (o, g) ↦ unseen-Held _ (after (for_network tx)) job.id (inl o) seen
        | inr (l, (tx_hash, g)) ↦ rw l (
          seen,
          rw g (
              record-IsBlocked_self s.guard job.id RecordStatus.submitted (some tx_hash)
                job.out.submitted_at refl),
        )
      ]
  turn-Held (for_receipt result) h =
      let (handed, g, st) = receipt-effect viem setup job s result in
      let seen = seen-same s (after (for_receipt result)) job.id handed ∙ h.0 in
      elim st [
        | inl o ↦ unseen-Held _ (after (for_receipt result)) job.id (inl o) seen
        | inr l ↦ rw l (seen, rw g h.1)
      ]
  turn-Held (for_confirmations result) h =
      let (handed, g, st) = confirmations-effect viem setup job s result in rw (st, g) h.1
  turn-Held (for_l5 result) h =
      let (handed, st, split) = l5-effect viem setup job s result in
      elim split [
        | inl g ↦ rw (st, g) (λ seen. h)
        | inr g ↦
            rw (st, g)
              (λ seen.
                record-IsBlocked_self s.guard job.id RecordStatus.finalized (some result.tx_hash)
                  job.out.finalized_at refl)
      ]
  turn-Held (ended outcome) h = ended-Held outcome h

  turn-handed :
      (w : Wait)
      → Held (stage w) s job.id
      → (handed_ids (after w) ≡ handed_ids s)
        ⊎ ((handed_ids (after w) ≡ handed_ids s ++ job.id ∷ []) × (sees s job.id ≡ false))
  turn-handed (for_confirmations result) h = inr (
    seen-more job result s (after (for_confirmations result))
        (confirmations-effect viem setup job s result).0,
    h.0,
  )
  turn-handed started h = inl (ids-same s (after started) (started-effect viem setup job s).0)
  turn-handed for_signatures h =
      inl (ids-same s (after for_signatures) (signatures-effect viem setup job s).0)
  turn-handed for_nonce h = inl (ids-same s (after for_nonce) (nonce-effect viem setup job s).0)
  turn-handed (for_network tx) h =
      inl (ids-same s (after (for_network tx)) (network-effect viem setup job s tx).0)
  turn-handed (for_receipt result) h =
      inl (ids-same s (after (for_receipt result)) (receipt-effect viem setup job s result).0)
  turn-handed (for_l5 result) h =
      inl (ids-same s (after (for_l5 result)) (l5-effect viem setup job s result).0)
  turn-handed (ended outcome) h = inl (ended-handed outcome)

  pub turn-Distinct :
      (w : Wait)
      → Held (stage w) s job.id
      → Distinct (handed_ids s)
      → Distinct (handed_ids (after w))
  turn-Distinct w h d = elim (turn-handed w h) [
    | inl same ↦ subst Distinct (sym same) d
    | inr (more, fresh) ↦ subst Distinct (sym more) (Distinct-append (handed_ids s) job.id d fresh)
  ]

  pub launch-Distinct : Distinct (handed_ids s) → Distinct (handed_ids (after started))
  launch-Distinct d =
      subst Distinct (sym (ids-same s (after started) (started-effect viem setup job s).0)) d
