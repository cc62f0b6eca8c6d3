-- ===== src/Engine/Runner/Guarding.antt =====
-- No execution is run twice: what the guard refuses, and that it never forgets.
use creation_of_energy_token.Prelude.{
  ℕ, ◌≡◌, refl, inl, inr, true, Option, none, some, Text, text_Eq, text_eq_iff, ◌===◌, Bool-cases,
  arith, sym, subst,
}
use creation_of_energy_token.Engine.Types.{RecordStatus, ExecutionRequest, ExecutionResult}
use creation_of_energy_token.Engine.External.{Viem}
use creation_of_energy_token.Engine.Idempotency.{Guard, is_in_flight, record_status}
use creation_of_energy_token.Engine.Idempotency.Laws.{
  status_of, blocks, assert_not_in_flight_iff, status_of-record_self, check-record_ne,
}
use creation_of_energy_token.Engine.Runner.State.{Setup, Runner, Outside, GasArgs, Exit}
use creation_of_energy_token.Engine.Runner.Effects.{IsAdmitted, queued_guard, submitted_guard}
use creation_of_energy_token.Engine.Runner.Progress.{
  Progress, before_network, refused, unconfirmed, unacknowledged, completed,
}

-- The guard refuses a new run of the execution.
abbrev pub IsBlocked : Guard → Text → Type 0
IsBlocked g id = blocks (status_of g id) ≡ true

pub record-IsBlocked_self :
    (g : Guard) (id : Text) (s : RecordStatus) (h : Option Text) (now : ℕ)
    → is_in_flight s ≡ true
    → IsBlocked (record_status g id s h now) id
record-IsBlocked_self g id s h now f = rw (status_of-record_self g id s h now, blocks) f

pub record-IsBlocked_ne :
    (g : Guard) (id other : Text) (s : RecordStatus) (h : Option Text) (now : ℕ)
    → (id ≡ other → ⊥)
    → IsBlocked g other
    → IsBlocked (record_status g id s h now) other
record-IsBlocked_ne g id other s h now ne b = ground (arith, check-record_ne g id other s h now ne)

-- An entry in flight, or of another execution, stays blocked by whatever is recorded in flight.
pub record-IsBlocked :
    (g : Guard) (id other : Text) (s : RecordStatus) (h : Option Text) (now : ℕ)
    → is_in_flight s ≡ true
    → IsBlocked g other
    → IsBlocked (record_status g id s h now) other
record-IsBlocked g id other s h now f b = elim (Bool-cases (id === other)) [
  | inl same ↦
      subst (IsBlocked (record_status g id s h now)) ((text_eq_iff id other).0 same)
        (record-IsBlocked_self g id s h now f)
  | inr differ ↦
      record-IsBlocked_ne g id other s h now (λ e. ground (arith, text_eq_iff id other)) b
]

module _ (viem : Viem) (setup : Setup) (out : Outside) (request : ExecutionRequest) (id : Text)
    (gas : GasArgs) where
  pub admitted-not-IsBlocked :
      (s : Runner) → IsAdmitted viem setup out request id s → IsBlocked s.guard id → ⊥
  admitted-not-IsBlocked s a b = ground (arith, assert_not_in_flight_iff s.guard id, a.fresh)

  queued-IsBlocked :
      (s : Runner) (other : Text)
      → IsAdmitted viem setup out request id s
      → IsBlocked s.guard other
      → IsBlocked (queued_guard out id s) other
  queued-IsBlocked s other a b =
      record-IsBlocked_ne s.guard id other RecordStatus.queued none out.queued_at
        (λ e. admitted-not-IsBlocked s a (subst (IsBlocked s.guard) (sym e) b)) b

  submitted-IsBlocked :
      (s : Runner) (other tx_hash : Text)
      → IsAdmitted viem setup out request id s
      → IsBlocked s.guard other
      → IsBlocked (submitted_guard out id tx_hash s) other
  submitted-IsBlocked s other tx_hash a b =
      record-IsBlocked (queued_guard out id s) id other RecordStatus.submitted (some tx_hash)
        out.submitted_at refl (queued-IsBlocked s other a b)

  -- The body of a run unblocks no execution.
  pub Progress-IsBlocked :
      (s t : Runner) (r : Exit ExecutionResult) (other : Text)
      → Progress viem setup out request id gas s r t
      → IsBlocked s.guard other
      → IsBlocked t.guard other
  Progress-IsBlocked s t r other (before_network stop same) b = rw same.guard b
  Progress-IsBlocked s t r other (refused tx e sent h x g o) b =
      rw g (queued-IsBlocked s other h.admitted b)
  Progress-IsBlocked s t r other (unconfirmed tx result sent h x g o) b =
      rw g (submitted-IsBlocked s other result.tx_hash h.admitted b)
  Progress-IsBlocked s t r other (unacknowledged tx result sent h x g o) b =
      rw g (submitted-IsBlocked s other result.tx_hash h.admitted b)
  Progress-IsBlocked s t r other (completed tx result sent ack h x y z g o) b = rw g (
      record-IsBlocked (submitted_guard out id result.tx_hash s) id other RecordStatus.finalized
        (some result.tx_hash) out.finalized_at refl
        (submitted-IsBlocked s other result.tx_hash h.admitted b))
