-- ===== src/Engine/Runner/Once.antt =====
-- Sequences of runs: layer 5 is handed each execution at most once, and a run that is not
-- admitted has no effect on the network or on layer 5.
use mathlib.Core.List.{map-append}
use creation_of_energy_token.Prelude.{
  ◌≡◌, refl, inl, inr, false, List, [], ◌∷◌, ◌++◌, map, some, Text, text_Eq, text_eq_iff, ◌===◌,
  Bool-cases, includes, All, All-append, sym, ◌∙◌, ap, subst,
}
use creation_of_energy_token.Prelude.Sets.{Distinct, Distinct-append}
use creation_of_energy_token.Engine.Types.{
  RecordStatus, ExecutionRequest, ExecutionResult, Result-cases,
}
use creation_of_energy_token.Engine.External.{Viem}
use creation_of_energy_token.Engine.Submitter.{SubmitResult}
use creation_of_energy_token.Engine.Runner.{execute, conclude, run}
use creation_of_energy_token.Engine.Runner.State.{Setup, Runner, Outside, GasArgs, Exit}
use creation_of_energy_token.Engine.Runner.Phases.{partial_result}
use creation_of_energy_token.Engine.Runner.Effects.{IsAdmitted, queued_guard, submitted_guard}
use creation_of_energy_token.Engine.Runner.Progress.{
  Progress, before_network, refused, unconfirmed, unacknowledged, completed,
}
use creation_of_energy_token.Engine.Runner.Progress.Reached.{execute-Progress}
use creation_of_energy_token.Engine.Runner.Ending.{conclude-trace, run_id, run-err, run-ok}
use creation_of_energy_token.Engine.Runner.Guarding.{
  IsBlocked, record-IsBlocked_self, admitted-not-IsBlocked, Progress-IsBlocked,
}

abbrev pub handed_ids : Runner → List Text
handed_ids s = map (λ (r : ExecutionResult). r.execution_id) s.handed_over

-- Each execution was handed to layer 5 once at most, and those that were are blocked.
pub record HandedOnce (s : Runner) : Type 0 where
  pub distinct : Distinct (handed_ids s)
  pub blocked : All (IsBlocked s.guard) (handed_ids s)

HandedOnce-transport :
    (s t : Runner) → t.guard ≡ s.guard → t.handed_over ≡ s.handed_over → HandedOnce s → HandedOnce t
HandedOnce-transport s t g o h = record {
  distinct =
      subst
        (λ (l : List ExecutionResult). Distinct (map (λ (x : ExecutionResult). x.execution_id) l))
        (sym o) h.distinct;
  blocked = rw (g, o) h.blocked;
}

pub All-fresh :
    (P : Text → Type 0) (ids : List Text) (id : Text)
    → All P ids
    → (P id → ⊥)
    → includes ids id ≡ false
All-fresh P [] id all fresh = refl
All-fresh P (x ∷ ids) id (here, later) fresh = elim (Bool-cases (x === id)) [
  | inl same ↦ absurd (fresh (subst P ((text_eq_iff x id).0 same) here))
  | inr differ ↦ rw (differ, includes) (All-fresh P ids id later fresh)
]

All-map_imp :
    (P Q : Text → Type 0) (ids : List Text) → ((id : Text) → P id → Q id) → All P ids → All Q ids
All-map_imp P Q [] f all = tt
All-map_imp P Q (x ∷ ids) f (here, later) = (f x here, All-map_imp P Q ids f later)

module _ (viem : Viem) (setup : Setup) (out : Outside) (request : ExecutionRequest) (id : Text)
    (gas : GasArgs) where
  still-IsBlocked :
      (s t : Runner) (r : Exit ExecutionResult)
      → Progress viem setup out request id gas s r t
      → HandedOnce s
      → All (IsBlocked t.guard) (handed_ids s)
  still-IsBlocked s t r p h =
      All-map_imp (IsBlocked s.guard) (IsBlocked t.guard) (handed_ids s)
        (λ x. Progress-IsBlocked viem setup out request id gas s t r x p) h.blocked

  marked-IsBlocked :
      (s : Runner) (result : SubmitResult) → IsBlocked (submitted_guard out id result.tx_hash s) id
  marked-IsBlocked s result =
      record-IsBlocked_self (queued_guard out id s) id RecordStatus.submitted (some result.tx_hash)
        out.submitted_at refl

  handed_ids-append :
      (s t : Runner) (result : SubmitResult)
      → t.handed_over ≡ s.handed_over ++ partial_result request id gas result ∷ []
      → handed_ids t ≡ handed_ids s ++ id ∷ []
  unfolding partial_result
  handed_ids-append s t result more =
      ap (map (λ (x : ExecutionResult). x.execution_id)) more
      ∙ map-append (λ (x : ExecutionResult). x.execution_id) s.handed_over
          (partial_result request id gas result ∷ [])

  HandedOnce-same :
      (s t : Runner) (r : Exit ExecutionResult)
      → Progress viem setup out request id gas s r t
      → t.handed_over ≡ s.handed_over
      → HandedOnce s
      → HandedOnce t
  HandedOnce-same s t r p same h =
      let eq : handed_ids t ≡ handed_ids s =
        ap (map (λ (x : ExecutionResult). x.execution_id)) same in
      record {
        distinct = subst Distinct (sym eq) h.distinct;
        blocked = subst (All (IsBlocked t.guard)) (sym eq) (still-IsBlocked s t r p h);
      }

  HandedOnce-more :
      (s t : Runner) (r : Exit ExecutionResult) (result : SubmitResult)
      → Progress viem setup out request id gas s r t
      → IsAdmitted viem setup out request id s
      → IsBlocked t.guard id
      → t.handed_over ≡ s.handed_over ++ partial_result request id gas result ∷ []
      → HandedOnce s
      → HandedOnce t
  HandedOnce-more s t r result p a b more h =
      let eq : handed_ids t ≡ handed_ids s ++ id ∷ [] = handed_ids-append s t result more in
      let fresh : includes (handed_ids s) id ≡ false =
        All-fresh (IsBlocked s.guard) (handed_ids s) id h.blocked
          (admitted-not-IsBlocked viem setup out request id gas s a) in
      record {
        distinct = subst Distinct (sym eq) (Distinct-append (handed_ids s) id h.distinct fresh);
        blocked = subst (All (IsBlocked t.guard)) (sym eq) (
            All-append (IsBlocked t.guard) (handed_ids s) (id ∷ []) (still-IsBlocked s t r p h)
              (b, tt));
      }

  Progress-HandedOnce :
      (s t : Runner) (r : Exit ExecutionResult)
      → Progress viem setup out request id gas s r t
      → HandedOnce s
      → HandedOnce t
  Progress-HandedOnce s t r p h = by_cases p
    where
      by_cases : Progress viem setup out request id gas s r t → HandedOnce t
      by_cases (before_network stop same) = HandedOnce-same s t r p same.handed_over h
      by_cases (refused tx e sent d x g o) = HandedOnce-same s t r p o h
      by_cases (unconfirmed tx result sent d x g o) = HandedOnce-same s t r p o h
      by_cases (unacknowledged tx result sent d x g o) =
          HandedOnce-more s t r result p d.admitted (rw g (marked-IsBlocked s result)) o h
      by_cases (completed tx result sent ack d x y z g o) =
          HandedOnce-more s t r result p d.admitted
            (rw g (
              record-IsBlocked_self (submitted_guard out id result.tx_hash s) id
                RecordStatus.finalized (some result.tx_hash) out.finalized_at refl))
            o h

-- One call of `run`: what it reads, its request and its gas.
pub record Call : Type 0 where
  pub out : Outside
  pub request : ExecutionRequest
  pub gas : GasArgs

module _ (viem : Viem) (setup : Setup) where
  -- Calls of `run`, one after the other.
  abbrev pub run_all : List Call → Runner → Runner
  run_all [] s = s
  run_all (c ∷ calls) s = run_all calls (run viem setup c.out c.request c.gas s).1

  run-HandedOnce :
      (out : Outside) (request : ExecutionRequest) (gas : GasArgs) (s : Runner)
      → HandedOnce s
      → HandedOnce (run viem setup out request gas s).1
  run-HandedOnce out request gas s h = elim (Result-cases (run_id viem request)) [
    | inr (e, broken) ↦
        subst HandedOnce (sym (ap (λ x. x.1) (run-err viem setup out request gas s broken))) h
    | inl (id, e) ↦
        let (r, t) = execute viem setup out request id gas s in
        let (guard, sent, handed) = conclude-trace out id r t in
        subst HandedOnce (sym (ap (λ x. x.1) (run-ok viem setup out request gas s e))) (
          HandedOnce-transport t (conclude out id r t).1 guard handed (
            Progress-HandedOnce viem setup out request id gas s t r
              (execute-Progress viem setup out request id gas s) h))
  ]

  -- Every sequence of runs keeps this: layer 5 was handed no execution twice, and each execution
  -- that it was handed is blocked in the guard.
  pub run_all-HandedOnce :
      (calls : List Call) (s : Runner) → HandedOnce s → HandedOnce (run_all calls s)
  run_all-HandedOnce [] s h = h
  run_all-HandedOnce (c ∷ calls) s h =
      run_all-HandedOnce calls (run viem setup c.out c.request c.gas s).1
        (run-HandedOnce c.out c.request c.gas s h)
