-- ===== src/Engine/Runner/Resending.antt =====
-- Sequences of runs: an execution that reached the network is not sent again by a later run.
use creation_of_energy_token.Prelude.{
  ◌≡◌, refl, inl, inr, Bool, false, List, [], ◌∷◌, ◌++◌, append-nil, Text, text_Eq, text_eq_iff,
  ◌===◌, Bool-cases, filter, arith, sym, ◌∙◌, ap, subst,
}
use creation_of_energy_token.Engine.Types.{
  ExecutionRequest, ExecutionResult, TransactionRequest, ok, Result-cases,
}
use creation_of_energy_token.Engine.External.{Viem}
use creation_of_energy_token.Engine.Runner.{execute, run}
use creation_of_energy_token.Engine.Runner.State.{Setup, Runner, Outside, GasArgs, Exit}
use creation_of_energy_token.Engine.Runner.Phases.{tagged}
use creation_of_energy_token.Engine.Runner.Progress.{
  Progress, before_network, refused, unconfirmed, unacknowledged, completed,
}
use creation_of_energy_token.Engine.Runner.Progress.Reached.{execute-Progress}
use creation_of_energy_token.Engine.Runner.Guarding.{
  IsBlocked, admitted-not-IsBlocked, Progress-IsBlocked,
}
use creation_of_energy_token.Engine.Runner.Ending.{conclude-trace, run_id, run-err, run-ok}
use creation_of_energy_token.Engine.Runner.Outcome.{run_not_admitted}
use creation_of_energy_token.Engine.Runner.Once.{Call, run_all}

abbrev for_id : Text → Text × TransactionRequest → Bool
for_id id p = p.0 === id

-- What was sent to the network for one execution.
abbrev pub sent_for : Text → List (Text × TransactionRequest) → List (Text × TransactionRequest)
sent_for id sent = filter (for_id id) sent

sent_for-append :
    (id : Text) (xs ys : List (Text × TransactionRequest))
    → sent_for id (xs ++ ys) ≡ sent_for id xs ++ sent_for id ys
sent_for-append id [] ys = refl
sent_for-append id (x ∷ xs) ys = ground (arith, sent_for-append id xs ys)

sent_for-tagged :
    (id other : Text) (txs : List TransactionRequest)
    → (other === id) ≡ false
    → sent_for id (tagged other txs) ≡ []
sent_for-tagged id other [] h = refl
sent_for-tagged id other (tx ∷ txs) h = ground (arith, sent_for-tagged id other txs h)

sent_for-more :
    (id other : Text) (txs : List TransactionRequest) (xs ys : List (Text × TransactionRequest))
    → (other === id) ≡ false
    → ys ≡ xs ++ tagged other txs
    → sent_for id ys ≡ sent_for id xs
sent_for-more id other txs xs ys h e = ground (
  arith,
  sent_for-append id xs (tagged other txs),
  sent_for-tagged id other txs h,
  append-nil (sent_for id xs),
)

module _ (viem : Viem) (setup : Setup) where
  -- A blocked execution stays blocked, and nothing was sent for it.
  record IsKept (id : Text) (s t : Runner) : Type 0 where
    blocked : IsBlocked t.guard id
    sent : sent_for id t.sent ≡ sent_for id s.sent

  Progress-IsKept :
      (out : Outside) (request : ExecutionRequest) (gas : GasArgs) (id other : Text) (s t : Runner)
      (r : Exit ExecutionResult)
      → Progress viem setup out request other gas s r t
      → (other === id) ≡ false
      → sent_for id t.sent ≡ sent_for id s.sent
  Progress-IsKept out request gas id other s t r (before_network stop same) h =
      ap (sent_for id) same.sent
  Progress-IsKept out request gas id other s t r (refused tx e sent d x g o) h =
      sent_for-more id other sent s.sent t.sent h d.sent
  Progress-IsKept out request gas id other s t r (unconfirmed tx result sent d x g o) h =
      sent_for-more id other sent s.sent t.sent h d.sent
  Progress-IsKept out request gas id other s t r (unacknowledged tx result sent d x g o) h =
      sent_for-more id other sent s.sent t.sent h d.sent
  Progress-IsKept out request gas id other s t r (completed tx result sent ack d x y z g o) h =
      sent_for-more id other sent s.sent t.sent h d.sent

  run_other-IsKept :
      (out : Outside) (request : ExecutionRequest) (gas : GasArgs) (id other : Text) (s : Runner)
      → run_id viem request ≡ ok other
      → (other === id) ≡ false
      → IsBlocked s.guard id
      → IsKept id s (run viem setup out request gas s).1
  run_other-IsKept out request gas id other s e h b =
      let (r, t) = execute viem setup out request other gas s in
      let (guard, sent, handed) = conclude-trace out other r t in
      let p = execute-Progress viem setup out request other gas s in
      subst (IsKept id s) (sym (ap (λ x. x.1) (run-ok viem setup out request gas s e))) (record {
        blocked =
            subst (λ g. IsBlocked g id) (sym guard)
              (Progress-IsBlocked viem setup out request other gas s t r id p b);
        sent = ap (sent_for id) sent ∙ Progress-IsKept out request gas id other s t r p h;
      })

  run_same-IsKept :
      (out : Outside) (request : ExecutionRequest) (gas : GasArgs) (id : Text) (s : Runner)
      → run_id viem request ≡ ok id
      → IsBlocked s.guard id
      → IsKept id s (run viem setup out request gas s).1
  run_same-IsKept out request gas id s e b =
      let idle =
        run_not_admitted viem setup out request gas id s e
          (λ a. admitted-not-IsBlocked viem setup out request id gas s a b) in
      record {
        blocked = subst (λ g. IsBlocked g id) (sym idle.guard) b;
        sent = ap (sent_for id) idle.sent;
      }

  run-IsKept :
      (out : Outside) (request : ExecutionRequest) (gas : GasArgs) (id : Text) (s : Runner)
      → IsBlocked s.guard id
      → IsKept id s (run viem setup out request gas s).1
  run-IsKept out request gas id s b = elim (Result-cases (run_id viem request)) [
    | inr (e, broken) ↦
        subst (IsKept id s) (sym (ap (λ x. x.1) (run-err viem setup out request gas s broken)))
          (record { blocked = b; sent = refl })
    | inl (other, e) ↦ elim (Bool-cases (other === id)) [
      | inl same ↦
          run_same-IsKept out request gas id s (e ∙ ap ok ((text_eq_iff other id).0 same)) b
      | inr differ ↦ run_other-IsKept out request gas id other s e differ b
    ]
  ]

  -- Once the guard has an execution as submitted, confirming or finalized, no sequence of later
  -- runs, of whatever requests, sends a transaction for it, and it stays blocked.
  pub run_all-sent_for :
      (calls : List Call) (id : Text) (s : Runner)
      → IsBlocked s.guard id
      → IsBlocked (run_all viem setup calls s).guard id
        × (sent_for id (run_all viem setup calls s).sent ≡ sent_for id s.sent)
  run_all-sent_for [] id s b = (b, refl)
  run_all-sent_for (c ∷ calls) id s b =
      let kept = run-IsKept c.out c.request c.gas id s b in
      let (b', same) =
        run_all-sent_for calls id (run viem setup c.out c.request c.gas s).1 kept.blocked in
      (b', same ∙ kept.sent)
