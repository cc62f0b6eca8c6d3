-- ===== src/Engine/Runner/Ending.antt =====
-- How a call of `run` ends, from how its body ends.
use creation_of_energy_token.Prelude.{◌≡◌, refl, false, Text, arith}
use creation_of_energy_token.Prelude.Int.{pos}
use creation_of_energy_token.Engine.Types.{ExecutionRequest, ExecutionResult, Result, ok, err, Exn}
use creation_of_energy_token.Engine.External.{Viem}
use creation_of_energy_token.Engine.Handoff.{compute_execution_id}
use creation_of_energy_token.Engine.Runner.{failed, execute, conclude, run, fail}
use creation_of_energy_token.Engine.Runner.State.{
  Setup, Runner, Outside, GasArgs, Exit, done, returned, thrown, is_done,
}

-- Whatever ends the body, what follows it touches neither the guard nor what was sent or handed.
pub conclude-trace :
    (out : Outside) (id : Text) (r : Exit ExecutionResult) (s : Runner)
    → let t = (conclude out id r s).1 in
      (t.guard ≡ s.guard) × (t.sent ≡ s.sent) × (t.handed_over ≡ s.handed_over)
unfolding conclude fail
conclude-trace out id (done result) s = (refl, refl, refl)
conclude-trace out id (returned report) s = (refl, refl, refl)
conclude-trace out id (thrown e) s = (refl, refl, refl)

pub conclude-stopped :
    (out : Outside) (id : Text) (r : Exit ExecutionResult) (s : Runner)
    → is_done r ≡ false
    → (conclude out id r s).0.status ≡ failed
unfolding conclude fail
conclude-stopped out id (done result) s h = absurd (ground arith)
conclude-stopped out id (returned report) s h = refl
conclude-stopped out id (thrown e) s h = refl

-- The id that a run gives to its request.
abbrev pub run_id : Viem → ExecutionRequest → Result Text
run_id viem request = compute_execution_id viem request.contract_id request.obligation_hash (pos 0)

module _ (viem : Viem) (setup : Setup) (out : Outside) (request : ExecutionRequest) (gas : GasArgs)
    (s : Runner) where
  pub run-err :
      {e : Exn} → run_id viem request ≡ err e → run viem setup out request gas s ≡ (err e, s)
  unfolding run
  run-err h = ground arith

  pub run-ok :
      {id : Text}
      → run_id viem request ≡ ok id
      → let (r, t) = execute viem setup out request id gas s in
        run viem setup out request gas s ≡ (ok (conclude out id r t).0, (conclude out id r t).1)
  unfolding run
  run-ok h = ground arith
