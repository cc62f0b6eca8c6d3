-- ===== src/Engine/Runner.antt =====
-- layer4/engine/src/pipelineRunner.ts: the full run of an execution through the lanes, as one step.
-- Calls that overlap in time are in Engine/Runner/Turns.antt.
pub mod State
pub mod Phases
pub mod Effects
pub mod Progress
pub mod Guarding
pub mod Ending
pub mod Outcome
pub mod Simulated
pub mod Once
pub mod Resending
pub mod Turns
use creation_of_energy_token.Prelude.{
  ℕ, Bool, true, false, ◌||◌, ◌==◌, Option, none, some, Text, if◌then◌else◌,
}
use creation_of_energy_token.Prelude.Int.{pos}
use creation_of_energy_token.Engine.Types.{
  Lane, LaneState, LaneStates, ExecutionLaneStatus, FailureReport, ExecutionRequest,
  ExecutionResult, monitoring, disputing, Exn, auth_error, error, Result, ok, err,
}
use creation_of_energy_token.Engine.External.{Viem}
use creation_of_energy_token.Engine.Handoff.{failure, compute_execution_id}
use creation_of_energy_token.Engine.Breaker.{record_attempt}
use State.{
  Setup, Runner, Outside, GasArgs, Exit, done, returned, thrown, Action, ◌>>=◌, ◌>>◌, modify, pure,
}
use Phases.{admit, build_tx, submit_tx, finish, set_lanes}

pub data OutcomeStatus : Type 0 where
  finalized failed rolled_back : OutcomeStatus

pub record PipelineRunOutcome : Type 0 where
  pub status : OutcomeStatus
  pub execution_id : Text
  pub result : Option ExecutionResult
  pub failure : Option FailureReport
  pub lane_states : LaneStates

-- Whatever failed, the lane marked FAILED is CTL.
unfoldable pub fail : FailureReport → Runner → PipelineRunOutcome × Runner
fail report s =
    let lanes : LaneStates = record (s.lane_states) { ctl = LaneState.failed } in
    (
      record {
        status = failed;
        execution_id = report.execution_id;
        result = none;
        failure = some report;
        lane_states = lanes;
      },
      record s { status = ExecutionLaneStatus.failed; lane_states = lanes },
    )

-- The failure that the `catch` block reports.
unfoldable pub report_of : Text → Exn → FailureReport
report_of id (auth_error code message execution_id) =
    failure execution_id Lane.auth code (code == 1103 || code == 1105)
      (if code == 1103 then monitoring else disputing) message
report_of id (error message) = failure id Lane.ctl 0 false disputing message

-- The body of the `try` block.
unfoldable pub execute :
    Viem → Setup → Outside → ExecutionRequest → Text → GasArgs → Action ExecutionResult
execute viem setup out request id gas = do
  admit viem setup out request id
  tx ← build_tx viem setup out request id gas
  submitted ← submit_tx setup out id tx
  finish out request id gas submitted

-- How the call ends: the three ways out of the body.
unfoldable pub conclude :
    Outside → Text → Exit ExecutionResult → Runner → PipelineRunOutcome × Runner
conclude out id (done result) s = (
  record {
    status = finalized;
    execution_id = id;
    result = some result;
    failure = none;
    lane_states = record (s.lane_states) { sft = LaneState.completed };
  },
  record s { breaker = record_attempt s.breaker true out.attempted_at },
)
conclude out id (returned report) s = fail report s
conclude out id (thrown e) s =
    fail (report_of id e) (record s { breaker = record_attempt s.breaker false out.attempted_at })

-- An error in computing the execution's id is outside the `try` block: the call itself throws.
unfoldable pub run :
    Viem
    → Setup
    → Outside
    → ExecutionRequest
    → GasArgs
    → Runner
    → Result PipelineRunOutcome × Runner
run viem setup out request gas s =
    elim (compute_execution_id viem request.contract_id request.obligation_hash (pos 0)) [
      | err e ↦ (err e, s)
      | ok id ↦
          let (r, s') = execute viem setup out request id gas s in
          let (outcome, s'') = conclude out id r s' in (ok outcome, s'')
    ]
