-- ===== src/Engine/Runner/Progress.antt =====
-- How far the body of `run` comes: every way through its four phases, with what it leaves behind.
pub mod Reached
use creation_of_energy_token.Prelude.{
  ◌≡◌, refl, inl, inr, true, false, List, [], ◌∷◌, ◌++◌, none, some, Text, arith, sym, ◌∙◌, ap,
  subst,
}
use creation_of_energy_token.Engine.Types.{
  RecordStatus, ExecutionRequest, ExecutionResult, TransactionRequest, Result, ok, err,
  Result-cases, Exn,
}
use creation_of_energy_token.Engine.External.{Viem}
use creation_of_energy_token.Engine.Idempotency.{record_status}
use creation_of_energy_token.Engine.Submitter.{Submission, SubmitResult, submit_with_retry}
use creation_of_energy_token.Engine.Runner.{execute}
use creation_of_energy_token.Engine.Runner.State.{
  Setup, Runner, Outside, GasArgs, L5Ack, Exit, done, thrown, is_done, Exit-cases, >>=-done,
  >>=-stopped, >>=-thrown, ◌>>=◌,
}
use creation_of_energy_token.Engine.Runner.Phases.{
  admit, build_tx, tagged, submit_tx, partial_result, finish,
}
use creation_of_energy_token.Engine.Runner.Effects.{
  SameTrace, IsAdmitted, admit-SameTrace, admit-done_iff, build_tx-SameTrace, queued_guard,
  submitted_guard, submit_tx-trace, submit_tx_refused, submit_tx_sent, finish-trace, finish-stopped,
  finish-done,
}

module _ (viem : Viem) (setup : Setup) (out : Outside) (request : ExecutionRequest) (id : Text)
    (gas : GasArgs) where
  -- What holds once a transaction was built and handed to the submitter.
  pub record Handed (s t : Runner) (tx : TransactionRequest) (submitted : Submission) : Type 0 where
    pub admitted : IsAdmitted viem setup out request id s
    pub attempts : submit_with_retry setup.submitter out.network tx ≡ submitted
    pub breaker : t.breaker ≡ s.breaker
    pub sent : t.sent ≡ s.sent ++ tagged id submitted.1

  pub data Progress (s : Runner) (r : Exit ExecutionResult) (t : Runner) : Type 0 where
    -- a gate, the signatures or the builder stopped the run
    before_network : is_done r ≡ false → SameTrace s t → Progress s r t
    -- all attempts to submit failed
    refused :
        (tx : TransactionRequest) (e : Exn) (sent : List TransactionRequest)
        → Handed s t tx (err e, sent)
        → r ≡ thrown e
        → t.guard ≡ queued_guard out id s
        → t.handed_over ≡ s.handed_over
        → Progress s r t
    -- submitted, and not confirmed by its receipt
    unconfirmed :
        (tx : TransactionRequest) (result : SubmitResult) (sent : List TransactionRequest)
        → Handed s t tx (ok result, sent)
        → is_done r ≡ false
        → t.guard ≡ submitted_guard out id result.tx_hash s
        → t.handed_over ≡ s.handed_over
        → Progress s r t
    -- submitted and handed to layer 5, which did not acknowledge it
    unacknowledged :
        (tx : TransactionRequest) (result : SubmitResult) (sent : List TransactionRequest)
        → Handed s t tx (ok result, sent)
        → is_done r ≡ false
        → t.guard ≡ submitted_guard out id result.tx_hash s
        → t.handed_over ≡ s.handed_over ++ partial_result request id gas result ∷ []
        → Progress s r t
    completed :
        (tx : TransactionRequest) (result : SubmitResult) (sent : List TransactionRequest)
        (ack : L5Ack)
        → Handed s t tx (ok result, sent)
        → out.l5 (partial_result request id gas result) ≡ ok ack
        → ack.acknowledged ≡ true
        → r
          ≡ done (record (partial_result request id gas result) {
            proof_ids = ack.proof_ids;
            regulatory_report_cid = ack.regulatory_report_cid;
          })
        → t.guard
          ≡ record_status
              (submitted_guard out id result.tx_hash s)
              id
              RecordStatus.finalized
              (some result.tx_hash)
              out.finalized_at
        → t.handed_over ≡ s.handed_over ++ partial_result request id gas result ∷ []
        → Progress s r t
