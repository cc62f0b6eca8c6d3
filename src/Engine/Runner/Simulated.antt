-- ===== src/Engine/Runner/Simulated.antt =====
-- The runner in simulation mode: what suffices for a finalized outcome.
use creation_of_energy_token.Prelude.{
  ℕ, ◌≡◌, ◌≢◌, refl, inl, inr, true, List, [], ◌∷◌, Text, arith, sym, ap, subst,
}
use creation_of_energy_token.Prelude.Int.{pos, ◌≤ℤ◌}
use creation_of_energy_token.Engine.Types.{
  ExecutionRequest, ExecutionResult, TransactionRequest, Obligation, ok,
}
use creation_of_energy_token.Engine.External.{Viem}
use creation_of_energy_token.Engine.Builder.{bare_tx, build_execute_batch_tx, request_tuple}
use creation_of_energy_token.Engine.Nonce.{next}
use creation_of_energy_token.Engine.Confirmation.Laws.{await_confirmations_confirms}
use creation_of_energy_token.Engine.Submitter.{
  simulation, SubmitResult, submit, submit_from, submit_with_retry,
}
use creation_of_energy_token.Engine.Runner.{finalized, PipelineRunOutcome, execute, conclude, run}
use creation_of_energy_token.Engine.Runner.State.{
  Setup, Runner, Outside, GasArgs, L5Ack, Exit, done, is_done, Action, ◌>>=◌, >>=-done, Exit-cases,
}
use creation_of_energy_token.Engine.Runner.Phases.{
  has_obligation, admit, build_tx, take_nonce, build_call, submit_tx, submit_to_network,
  check_receipt, partial_result, ask_l5, finish,
}
use creation_of_energy_token.Engine.Runner.Effects.{IsAdmitted, admit-done_iff}
use creation_of_energy_token.Engine.Runner.Progress.Reached.{at_finish, at_submit, at_build}
use creation_of_energy_token.Engine.Runner.Ending.{run_id, run-ok}

module _ (viem : Viem) (setup : Setup) (out : Outside) (request : ExecutionRequest) (gas : GasArgs)
    (id : Text) where
  -- What the runner needs beside its admission: simulation mode, an obligation, a chain id that
  -- is positive, calldata for the request, and a layer 5 that acknowledges what it is handed.
  pub record IsReady : Type 0 where
    pub mode : setup.config.submit_mode ≡ simulation
    pub net_mode : setup.submitter.mode ≡ simulation
    pub obligations : request.obligations ≢ []
    pub chain_id : ¬ (setup.config.chain_id ≤ℤ pos 0)
    pub call_data : Text
    pub encodes :
        viem.encode_execute_batch (record {
          contract_id = request.contract_id;
          request = request_tuple request;
          batch_id = id;
        })
        ≡ ok call_data
    pub ack : L5Ack
    pub acknowledged : ack.acknowledged ≡ true
    pub answers : (result : ExecutionResult) → out.l5 result ≡ ok ack

  abbrev call_tx : IsReady → ℕ → TransactionRequest
  call_tx h nonce = bare_tx setup.config.engine_address h.call_data nonce setup.config.chain_id

  build_call-done :
      (h : IsReady) (nonce : ℕ) → build_call viem setup request id nonce ≡ done (call_tx h nonce)
  unfolding build_call build_execute_batch_tx
  build_call-done h nonce = ground (arith, h.mode, h.chain_id, h.encodes)

  obligations-done : IsReady → has_obligation request.obligations ≡ ok tt
  obligations-done h = by_cases request.obligations h.obligations
    where
      by_cases : (os : List Obligation) → os ≢ [] → has_obligation os ≡ ok tt
      by_cases [] n = absurd (n refl)
      by_cases (o ∷ os) n = refl

  build_tx-done :
      (s : Runner) → IsReady → is_done (build_tx viem setup out request id gas s).0 ≡ true
  unfolding build_tx take_nonce
  build_tx-done s h = ground (
    arith,
    h.mode,
    obligations-done h,
    build_call-done h (next s.nonces setup.config.relayer_address).0,
  )

  submit_tx-done :
      (s : Runner) (tx : TransactionRequest)
      → IsReady
      → is_done (submit_tx setup out id tx s).0 ≡ true
  unfolding submit_tx submit_to_network check_receipt submit_with_retry submit_from submit
  submit_tx-done s tx h = ground (arith, h.mode, h.net_mode)

  finish-is_done :
      (s : Runner) (submitted : SubmitResult)
      → IsReady
      → is_done (finish out request id gas submitted s).0 ≡ true
  unfolding finish ask_l5
  finish-is_done s submitted h = ground (
    arith,
    h.acknowledged,
    h.answers (partial_result request id gas submitted),
    await_confirmations_confirms submitted.tx_hash submitted.submitted_at_block,
  )

  -- A bind of actions that go on goes on.
  >>=-is_done :
      {A B : Type 0} (m : Action A) (k : A → Action B) (s : Runner)
      → is_done (m s).0 ≡ true
      → ((a : A) → is_done (k a (m s).1).0 ≡ true)
      → is_done ((m >>= k) s).0 ≡ true
  >>=-is_done m k s h f = elim (Exit-cases (m s).0) [
    | inl (a, e) ↦ subst (λ x. is_done x.0 ≡ true) (sym (>>=-done m k s e)) (f a)
    | inr stop ↦ absurd (ground arith)
  ]

  submit-is_done :
      (s : Runner) (tx : TransactionRequest)
      → IsReady
      → is_done (at_submit viem setup out request id gas tx s).0 ≡ true
  submit-is_done s tx h =
      >>=-is_done (submit_tx setup out id tx) (at_finish viem setup out request id gas) s
        (submit_tx-done s tx h)
        (λ submitted. finish-is_done (submit_tx setup out id tx s).1 submitted h)

  build-is_done :
      (s : Runner) → IsReady → is_done (at_build viem setup out request id gas tt s).0 ≡ true
  build-is_done s h =
      >>=-is_done (build_tx viem setup out request id gas) (at_submit viem setup out request id gas)
        s (build_tx-done s h)
        (λ tx. submit-is_done (build_tx viem setup out request id gas s).1 tx h)

  execute-is_done :
      (s : Runner)
      → IsReady
      → IsAdmitted viem setup out request id s
      → is_done (execute viem setup out request id gas s).0 ≡ true
  unfolding execute
  execute-is_done s h a =
      >>=-is_done (admit viem setup out request id) (at_build viem setup out request id gas) s
        (ap is_done ((admit-done_iff viem setup out request id s).1 a))
        (λ u. build-is_done (admit viem setup out request id s).1 h)

  conclude-done :
      (r : Exit ExecutionResult) (t : Runner)
      → is_done r ≡ true
      → (conclude out id r t).0.status ≡ finalized
  unfolding conclude
  conclude-done r t h = ground arith

  -- An admitted run of a ready request, whose id can be computed, ends with a finalized outcome.
  -- Ready means: simulation mode, an obligation, a positive chain id, calldata that encodes, and a
  -- layer 5 that acknowledges whatever it is handed.
  pub run-finalizes :
      (s : Runner)
      → run_id viem request ≡ ok id
      → IsReady
      → IsAdmitted viem setup out request id s
      → (outcome : PipelineRunOutcome) × ((run viem setup out request gas s).0 ≡ ok outcome)
        × (outcome.status ≡ finalized)
  run-finalizes s e h a =
      let (r, t) = execute viem setup out request id gas s in
      (
        (conclude out id r t).0,
        ap (λ x. x.0) (run-ok viem setup out request gas s e),
        conclude-done r t (execute-is_done s h a),
      )
