-- ===== src/Tests/Parts.antt =====
-- The engine's parts at concrete inputs.
use creation_of_energy_token.Prelude.{◌≡◌, false, text_Eq, codes}
use creation_of_energy_token.Prelude.Int.{pos}
use creation_of_energy_token.Engine.Types.{confirmed}
use creation_of_energy_token.Engine.Confirmation.{await_confirmations}
use creation_of_energy_token.Engine.Confirmation.Laws.{await_confirmations_confirms}
use creation_of_energy_token.Engine.Breaker.{CircuitBreaker}
use creation_of_energy_token.Engine.Submitter.{submit, submit_with_retry}
use creation_of_energy_token.Engine.Submitter.Laws.{or_then, raised, submit_with_retry-attempts}
use creation_of_energy_token.Tests.Data.{test_network, live_submitter, test_tx}

submit_with_retry-attempts_example :
    submit_with_retry live_submitter test_network test_tx
    ≡ or_then (submit live_submitter test_network test_tx 0) (
        or_then
          (submit live_submitter test_network (raised test_tx) 1)
          (submit live_submitter test_network (raised (raised test_tx)) 2))
submit_with_retry-attempts_example = submit_with_retry-attempts live_submitter test_network test_tx

abbrev two_of_four : CircuitBreaker
two_of_four = record { is_open = false; window_start = 0; attempts = 4; failures = 1 }

await_confirmations_confirms_example : await_confirmations (codes "x") 70 ≡ record {
  tx_hash = codes "x";
  submitted_at_block = 70;
  required_confirmations = 12;
  current_confirmations = pos 12;
  status = confirmed;
}
await_confirmations_confirms_example = await_confirmations_confirms (codes "x") 70
