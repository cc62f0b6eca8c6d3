-- ===== src/Engine/Submitter.antt =====
-- layer4/engine/src/networkSubmitter.ts. A call returns its result and the transactions that it
-- handed to the wallet, in order.
pub mod Laws
use creation_of_energy_token.Prelude.{
  ℕ, zero, suc, ◌+◌, ◌*◌, ◌/◌, Bool, true, false, ◌&&◌, List, [], ◌∷◌, ◌++◌, Option, none, some,
  Text, take, or_else,
}
use creation_of_energy_token.Engine.Types.{
  TransactionRequest, Result, ok, err, Exn, error, live_mode_requires_clients, retries_exhausted,
  max_retries,
}
use creation_of_energy_token.Engine.External.{Network}

pub data SubmitMode : Type 0 where
  simulation live safe : SubmitMode

pub record SubmitResult : Type 0 where
  pub tx_hash : Text
  pub submitted_at_block : ℕ

-- The submitter's mode, and whether it has a wallet with an account and a public client.
pub record Submitter : Type 0 where
  pub mode : SubmitMode
  pub has_account : Bool
  pub has_public_client : Bool

abbrev pub Submission : Type 0
Submission = Result SubmitResult × List TransactionRequest

-- The block is read after the transaction was sent.
with_block : Result ℕ → Text → Result SubmitResult
with_block (ok block) hash = ok (record { tx_hash = hash; submitted_at_block = block })
with_block (err e) hash = err e

send_live : Network → TransactionRequest → ℕ → Submission
unfolding with_block
send_live net tx retry = elim (net.send_transaction retry tx) [
  | err e ↦ (err e, tx ∷ [])
  | ok hash ↦ (with_block (net.block_number retry) hash, tx ∷ [])
]

unfoldable pub submit : Submitter → Network → TransactionRequest → ℕ → Submission
unfolding send_live
submit s net tx retry = elim s.mode [
  | simulation ↦ (
    ok (record {
      tx_hash = net.simulated_hash tx.to (take 66 tx.call_data) tx.nonce retry;
      submitted_at_block = 1_000_000;
    }),
    [],
  )
  | _ ↦ elim (s.has_account && s.has_public_client) [
    | false ↦ (err (error live_mode_requires_clients), [])
    | true ↦ send_live net tx retry
  ]
]

-- The fees of the next attempt.
unfoldable pub bump_fees : TransactionRequest → TransactionRequest
bump_fees tx = record tx {
  max_fee_per_gas = tx.max_fee_per_gas * 125 / 100;
  max_priority_fee_per_gas = tx.max_priority_fee_per_gas * 125 / 100;
}

-- The loop of `submitWithRetry`, on the attempts that are left.
unfoldable pub submit_from :
    Submitter → Network → ℕ → ℕ → TransactionRequest → Option Exn → Submission
submit_from s net zero i tx last_error = (err (or_else last_error (error retries_exhausted)), [])
submit_from s net (suc left) i tx last_error =
    let (r, sent) = submit s net tx i in
    elim r [
      | ok result ↦ (ok result, sent)
      | err e ↦
          let (r', sent') = submit_from s net left (i + 1) (bump_fees tx) (some e) in
          (r', sent ++ sent')
    ]

unfoldable pub submit_with_retry : Submitter → Network → TransactionRequest → Submission
submit_with_retry s net tx = submit_from s net max_retries 0 tx none
