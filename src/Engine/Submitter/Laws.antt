-- ===== src/Engine/Submitter/Laws.antt =====
-- What `submitWithRetry` sends, and what it returns.
use creation_of_energy_token.Prelude.{
  ℕ, ◌+◌, ◌*◌, ◌/◌, ◌≤◌, ◌≡◌, refl, ap, ◌∙◌, true, [], ◌∷◌, ◌++◌, Text, length, All, All-append,
  length-append, append-nil, arith,
}
use creation_of_energy_token.Engine.Types.{TransactionRequest, ok, err, Exn}
use creation_of_energy_token.Engine.External.{Network}
use creation_of_energy_token.Engine.Submitter.{
  live, Submitter, Submission, submit, bump_fees, submit_from, submit_with_retry,
}

-- The first result that is no error, with all that was sent up to it.
abbrev pub or_then : Submission → Submission → Submission
or_then (ok result, sent) next = (ok result, sent)
or_then (err e, sent) (r, sent') = (r, sent ++ sent')

abbrev continue : Submission → (Exn → Submission) → Submission
continue a k = elim a.0 [ ok result ↦ (ok result, a.1) | err e ↦ ((k e).0, a.1 ++ (k e).1) ]

continue-or_then :
    (a : Submission) (k : Exn → Submission) (rest : Submission)
    → ((e : Exn) → k e ≡ rest)
    → continue a k ≡ or_then a rest
continue-or_then (ok result, sent) k rest same = refl
continue-or_then (err e, sent) k (r, sent') same = rw same

continue-last : (a : Submission) → continue a (λ e. (err e, [])) ≡ a
continue-last (ok result, sent) = refl
continue-last (err e, sent) = rw append-nil

submit_with_retry-bump_fees :
    (s : Submitter) (net : Network) (tx : TransactionRequest)
    → submit_with_retry s net tx
      ≡ or_then
          (submit s net tx 0)
          (or_then (submit s net (bump_fees tx) 1) (submit s net (bump_fees (bump_fees tx)) 2))
unfolding submit_with_retry submit_from
submit_with_retry-bump_fees s net tx =
    let second : Submission = submit s net (bump_fees tx) 1 in
    let third : Submission = submit s net (bump_fees (bump_fees tx)) 2 in
    continue-or_then (submit s net tx 0)
      (λ e. continue second (λ e'. continue third (λ e''. (err e'', [])))) (or_then second third)
      (λ e.
        continue-or_then second (λ e'. continue third (λ e''. (err e'', []))) third
          (λ e'. continue-last third))

-- Both fees raised by a quarter of themselves, rounded down; all else stays.
abbrev pub raised : TransactionRequest → TransactionRequest
raised tx = record tx {
  max_fee_per_gas = tx.max_fee_per_gas + tx.max_fee_per_gas / 4;
  max_priority_fee_per_gas = tx.max_priority_fee_per_gas + tx.max_priority_fee_per_gas / 4;
}

quarter_more : (fee : ℕ) → fee * 125 / 100 ≡ fee + fee / 4
quarter_more fee = omega arith

bump_fees-raised : (tx : TransactionRequest) → bump_fees tx ≡ raised tx
unfolding bump_fees
bump_fees-raised tx =
    rw (quarter_more tx.max_fee_per_gas, quarter_more tx.max_priority_fee_per_gas) refl

-- Three attempts, of which the second and the third have both fees of the one before raised by a
-- quarter, rounded down, and are otherwise the same transaction; the first that succeeds decides
-- the result, and else the error of the third; what was sent is what the attempts made sent.
pub submit_with_retry-attempts :
    (s : Submitter) (net : Network) (tx : TransactionRequest)
    → submit_with_retry s net tx
      ≡ or_then
          (submit s net tx 0)
          (or_then (submit s net (raised tx) 1) (submit s net (raised (raised tx)) 2))
submit_with_retry-attempts s net tx =
    let first = submit s net tx 0 in
    submit_with_retry-bump_fees s net tx
    ∙ ap (λ t. or_then first (or_then (submit s net t 1) (submit s net (bump_fees t) 2)))
        (bump_fees-raised tx)
    ∙ ap (λ t. or_then first (or_then (submit s net (raised tx) 1) (submit s net t 2)))
        (bump_fees-raised (raised tx))

-- `sent` is `tx` but for its fees, which are at most 25/16 of those of `tx`.
pub record IsReplacement (tx sent : TransactionRequest) : Type 0 where
  pub same_to : sent.to ≡ tx.to
  pub same_value : sent.value ≡ tx.value
  pub same_data : sent.call_data ≡ tx.call_data
  pub same_gas : sent.gas_limit ≡ tx.gas_limit
  pub same_nonce : sent.nonce ≡ tx.nonce
  pub same_chain : sent.chain_id ≡ tx.chain_id
  pub fee : 16 * sent.max_fee_per_gas ≤ 25 * tx.max_fee_per_gas
  pub tip : 16 * sent.max_priority_fee_per_gas ≤ 25 * tx.max_priority_fee_per_gas

submit-sends :
    (s : Submitter) (net : Network) (base tx : TransactionRequest) (i : ℕ)
    → IsReplacement base tx
    → All (IsReplacement base) (submit s net tx i).1 × (length (submit s net tx i).1 ≤ 1)
unfolding submit
submit-sends s net base tx i h = ground arith

bump_once : (tx : TransactionRequest) → IsReplacement tx (bump_fees tx)
unfolding bump_fees
bump_once tx = ground arith

bump_twice : (tx : TransactionRequest) → IsReplacement tx (bump_fees (bump_fees tx))
unfolding bump_fees
bump_twice tx = ground arith

or_then-sends :
    (base : TransactionRequest) (a b : Submission) {m n : ℕ}
    → All (IsReplacement base) a.1 × (length a.1 ≤ m)
    → All (IsReplacement base) b.1 × (length b.1 ≤ n)
    → All (IsReplacement base) (or_then a b).1 × (length (or_then a b).1 ≤ m + n)
or_then-sends base (ok result, sent) b (all, few) h = (all, omega arith)
or_then-sends base (err e, sent) (r, sent') (all, few) (all', few') =
    (All-append (IsReplacement base) sent sent' all all', omega (arith, length-append sent sent'))

-- At most three transactions are sent, and all carry the nonce, the target, the data, the value
-- and the gas of the given one, with fees of at most 25/16 of its fees.
pub submit_with_retry-sends :
    (s : Submitter) (net : Network) (tx : TransactionRequest)
    → All (IsReplacement tx) (submit_with_retry s net tx).1
      × (length (submit_with_retry s net tx).1 ≤ 3)
submit_with_retry-sends s net tx = rw (submit_with_retry-bump_fees s net tx) (
    or_then-sends tx (submit s net tx 0)
      (or_then (submit s net (bump_fees tx) 1) (submit s net (bump_fees (bump_fees tx)) 2))
      (submit-sends s net tx tx 0 (ground arith))
      (or_then-sends tx (submit s net (bump_fees tx) 1) (submit s net (bump_fees (bump_fees tx)) 2)
        (submit-sends s net tx (bump_fees tx) 1 (bump_once tx))
        (submit-sends s net tx (bump_fees (bump_fees tx)) 2 (bump_twice tx))))

-- In live mode, with an account and a public client: when the wallet refuses the first attempt and
-- takes the second, and the block can be read, two transactions were sent, the second with 5/4 of
-- both fees of the first, and the result is that of the second.
pub second_attempt_fee :
    (s : Submitter) (net : Network) (tx : TransactionRequest) (thrown : Exn) (hash : Text)
    (block : ℕ)
    → s.mode ≡ live
    → s.has_account ≡ true
    → s.has_public_client ≡ true
    → net.send_transaction 0 tx ≡ err thrown
    → net.send_transaction 1 (bump_fees tx) ≡ ok hash
    → net.block_number 1 ≡ ok block
    → submit_with_retry s net tx ≡ (
      ok (record { tx_hash = hash; submitted_at_block = block }),
      tx
          ∷ record tx {
            max_fee_per_gas = tx.max_fee_per_gas * 125 / 100;
            max_priority_fee_per_gas = tx.max_priority_fee_per_gas * 125 / 100;
          }
          ∷ [],
    )
unfolding submit bump_fees
second_attempt_fee s net tx thrown hash block mode account client first second read =
    ground (arith, submit_with_retry-bump_fees s net tx)
