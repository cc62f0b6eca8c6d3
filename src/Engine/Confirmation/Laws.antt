-- ===== src/Engine/Confirmation/Laws.antt =====
-- What the confirmation tracker reports, and what the runner's wait for finality amounts to.
use creation_of_energy_token.Prelude.{
  ℕ, zero, suc, ◌+◌, ◌≤◌, ◌<◌, ◌≡◌, refl, ◌↔◌, Bool, true, some, Text, leb, if◌then◌else◌, arith,
}
use creation_of_energy_token.Prelude.Int.{ℤ, pos}
use creation_of_energy_token.Engine.Types.{
  ConfirmationStatus, pending, confirmed, confirmation_depth,
}
use creation_of_energy_token.Engine.Confirmation.{
  ConfirmationTracker, update_confirmation, create_tracker, confirm_loop, await_confirmations,
}

-- From a pending tracker an update reports "confirmed" exactly when the receipt is a success at
-- least `required_confirmations` blocks deep.
pub update_confirmation-confirmed_iff :
    (t : ConfirmationTracker) (now block : ℕ) (good : Bool)
    → t.status ≡ pending
    → ((update_confirmation t now (some (record { block_number = block; success = good }))).status
        ≡ confirmed)
      ↔ ((good ≡ true) × (block + t.required_confirmations ≤ now))
unfolding update_confirmation
update_confirmation-confirmed_iff t now block good h = ground arith

abbrev simulated : Text → ℕ → ℤ → ConfirmationStatus → ConfirmationTracker
simulated tx_hash submitted depth status = record {
  tx_hash = tx_hash;
  submitted_at_block = submitted;
  required_confirmations = confirmation_depth;
  current_confirmations = depth;
  status = status;
}

-- One round at `passed` blocks after the submission.
update-simulated :
    (tx_hash : Text) (submitted passed block : ℕ) (depth : ℤ)
    → block ≡ submitted + passed
    → update_confirmation
        (simulated tx_hash submitted depth pending)
        block
        (some (record { block_number = submitted; success = true }))
      ≡ simulated tx_hash submitted (pos passed) (if leb 12 passed then confirmed else pending)
unfolding update_confirmation
update-simulated tx_hash submitted passed block depth e = ground arith

confirm_loop-confirms :
    (rounds passed block : ℕ) (tx_hash : Text) (submitted : ℕ) (depth : ℤ)
    → block ≡ submitted + passed
    → passed + rounds ≡ 13
    → 0 < rounds
    → confirm_loop rounds submitted block (simulated tx_hash submitted depth pending)
      ≡ simulated tx_hash submitted (pos 12) confirmed
unfolding confirm_loop
confirm_loop-confirms zero passed block tx_hash submitted depth e h p = absurd (omega arith)
confirm_loop-confirms (suc rounds) passed block tx_hash submitted depth e h p = ground (
  arith,
  update-simulated tx_hash submitted passed block depth e,
  confirm_loop-confirms rounds (passed + 1) (block + 1) tx_hash submitted (pos passed),
)

-- The wait for finality ends "confirmed" at depth 12, for every hash and every block of the
-- submission.
pub await_confirmations_confirms :
    (tx_hash : Text) (submitted : ℕ)
    → await_confirmations tx_hash submitted ≡ record {
      tx_hash = tx_hash;
      submitted_at_block = submitted;
      required_confirmations = confirmation_depth;
      current_confirmations = pos 12;
      status = confirmed;
    }
unfolding await_confirmations create_tracker
await_confirmations_confirms tx_hash submitted =
    confirm_loop-confirms 13 0 submitted tx_hash submitted (pos 0) (omega arith) refl (omega arith)
