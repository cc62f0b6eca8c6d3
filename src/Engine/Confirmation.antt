-- ===== src/Engine/Confirmation.antt =====
-- layer4/engine/src/confirmationTracker.ts, and `awaitConfirmations` of pipelineRunner.ts.
pub mod Laws
use creation_of_energy_token.Prelude.{
  ℕ, zero, suc, ◌+◌, Bool, true, false, Option, none, some, Text, ltb, if◌then◌else◌,
}
use creation_of_energy_token.Prelude.Int.{ℤ, pos, ◌-ℤ◌, leb_ℤ}
use creation_of_energy_token.Engine.Types.{
  ConfirmationStatus, pending, confirmed, reverted, stuck, confirmation_depth,
}

pub record ConfirmationTracker : Type 0 where
  pub tx_hash : Text
  pub submitted_at_block : ℕ
  pub required_confirmations : ℕ
  pub current_confirmations : ℤ
  pub status : ConfirmationStatus

-- A receipt: the block, and whether its status is "success".
pub record Receipt : Type 0 where
  pub block_number : ℕ
  pub success : Bool

-- `currentBlock - submittedAtBlock > 50` is written with the subtraction on the other side.
unfoldable pub update_confirmation : ConfirmationTracker → ℕ → Option Receipt → ConfirmationTracker
unfolding ◌-ℤ◌
update_confirmation tracker current none =
    if ltb (tracker.submitted_at_block + 50) current
    then record tracker { status = stuck }
    else tracker
update_confirmation tracker current (some receipt) =
    let depth = pos current -ℤ pos receipt.block_number in
    if receipt.success
    then if leb_ℤ (pos tracker.required_confirmations) depth
      then record tracker { current_confirmations = depth; status = confirmed }
      else record tracker { current_confirmations = depth }
    else record tracker { status = reverted }

unfoldable pub create_tracker : Text → ℕ → ℕ → ConfirmationTracker
create_tracker tx_hash submitted_at_block required = record {
  tx_hash = tx_hash;
  submitted_at_block = submitted_at_block;
  required_confirmations = required;
  current_confirmations = pos 0;
  status = pending;
}

abbrev pub is_confirmed : ConfirmationStatus → Bool
is_confirmed confirmed = true
is_confirmed _ = false

-- The loop of `awaitConfirmations`, on the rounds that are left: the receipt it hands over is
-- made up from the block of the submission.
confirm_loop : ℕ → ℕ → ℕ → ConfirmationTracker → ConfirmationTracker
confirm_loop zero submitted block tracker = tracker
confirm_loop (suc rounds) submitted block tracker =
    let next =
      update_confirmation tracker block
        (some (record { block_number = submitted; success = true })) in
    let rest = confirm_loop rounds submitted (block + 1) next in
    if is_confirmed next.status then next else rest

unfoldable pub await_confirmations : Text → ℕ → ConfirmationTracker
unfolding confirm_loop
await_confirmations tx_hash submitted =
    confirm_loop (confirmation_depth + 1) submitted submitted
      (create_tracker tx_hash submitted confirmation_depth)
