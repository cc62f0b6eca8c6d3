-- ===== src/Sdk/Transaction.antt =====
-- A `Transaction` of the Sui SDK as what the builders hand it, in order. What the SDK makes of an
-- argument (an object that it looks up, a number out of its type's range) belongs to the SDK.
pub mod Laws
use creation_of_energy_token.Prelude.{ℕ, Bool, List, [], ◌∷◌, ◌++◌, Option, none, Text, length}
use creation_of_energy_token.Prelude.Int.{ℤ}

-- `tx.object(id)`, the pure values, and the result of an earlier command, by its index.
pub data Argument : Type 0 where
  object : Text → Argument
  u8 u16 u64 : ℤ → Argument
  bool : Bool → Argument
  vector_u8 : List ℕ → Argument
  vector_address : List Text → Argument
  no_bytes : Argument
  result : ℕ → Argument

pub data Command : Type 0 where
  move_call : Text → List Argument → Command
  transfer_objects : List Argument → Text → Command

pub record Transaction : Type 0 where
  pub gas_budget : Option ℕ
  pub commands : List Command

abbrev pub new_transaction : Transaction
new_transaction = record { gas_budget = none; commands = [] }

-- `tx.moveCall(...)`: the result that the source keeps, and the transaction.
unfoldable pub call : Text → List Argument → Transaction → Argument × Transaction
call target arguments tx = (
  result (length tx.commands),
  record tx { commands = tx.commands ++ move_call target arguments ∷ [] },
)

unfoldable pub transfer : List Argument → Text → Transaction → Transaction
transfer arguments address tx = record tx {
  commands = tx.commands ++ transfer_objects arguments address ∷ [];
}

-- The objects that an argument, a list of arguments, a command or commands name.
abbrev pub argument_objects : List Argument → List Text
argument_objects [] = []
argument_objects (object id ∷ args) = id ∷ argument_objects args
argument_objects (u8 n ∷ args) = argument_objects args
argument_objects (u16 n ∷ args) = argument_objects args
argument_objects (u64 n ∷ args) = argument_objects args
argument_objects (bool b ∷ args) = argument_objects args
argument_objects (vector_u8 v ∷ args) = argument_objects args
argument_objects (vector_address v ∷ args) = argument_objects args
argument_objects (no_bytes ∷ args) = argument_objects args
argument_objects (result n ∷ args) = argument_objects args

abbrev pub used_objects : List Command → List Text
used_objects [] = []
used_objects (move_call target args ∷ commands) = argument_objects args ++ used_objects commands
used_objects (transfer_objects args address ∷ commands) =
    argument_objects args ++ used_objects commands

-- The results of earlier commands that the arguments read.
abbrev pub argument_results : List Argument → List ℕ
argument_results [] = []
argument_results (result n ∷ args) = n ∷ argument_results args
argument_results (object id ∷ args) = argument_results args
argument_results (u8 n ∷ args) = argument_results args
argument_results (u16 n ∷ args) = argument_results args
argument_results (u64 n ∷ args) = argument_results args
argument_results (bool b ∷ args) = argument_results args
argument_results (vector_u8 v ∷ args) = argument_results args
argument_results (vector_address v ∷ args) = argument_results args
argument_results (no_bytes ∷ args) = argument_results args

abbrev pub call_targets : List Command → List Text
call_targets [] = []
call_targets (move_call target args ∷ commands) = target ∷ call_targets commands
call_targets (transfer_objects args address ∷ commands) = call_targets commands
