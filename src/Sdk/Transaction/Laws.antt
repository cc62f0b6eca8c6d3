-- ===== src/Sdk/Transaction/Laws.antt =====
-- Transactions whose commands read the results of earlier commands only.
use creation_of_energy_token.Prelude.{
  ℕ, suc, ◌+◌, ◌<◌, List, [], ◌∷◌, ◌++◌, Text, subst, length, All, arith,
}
use creation_of_energy_token.Sdk.Transaction.{
  Argument, Command, move_call, transfer_objects, Transaction, call, transfer, argument_results,
}

abbrev pub command_results : Command → List ℕ
command_results (move_call target args) = argument_results args
command_results (transfer_objects args address) = argument_results args

-- Commands of which the first has the index `n`.
abbrev pub OrderedFrom : ℕ → List Command → Type 0
OrderedFrom n [] = Unit
OrderedFrom n (c ∷ cs) = All (λ r. r < n) (command_results c) × OrderedFrom (suc n) cs

abbrev pub IsOrdered : Transaction → Type 0
IsOrdered tx = OrderedFrom 0 tx.commands

OrderedFrom-append :
    (n : ℕ) (cs : List Command) (c : Command)
    → OrderedFrom n cs
    → All (λ r. r < n + length cs) (command_results c)
    → OrderedFrom n (cs ++ c ∷ [])
OrderedFrom-append n [] c h k =
    (subst (λ m. All (λ r. r < m) (command_results c)) (omega arith) k, tt)
OrderedFrom-append n (d ∷ cs) c (here, later) k = (
  here,
  OrderedFrom-append (suc n) cs c later
      (subst (λ m. All (λ r. r < m) (command_results c)) (omega arith) k),
)

pub call-IsOrdered :
    (target : Text) (args : List Argument) (tx : Transaction)
    → IsOrdered tx
    → All (λ r. r < 0 + length tx.commands) (argument_results args)
    → IsOrdered (call target args tx).1
unfolding call
call-IsOrdered target args tx h k = OrderedFrom-append 0 tx.commands (move_call target args) h k

pub transfer-IsOrdered :
    (args : List Argument) (address : Text) (tx : Transaction)
    → IsOrdered tx
    → All (λ r. r < 0 + length tx.commands) (argument_results args)
    → IsOrdered (transfer args address tx)
unfolding transfer
transfer-IsOrdered args address tx h k =
    OrderedFrom-append 0 tx.commands (transfer_objects args address) h k
