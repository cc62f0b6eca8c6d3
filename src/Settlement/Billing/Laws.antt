-- ===== src/Settlement/Billing/Laws.antt =====
-- What reconciliation counts.
use creation_of_energy_token.Prelude.{◌+◌, ◌≡◌, List, [], ◌∷◌, Text, text_Eq, length, filter, arith}
use creation_of_energy_token.Prelude.Dict.{has}
use creation_of_energy_token.Settlement.Billing.{
  UtilityBillingAdapter, Reconciliation, count_burn, reconcile_from, reconcile_burns,
}

reconcile_from_lem :
    (notes : UtilityBillingAdapter) (burns : List Text) (r : Reconciliation)
    → let t = reconcile_from notes burns r in
      (t.matched ≡ length (filter (λ id. has id notes) burns) + r.matched)
      × (t.matched + t.unmatched ≡ length burns + r.matched + r.unmatched)
unfolding reconcile_from
reconcile_from_lem notes [] r = ground arith
reconcile_from_lem notes (id ∷ burns) r =
    ground (arith, reconcile_from_lem notes burns (count_burn (has id notes) r))

-- Every burn is counted once: as matched where a credit note was issued for its redemption, and
-- as unmatched otherwise.
pub reconcile_burns_lem :
    (notes : UtilityBillingAdapter) (burns : List Text)
    → let t = reconcile_burns notes burns in
      (t.matched ≡ length (filter (λ id. has id notes) burns))
      × (t.matched + t.unmatched ≡ length burns)
unfolding reconcile_burns
reconcile_burns_lem notes burns =
    ground (arith, reconcile_from_lem notes burns (record { matched = 0; unmatched = 0 }))
