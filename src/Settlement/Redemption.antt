-- ===== src/Settlement/Redemption.antt =====
-- layer5/settlement/src/batchRedemption.ts.
pub mod Laws
use creation_of_energy_token.Prelude.{
  ℕ, Bool, true, false, List, [], ◌∷◌, Text, text_Eq, includes, if◌then◌else◌,
}
use creation_of_energy_token.Prelude.Int.{ℤ}
use creation_of_energy_token.Prelude.Dict.{Dict, get, set, has, values}
use creation_of_energy_token.Prelude.Sets.{add}
use creation_of_energy_token.Settlement.Types.{
  duplicate_redemption_id, batch_already_redeemed, Checked, accepted, rejected, slice_last,
}

pub record RedemptionEvent : Type 0 where
  pub redemption_id : Text
  pub batch_id : Text
  pub kwh : ℤ
  pub consumer : Text
  pub timestamp_ms : ℕ

pub record BatchRedemptionTracker : Type 0 where
  pub redeemed : Dict Text RedemptionEvent
  pub used_ids : List Text

abbrev pub new_tracker : BatchRedemptionTracker
new_tracker = record { redeemed = []; used_ids = [] }

unfoldable pub register_idempotency :
    Text → BatchRedemptionTracker → Checked (Unit {0}) × BatchRedemptionTracker
register_idempotency id s =
    if includes s.used_ids id
    then (rejected (duplicate_redemption_id id), s)
    else (accepted tt, record s { used_ids = add s.used_ids id })

unfoldable pub is_redeemed : Text → BatchRedemptionTracker → Bool
is_redeemed batch_id s = has batch_id s.redeemed

-- A rejected redemption changes nothing: both checks come before the first change.
unfoldable pub mark_redeemed :
    RedemptionEvent → BatchRedemptionTracker → Checked (Unit {0}) × BatchRedemptionTracker
unfolding register_idempotency
mark_redeemed event s =
    if has event.batch_id s.redeemed
    then (rejected (batch_already_redeemed event.batch_id), s)
    else (let (r, s') = register_idempotency event.redemption_id s in
        elim r [
          | rejected e ↦ (rejected e, s')
          | accepted _ ↦
              (accepted tt, record s' { redeemed = set event.batch_id event s'.redeemed })
        ])

unfoldable pub history : ℕ → BatchRedemptionTracker → List RedemptionEvent
history limit s = slice_last limit (values s.redeemed)
