-- ===== src/Tests/Settling.antt =====
-- The parts of settlement at concrete inputs.
use creation_of_energy_token.Prelude.{ℕ, ◌≡◌, inl, refl, [], ◌∷◌, some, text_Eq, codes, arith}
use creation_of_energy_token.Prelude.Dict.{get}
use creation_of_energy_token.Prelude.Int.{pos}
use creation_of_energy_token.Settlement.Types.{accepted, rejected, unknown_trade}
use creation_of_energy_token.Settlement.Redemption.{
  RedemptionEvent, new_tracker, mark_redeemed, register_idempotency,
}
use creation_of_energy_token.Settlement.Redemption.Laws.{register, apply_calls, mark_redeemed_once}
use creation_of_energy_token.Settlement.Burns.{BurnEvent, BurnEngine}
use creation_of_energy_token.Settlement.Reporting.{SettlementEventV1, redemption}
use creation_of_energy_token.Settlement.Usdc.{escrow_usdc, release_usdc}
use creation_of_energy_token.Settlement.Usdc.Laws.{escrow-release}
use creation_of_energy_token.Settlement.Carbon.{record_claim}

abbrev test_event : RedemptionEvent
test_event = record {
  redemption_id = codes "r";
  batch_id = codes "b";
  kwh = pos 3;
  consumer = codes "c";
  timestamp_ms = 1;
}

test-marked : (mark_redeemed test_event new_tracker).0 ≡ accepted tt
unfolding mark_redeemed register_idempotency get
test-marked = refl

mark_redeemed_once_example :
    let t = apply_calls (register (codes "s") ∷ []) (mark_redeemed test_event new_tracker).1 in
    (get (codes "b") t.redeemed ≡ some test_event)
    × ((mark_redeemed (record test_event { redemption_id = codes "q" }) t).0 ≡ accepted tt → ⊥)
mark_redeemed_once_example =
    mark_redeemed_once test_event (record test_event { redemption_id = codes "q" })
      (register (codes "s") ∷ []) new_tracker test-marked (inl refl)

abbrev test_burn : ℕ → BurnEvent
test_burn n = record {
  amount = pos n;
  redemption_id = codes "r";
  consumer = codes "c";
  timestamp_ms = n;
}

abbrev test_burns : BurnEngine
test_burns = test_burn 1 ∷ test_burn 2 ∷ test_burn 3 ∷ []

abbrev test_report : SettlementEventV1
test_report = record {
  event_type = redemption;
  redemption_id = codes "r";
  kwh = pos 3;
  consumer_addr = codes "c";
  producer_addr = codes "p";
  oracle_sig = codes "0x";
  timestamp_ms = 5;
  block_height = 6;
}

escrow-release_example :
    let first = release_usdc (codes "t") (escrow_usdc (codes "t") (pos 9) 10 1000 []) in
    (first.0 ≡ accepted (pos 9))
    × ((release_usdc (codes "t") first.1).0 ≡ rejected (unknown_trade (codes "t")))
    × (get (codes "u") first.1 ≡ get (codes "u") [])
escrow-release_example =
    escrow-release (codes "t") (codes "u") (pos 9) 10 1000 [] (λ e. ground arith)

test-claimed : (record_claim (codes "b") (codes "r") (codes "c") []).0 ≡ accepted tt
unfolding record_claim get
test-claimed = refl
