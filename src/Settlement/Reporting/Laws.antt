-- ===== src/Settlement/Reporting/Laws.antt =====
-- The buffer of events over any number of emissions.
use creation_of_energy_token.Prelude.{
  ℕ, zero, suc, ◌+◌, ◌-◌, ◌≤◌, ◌≡◌, refl, List, [], ◌∷◌, ◌++◌, append-nil, append_assoc, length,
  drop, length-append, length-drop, arith, sym, ◌∙◌, ap,
}
use creation_of_energy_token.Settlement.Reporting.{
  SettlementEventV1, BridgeReportingAdapter, max_buffer, emit,
}

abbrev pub emit_all : List SettlementEventV1 → BridgeReportingAdapter → BridgeReportingAdapter
emit_all [] buffer = buffer
emit_all (e ∷ events) buffer = emit_all events (emit e buffer)

abbrev last_events : List SettlementEventV1 → List SettlementEventV1
last_events xs = drop (length xs - max_buffer) xs

drop-append :
    (n : ℕ) (xs ys : List SettlementEventV1) → n ≤ length xs → drop n (xs ++ ys) ≡ drop n xs ++ ys
drop-append zero xs ys h = refl
drop-append (suc n) [] ys h = absurd (omega arith)
drop-append (suc n) (x ∷ xs) ys h = drop-append n xs ys (omega arith)

drop-nil : (n : ℕ) → drop {A = SettlementEventV1} n [] ≡ []
drop-nil zero = refl
drop-nil (suc n) = refl

drop-drop : (m n k : ℕ) (xs : List SettlementEventV1) → k ≡ n + m → drop m (drop n xs) ≡ drop k xs
drop-drop m zero k xs e = ap (λ j. drop j xs) (omega arith)
drop-drop m (suc n) k [] e = drop-nil m ∙ sym (drop-nil k)
drop-drop m (suc n) zero (x ∷ xs) e = absurd (omega arith)
drop-drop m (suc n) (suc k) (x ∷ xs) e = drop-drop m n k xs (omega arith)

-- One more event, when the buffer holds the last ones of `xs`.
emit-last_events :
    (e : SettlementEventV1) (xs : List SettlementEventV1)
    → emit e (last_events xs) ≡ last_events (xs ++ e ∷ [])
unfolding emit
emit-last_events e xs =
    let n = length xs - max_buffer in
    let same : drop n xs ++ e ∷ [] ≡ drop n (xs ++ e ∷ []) =
      sym (drop-append n xs (e ∷ []) (omega arith)) in
    ground (
      arith,
      same,
      drop-drop 1 n (length (xs ++ e ∷ []) - max_buffer) (xs ++ e ∷ []),
      length-append xs (e ∷ []),
      length-append (drop n xs) (e ∷ []),
      length-drop n xs,
    )

emit_all-from :
    (events xs : List SettlementEventV1)
    → emit_all events (last_events xs) ≡ last_events (xs ++ events)
emit_all-from [] xs = ap last_events (sym (append-nil xs))
emit_all-from (e ∷ events) xs =
    ap (emit_all events) (emit-last_events e xs)
    ∙ emit_all-from events (xs ++ e ∷ [])
    ∙ ap last_events (append_assoc xs (e ∷ []) events)

-- After any number of emissions an adapter that began empty holds the last 10,000 events, in
-- their order.
pub emit_all_lem :
    (events : List SettlementEventV1) → emit_all events [] ≡ drop (length events - 10_000) events
emit_all_lem events = emit_all-from events []
