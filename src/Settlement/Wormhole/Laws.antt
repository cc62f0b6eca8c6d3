-- ===== src/Settlement/Wormhole/Laws.antt =====
-- Sequence numbers are fresh once, and the time lock holds for a day.
use creation_of_energy_token.Prelude.{
  ℕ, ◌+◌, ◌≤◌, ◌<◌, false, List, [], ◌∷◌, ◌≡◌, refl, inl, inr, All, leb, nat_Eq, includes,
  if◌then◌else◌, arith, Bool-cases,
}
use creation_of_energy_token.Prelude.Sets.{Distinct}
use creation_of_energy_token.Settlement.Types.{Attempt, is_done}
use creation_of_energy_token.Settlement.Wormhole.{
  ScanAnswer, check_vaa_sequence, timelock_remaining_ms, fetch_signed_vaa, await_vaa_with_timelock,
}

-- The sequence numbers that checks, one after the other, report as fresh.
abbrev pub fresh_sequences : List ℕ → ℕ → List ℕ
fresh_sequences [] last = []
fresh_sequences (n ∷ ns) last =
    let (check, last') = check_vaa_sequence n last in
    let rest = fresh_sequences ns last' in if check.stale then rest else n ∷ rest

above-weaken :
    (ns : List ℕ) (low high : ℕ) → low < high → All (λ n. high < n) ns → All (λ n. low < n) ns
above-weaken [] low high h a = tt
above-weaken (n ∷ ns) low high h (first, rest) = (omega arith, above-weaken ns low high h rest)

fresh_above : (ns : List ℕ) (last : ℕ) → All (λ n. last < n) (fresh_sequences ns last)
unfolding check_vaa_sequence
fresh_above [] last = tt
fresh_above (n ∷ ns) last = elim (Bool-cases (leb n last)) [
  | inl h ↦ rw h (fresh_above ns last)
  | inr h ↦
      let above : last < n = ground arith in
      rw h (above, above-weaken (fresh_sequences ns n) last n above (fresh_above ns n))
]

above-includes : (ns : List ℕ) (last : ℕ) → All (λ n. last < n) ns → includes ns last ≡ false
above-includes [] last h = refl
above-includes (n ∷ ns) last (first, rest) = ground (arith, above-includes ns last rest)

fresh-Distinct : (ns : List ℕ) (last : ℕ) → Distinct (fresh_sequences ns last)
unfolding check_vaa_sequence
fresh-Distinct [] last = tt
fresh-Distinct (n ∷ ns) last = elim (Bool-cases (leb n last)) [
  | inl h ↦ rw h (fresh-Distinct ns last)
  | inr h ↦ rw h (above-includes (fresh_sequences ns n) n (fresh_above ns n), fresh-Distinct ns n)
]

-- Over any sequence of checks no sequence number is reported as fresh twice, and none that is not
-- above the number that the client starts with.
pub fresh_sequences-Distinct :
    (ns : List ℕ) (last : ℕ)
    → Distinct (fresh_sequences ns last) × All (λ n. last < n) (fresh_sequences ns last)
fresh_sequences-Distinct ns last = (fresh-Distinct ns last, fresh_above ns last)

-- The VAA is fetched exactly once a day has passed since the bridge started; before, the call
-- fails and the client stays as it was.
pub await_vaa_with_timelock_lem :
    (scan : ℕ → Attempt ScanAnswer) (sequence started_at now last : ℕ)
    → (started_at + 86_400_000 ≤ now
        → await_vaa_with_timelock scan sequence started_at now last
          ≡ fetch_signed_vaa scan sequence last)
      × (now < started_at + 86_400_000
          → let r = await_vaa_with_timelock scan sequence started_at now last in
            (is_done r.0 ≡ false) × (r.1 ≡ last))
unfolding await_vaa_with_timelock timelock_remaining_ms
await_vaa_with_timelock_lem scan sequence started_at now last =
    (λ h. ground arith, λ h. (ground arith, ground arith))
