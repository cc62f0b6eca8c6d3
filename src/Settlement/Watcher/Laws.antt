-- ===== src/Settlement/Watcher/Laws.antt =====
-- A stalled bridge is reported once.
use creation_of_energy_token.Prelude.{
  ℕ, ◌≡◌, refl, inl, inr, Bool, true, false, Bool-cases, List, [], ◌∷◌, map, Option, none, some,
  Text, text_Eq, text_eq_iff, ◌===◌, includes, if◌then◌else◌, arith, sym, ◌∙◌, ap, subst,
}
use creation_of_energy_token.Prelude.Dict.{get}
use creation_of_energy_token.Prelude.Sets.{Distinct}
use creation_of_energy_token.Settlement.Watcher.{PendingBridge, BridgeWatcher, is_stalled, poll}

abbrev pub bridge_ids : BridgeWatcher → List Text
bridge_ids w = map (λ (p : Text × PendingBridge). p.0) w

-- Whether the row of a bridge, if there is one, is to be reported.
abbrev pub to_report : ℕ → Option PendingBridge → Bool
to_report now none = false
to_report now (some row) = is_stalled now row

abbrev marked : ℕ → Option PendingBridge → Option PendingBridge
marked now none = none
marked now (some row) = some (if is_stalled now row then record row { alerted = true } else row)

get-poll : (now : ℕ) (id : Text) (w : BridgeWatcher) → get id (poll now w).1 ≡ marked now (get id w)
unfolding get poll
get-poll now id [] = refl
get-poll now id ((k, row) ∷ w) = ground (arith, get-poll now id w)

get-absent : (id : Text) (w : BridgeWatcher) → includes (bridge_ids w) id ≡ false → get id w ≡ none
unfolding get
get-absent id [] h = refl
get-absent id ((k, row) ∷ w) h = ground (arith, get-absent id w)

bridge_ids-poll : (now : ℕ) (w : BridgeWatcher) → bridge_ids (poll now w).1 ≡ bridge_ids w
unfolding poll
bridge_ids-poll now [] = refl
bridge_ids-poll now ((k, row) ∷ w) = ground (arith, bridge_ids-poll now w)

-- In a map, where no id stands twice, a poll reports exactly the ids whose row is to be reported.
reports :
    (now : ℕ) (id : Text) (w : BridgeWatcher)
    → Distinct (bridge_ids w)
    → includes (poll now w).0 id ≡ to_report now (get id w)
unfolding get poll
reports now id [] d = refl
reports now id ((k, row) ∷ w) (fresh, d) = elim (Bool-cases (k === id)) [
  | inl same ↦
      let absent : get id w ≡ none =
        get-absent id w
          (subst (λ x. includes (bridge_ids w) x ≡ false) ((text_eq_iff k id).0 same) fresh) in
      ground (arith, same, absent, reports now id w d)
  | inr differ ↦ ground (arith, differ, reports now id w d)
]

marked_lem :
    (now later : ℕ) (row : Option PendingBridge)
    → to_report now row ≡ true
    → to_report later (marked now row) ≡ false
marked_lem now later none h = refl
marked_lem now later (some row) h = ground arith

-- With no bridge standing twice, a poll reports exactly those that started more than an hour ago
-- and were not reported yet; and what a poll reports, the next one does not report again.
pub poll_reports_once :
    (now later : ℕ) (id : Text) (w : BridgeWatcher)
    → Distinct (bridge_ids w)
    → (includes (poll now w).0 id ≡ to_report now (get id w))
      × (includes (poll now w).0 id ≡ true → includes (poll later (poll now w).1).0 id ≡ false)
poll_reports_once now later id w d =
    let d' : Distinct (bridge_ids (poll now w).1) =
      subst Distinct (sym (bridge_ids-poll now w)) d in
    let again : includes (poll later (poll now w).1).0 id
        ≡ to_report later (marked now (get id w)) =
      reports later id (poll now w).1 d' ∙ ap (to_report later) (get-poll now id w) in
    (
      reports now id w d,
      λ h. again ∙ marked_lem now later (get id w) (sym (reports now id w d) ∙ h),
    )
