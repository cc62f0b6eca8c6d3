-- ===== src/Settlement/Burns/Laws.antt =====
-- What the log of burns shows.
use creation_of_energy_token.Prelude.{
  ℕ, zero, suc, ◌-◌, ◌≡◌, refl, min, [], ◌∷◌, ◌++◌, length, drop, length-drop, arith, ap,
}
use creation_of_energy_token.Settlement.Burns.{BurnEngine, history}

take-drop : (n : ℕ) (xs : BurnEngine) → (front : BurnEngine) × (front ++ drop n xs ≡ xs)
take-drop zero xs = ([], refl)
take-drop (suc n) [] = ([], refl)
take-drop (suc n) (x ∷ xs) = let (front, e) = take-drop n xs in (x ∷ front, ap (λ l. x ∷ l) e)

history_end :
    (limit : ℕ) (burns : BurnEngine) → (front : BurnEngine) × (front ++ history limit burns ≡ burns)
unfolding history
history_end zero burns = ([], refl)
history_end (suc limit) burns =
    let (front, e) = take-drop (length burns - suc limit) burns in (front, ground (arith, e))

-- The history is the end of the log, in the order of recording. It has as many events as asked
-- for, or all where there are fewer; and all of them where none are asked for.
pub burn_history_lem :
    (limit : ℕ) (burns : BurnEngine)
    → ((front : BurnEngine) × (front ++ history limit burns ≡ burns))
      × (length (history (suc limit) burns) ≡ min (suc limit) (length burns))
      × (history 0 burns ≡ burns)
unfolding history
burn_history_lem limit burns =
    (history_end limit burns, ground (arith, length-drop (length burns - suc limit) burns), refl)
