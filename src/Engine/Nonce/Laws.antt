-- ===== src/Engine/Nonce/Laws.antt =====
-- The nonces that `next` hands out.
use creation_of_energy_token.Prelude.{
  ℕ, zero, suc, ◌+◌, ◌≡◌, refl, List, [], ◌∷◌, max, Text, text_Eq, or_else, arith,
}
use creation_of_energy_token.Prelude.Dict.{get, get-set_self, get-set_ne}
use creation_of_energy_token.Engine.Nonce.{NonceManager, next, reconcile}

-- The nonce that `next` would hand out.
abbrev pub pending : NonceManager → Text → ℕ
pending m a = or_else (get a m) 0

-- `n` calls of `next` for one address, one after the other.
abbrev pub take_nonces : ℕ → NonceManager → Text → List ℕ
take_nonces zero m a = []
take_nonces (suc n) m a = (next m a).0 ∷ take_nonces n (next m a).1 a

abbrev pub count_up : ℕ → ℕ → List ℕ
count_up zero k = []
count_up (suc n) k = k ∷ count_up n (k + 1)

pending-next : (m : NonceManager) (a : Text) → pending (next m a).1 a ≡ pending m a + 1
unfolding next
pending-next m a = ground (arith, get-set_self a (pending m a + 1) m)

next-fst : (m : NonceManager) (a : Text) → (next m a).0 ≡ pending m a
unfolding next
next-fst m a = refl

take_nonces-from :
    (n k : ℕ) (m : NonceManager) (a : Text) → pending m a ≡ k → take_nonces n m a ≡ count_up n k
take_nonces-from zero k m a e = refl
take_nonces-from (suc n) k m a e =
    ground (arith, pending-next m a, next-fst m a, take_nonces-from n (k + 1) (next m a).1 a)

-- Calls of `next` for one address, one after the other, hand out consecutive numbers, from the
-- pending one on.
pub take_nonces-eq-count_up :
    (n : ℕ) (m : NonceManager) (a : Text) → take_nonces n m a ≡ count_up n (pending m a)
take_nonces-eq-count_up n m a = take_nonces-from n (pending m a) m a refl

-- After `reconcile` the next nonce is the larger of the local one and the chain's; the nonces of
-- the other addresses stay.
pub reconcile_lem :
    (m : NonceManager) (a b : Text) (chain : ℕ)
    → (a ≡ b → ⊥)
    → ((next (reconcile m a chain) a).0 ≡ max (pending m a) chain)
      × ((next (reconcile m a chain) b).0 ≡ pending m b)
unfolding next reconcile
reconcile_lem m a b chain h = (
  ground (arith, get-set_self a (max (pending m a) chain) m),
  ground (arith, get-set_ne a b (max (pending m a) chain) m h),
)
