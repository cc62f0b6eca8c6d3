-- ===== src/Engine/Nonce.antt =====
-- layer4/engine/src/nonceManager.ts: the local nonces of a relayer. `nextFromSafe` and
-- `nextFromChain` only ask the chain; the runner takes the chain's answer as a parameter.
pub mod Laws
use creation_of_energy_token.Prelude.{ℕ, ◌+◌, max, Text, text_Eq, or_else}
use creation_of_energy_token.Prelude.Dict.{Dict, get, set}

abbrev pub NonceManager : Type 0
NonceManager = Dict Text ℕ

unfoldable pub next : NonceManager → Text → ℕ × NonceManager
next nonces address =
    let current = or_else (get address nonces) 0 in (current, set address (current + 1) nonces)

unfoldable pub reconcile : NonceManager → Text → ℕ → NonceManager
reconcile nonces address chain_nonce =
    set address (max (or_else (get address nonces) 0) chain_nonce) nonces
