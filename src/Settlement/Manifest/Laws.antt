-- ===== src/Settlement/Manifest/Laws.antt =====
-- When a deployment is reported as ready.
use creation_of_energy_token.Prelude.{
  Bool, true, false, not, ◌&&◌, ◌||◌, List, [], ◌∷◌, ◌++◌, Text, text_Eq, ◌===◌, codes, ◌≡◌, refl,
  ◌↔◌, All, if◌then◌else◌, arith,
}
use creation_of_energy_token.Prelude.Strings.{Env, has_part}
use creation_of_energy_token.Settlement.Manifest.{
  NetworkManifest, external_contracts, is_placeholder_object_id, placeholder_errors,
  validate_external_contracts, mainnet_env_requirements, is_unset, unset_errors, is_truthy,
  validate_production_env, assess_production_readiness, is_empty,
}

is_empty-append {ℓ} :
    {A : Type ℓ} (xs ys : List A)
    → (is_empty (xs ++ ys) ≡ true) ↔ ((is_empty xs ≡ true) × (is_empty ys ≡ true))
is_empty-append [] ys = ground arith
is_empty-append (x ∷ xs) ys = ground arith

placeholder_errors_iff :
    (network : Text) (ids : List (Text × Text))
    → (is_empty (placeholder_errors network ids) ≡ true)
      ↔ All (λ entry. is_placeholder_object_id entry.1 ≡ false) ids
unfolding placeholder_errors
placeholder_errors_iff network [] = ground arith
placeholder_errors_iff network ((key, id) ∷ rest) =
    ground (arith, placeholder_errors_iff network rest)

unset_errors_iff :
    (env : Env) (names : List Text)
    → (is_empty (unset_errors env names) ≡ true) ↔ All (λ name. is_unset env name ≡ false) names
unfolding unset_errors
unset_errors_iff env [] = ground arith
unset_errors_iff env (name ∷ names) = ground (arith, unset_errors_iff env names)

-- The five contracts of the manifest are no placeholders, and testnet does not use the Hermes of
-- mainnet.
abbrev pub SoundManifest : NetworkManifest → Type 0
SoundManifest manifest =
    All (λ entry. is_placeholder_object_id entry.1 ≡ false) (external_contracts manifest)
    × ((manifest.network === codes "testnet"
          && has_part (codes "hermes.pyth.network") manifest.pyth_hermes)
        ≡ false)

-- The six variables are set to no placeholder, and there is a multisig key beside a signer's key.
abbrev pub SoundEnv : Env → Type 0
SoundEnv env =
    All (λ name. is_unset env name ≡ false) mainnet_env_requirements
    × ((is_truthy (env (codes "SUI_SIGNER_SECRET_KEY"))
          && not (is_truthy (env (codes "SUI_MULTISIG_PUBLIC_KEY"))))
        ≡ false)

appended_iff {ℓ κ} :
    {A : Type ℓ} {P : Type κ} (xs : List A) (b : Bool) (x : A)
    → (is_empty xs ≡ true) ↔ P
    → (is_empty (xs ++ (if b then x ∷ [] else [])) ≡ true) ↔ (P × (b ≡ false))
appended_iff [] true x e = (λ h. ground arith, λ h. ground arith)
appended_iff [] false x e = (λ h. (e.0 refl, refl), λ h. refl)
appended_iff (y ∷ ys) b x e = (λ h. ground arith, λ h. e.1 h.0)

ready_iff :
    {A S E N : Type 0} (m b : Bool) (xs : List A)
    → (m ≡ true) ↔ S
    → (is_empty xs ≡ true) ↔ E
    → (b ≡ true) ↔ N
    → ((m && (not b || is_empty (if not b then [] else xs))) ≡ true) ↔ (S × (N → E))
ready_iff false b xs s e n = (λ h. ground arith, λ h. s.1 h.0)
ready_iff true false xs s e n = (λ h. (s.0 refl, λ k. ground (arith, n.1 k)), λ h. refl)
ready_iff true true xs s e n = (λ h. (s.0 refl, λ k. e.0 h), λ h. e.1 (h.1 (n.0 refl)))

validate_external_contracts_iff :
    (manifest : NetworkManifest)
    → (is_empty (validate_external_contracts manifest) ≡ true) ↔ SoundManifest manifest
unfolding validate_external_contracts
validate_external_contracts_iff manifest =
    appended_iff (placeholder_errors manifest.network (external_contracts manifest)) _ _
      (placeholder_errors_iff manifest.network (external_contracts manifest))

-- Readiness is reported exactly for a sound manifest and, on mainnet, a sound environment.
pub assess_production_readiness_iff :
    (network : Text) (manifest : NetworkManifest) (env : Env)
    → ((assess_production_readiness network manifest env).ready ≡ true)
      ↔ (SoundManifest manifest × (network ≡ codes "mainnet" → SoundEnv env))
unfolding assess_production_readiness validate_production_env
assess_production_readiness_iff network manifest env =
    ready_iff (is_empty (validate_external_contracts manifest)) (network === codes "mainnet") _
      (validate_external_contracts_iff manifest)
      (appended_iff (unset_errors env mainnet_env_requirements) _ _
        (unset_errors_iff env mainnet_env_requirements))
      (text_Eq.beq_iff network (codes "mainnet"))
