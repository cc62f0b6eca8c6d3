-- ===== src/Settlement/Manifest.antt =====
-- layer5/settlement/src/config/loadNetworkManifest.ts and validateNetworkManifest.ts. The file
-- that a manifest is read and parsed from is outside: `read_manifest`, by the file's name.
pub mod Laws
use creation_of_energy_token.Prelude.{
  ℕ, Bool, true, false, not, ◌&&◌, ◌||◌, ◌==◌, List, [], ◌∷◌, ◌++◌, Option, none, some, Text,
  text_Eq, ◌===◌, codes, length, drop, replicate, or_else, if◌then◌else◌,
}
use creation_of_energy_token.Prelude.Strings.{
  Env, starts_with, has_part, all_hex, is_nonempty, trimmed, or_first,
}
use creation_of_energy_token.Settlement.Types.{Attempt}

-- `SuiNetwork` is a text: the three names are cast, not checked.
pub record NetworkContracts : Type 0 where
  pub native_usdc_package : Text
  pub native_usdc_type : Text
  pub wormhole_package : Text
  pub wormhole_state_object : Text
  pub pyth_package : Text
  pub pyth_state_object : Text

pub record NetworkManifest : Type 0 where
  pub network : Text
  pub rpc_url : Text
  pub contracts : NetworkContracts
  pub wormhole_scan : Text
  pub pyth_hermes : Text
  pub circle_api : Text

unfoldable pub load_network_manifest :
    (Text → Attempt NetworkManifest) → Env → Option Text → Attempt NetworkManifest
load_network_manifest read_manifest env network =
    let net = or_else (or_first network (env (codes "SUI_NETWORK"))) (codes "testnet") in
    read_manifest (
      if net === codes "mainnet"
      then codes "mainnet.json"
      else if net === codes "localnet"
      then codes "testnet.json"
      else codes "testnet.json")

-- The test of `^0x[0-9a-fA-F]{64}$`.
unfoldable pub is_valid_sui_object_id : Text → Bool
unfolding starts_with
is_valid_sui_object_id id = starts_with (codes "0x") id && length id == 66 && all_hex (drop 2 id)

abbrev pub zero_id : Text
zero_id = codes "0x" ++ replicate 64 b'0'

unfoldable pub is_placeholder_object_id : Text → Bool
unfolding is_valid_sui_object_id
is_placeholder_object_id id = id === zero_id || not (is_valid_sui_object_id id)

-- One of the messages, with the values that are put in.
pub data ManifestError : Type 0 where
  missing_contract : Text → Text → Text → ManifestError
  mainnet_hermes_on_testnet : ManifestError
  unset_variable : Text → ManifestError
  solo_hot_key : ManifestError

-- The five keys, each with the manifest's value.
abbrev pub external_contracts : NetworkManifest → List (Text × Text)
external_contracts manifest =
    (codes "nativeUsdcPackage", manifest.contracts.native_usdc_package)
    ∷ (codes "wormholePackage", manifest.contracts.wormhole_package)
    ∷ (codes "wormholeStateObject", manifest.contracts.wormhole_state_object)
    ∷ (codes "pythPackage", manifest.contracts.pyth_package)
    ∷ (codes "pythStateObject", manifest.contracts.pyth_state_object)
    ∷ []

unfoldable pub placeholder_errors : Text → List (Text × Text) → List ManifestError
unfolding is_placeholder_object_id
placeholder_errors network [] = []
placeholder_errors network ((key, id) ∷ rest) =
    let errors = placeholder_errors network rest in
    if is_placeholder_object_id id then missing_contract network key id ∷ errors else errors

unfoldable pub validate_external_contracts : NetworkManifest → List ManifestError
unfolding placeholder_errors has_part
validate_external_contracts manifest =
    placeholder_errors manifest.network (external_contracts manifest)
    ++ (if manifest.network === codes "testnet"
          && has_part (codes "hermes.pyth.network") manifest.pyth_hermes
        then mainnet_hermes_on_testnet ∷ []
        else [])

-- `MAINNET_ENV_REQUIREMENTS`: every variable of the list is required.
abbrev pub mainnet_env_requirements : List Text
mainnet_env_requirements =
    codes "L5_PACKAGE_ID"
    ∷ codes "L3_GRID_PACKAGE_ID"
    ∷ codes "L5_TREASURY_GUARD_ID"
    ∷ codes "L5_REDEMPTION_REGISTRY_ID"
    ∷ codes "PYTH_PRICE_FEED_ID"
    ∷ codes "SUI_MULTISIG_PUBLIC_KEY"
    ∷ []

-- Unset, blank, or a text that starts with "0x...".
unfoldable pub is_unset : Env → Text → Bool
unfolding trimmed starts_with
is_unset env name = elim (trimmed (env name)) [
  | none ↦ true
  | some v ↦ v === codes "0x..." || starts_with (codes "0x...") v
]

unfoldable pub unset_errors : Env → List Text → List ManifestError
unfolding is_unset
unset_errors env [] = []
unset_errors env (name ∷ names) =
    let errors = unset_errors env names in
    if is_unset env name then unset_variable name ∷ errors else errors

abbrev pub is_truthy : Option Text → Bool
is_truthy none = false
is_truthy (some v) = is_nonempty v

unfoldable pub validate_production_env : Text → Env → List ManifestError
unfolding unset_errors
validate_production_env network env =
    if not (network === codes "mainnet")
    then []
    else unset_errors env mainnet_env_requirements
      ++ (if is_truthy (env (codes "SUI_SIGNER_SECRET_KEY"))
            && not (is_truthy (env (codes "SUI_MULTISIG_PUBLIC_KEY")))
          then solo_hot_key ∷ []
          else [])

pub record ProductionReadinessReport : Type 0 where
  pub network : Text
  pub manifest_errors : List ManifestError
  pub env_errors : List ManifestError
  pub ready : Bool

abbrev pub is_empty {ℓ} : {A : Type ℓ} → List A → Bool
is_empty [] = true
is_empty (x ∷ xs) = false

unfoldable pub assess_production_readiness :
    Text → NetworkManifest → Env → ProductionReadinessReport
unfolding validate_external_contracts validate_production_env
assess_production_readiness network manifest env =
    let manifest_errors = validate_external_contracts manifest in
    let env_errors = validate_production_env network env in
    record {
      network = network;
      manifest_errors = manifest_errors;
      env_errors = env_errors;
      ready =
          is_empty manifest_errors && (not (network === codes "mainnet") || is_empty env_errors);
    }
