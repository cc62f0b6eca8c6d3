-- ===== src/Settlement/Gates.antt =====
-- layer5/settlement/src/gates/gateChecklist.ts, with the choice of the provider of
-- ipfs/ipfsPinClient.ts. The files, the node and the names of directories are outside.
pub mod Laws
use creation_of_energy_token.Prelude.{
  ℕ, zero, suc, Bool, true, false, not, ◌&&◌, ◌||◌, List, [], ◌∷◌, ◌++◌, Option, none, some, Text,
  text_Eq, ◌===◌, ◌==◌, codes, length, filter, or_else, if◌then◌else◌,
}
use creation_of_energy_token.Prelude.Strings.{Env, trimmed, is_nonempty, or_first, join_commas}
use creation_of_energy_token.Engine.SafeAuth.{to_lower_case}
use creation_of_energy_token.Settlement.Types.{Failure, Attempt, done, threw, ◌>>=◌}
use creation_of_energy_token.Settlement.Deployment.{has_published_deployment}
use creation_of_energy_token.Settlement.Manifest.{
  is_valid_sui_object_id, zero_id, is_empty, is_truthy,
}

pub data GateStatus : Type 0 where
  pass fail warn skip : GateStatus

pub record GateItem : Type 0 where
  pub id : Text
  pub name : Text
  pub status : GateStatus
  pub detail : Text

pub record GateChecklistResult : Type 0 where
  pub network : Text
  pub ready : Bool
  pub blockers : ℕ
  pub warnings : ℕ
  pub gates : List GateItem

-- The loop of `repoRoot`, with the number of rounds that are left: the directory that has the
-- file, if one is found on the way up.
unfoldable pub search_up : (Text → Bool) → (Text → Text) → ℕ → Text → Option Text
search_up has_file parent zero dir = none
search_up has_file parent (suc rounds) dir =
    let above = search_up has_file parent rounds (parent dir) in
    if has_file dir then some dir else if parent dir === dir then none else above

unfoldable pub repo_root : (Text → Bool) → (Text → Text) → Text → Text
unfolding search_up
repo_root has_file parent cwd = or_else (search_up has_file parent 8 cwd) cwd

-- What the checklist reads of a manifest.
pub record GateManifest : Type 0 where
  pub contract : Text → Option Text
  pub pyth_hermes : Option Text

-- The files, by the network's name, and the node: the answer to a ping, and whether an object is
-- there. The call for the object is not guarded, so what it throws ends the checklist.
pub record World : Type 0 where
  pub read_manifest : Text → Attempt GateManifest
  pub failure_text : Failure → Text
  pub ping : Text → Bool × Text
  pub object_exists : Text → Attempt Bool

abbrev pub testnet_publish_keys : List Text
testnet_publish_keys =
    codes "L5_PACKAGE_ID"
    ∷ codes "L3_GRID_PACKAGE_ID"
    ∷ codes "L5_TREASURY_GUARD_ID"
    ∷ codes "L5_ENERGY_BATCH_ID"
    ∷ codes "L5_ENERGY_COIN_ID"
    ∷ codes "L5_ENERGY_METER_ID"
    ∷ codes "L5_COMPLIANCE_REGISTRY_ID"
    ∷ codes "L5_JURISDICTION_POLICY_ID"
    ∷ codes "L5_REDEMPTION_REGISTRY_ID"
    ∷ codes "L5_GRID_OPERATOR_CAP_ID"
    ∷ codes "L5_BILLING_OPERATOR_CAP_ID"
    ∷ codes "L5_GRID_SETTLEMENT_LEDGER_ID"
    ∷ []

abbrev pub contract_keys : List Text
contract_keys =
    codes "nativeUsdcPackage"
    ∷ codes "wormholePackage"
    ∷ codes "wormholeStateObject"
    ∷ codes "pythPackage"
    ∷ codes "pythStateObject"
    ∷ []

-- `env(name)` of this file, which trims.
abbrev pub gate_env : Env → Text → Option Text
gate_env env name = trimmed (env name)

abbrev pub is_given {ℓ} : {A : Type ℓ} → Option A → Bool
is_given none = false
is_given (some a) = true

abbrev pub item : Text → Text → GateStatus → Text → GateItem
item id name status detail = record { id = id; name = name; status = status; detail = detail }

abbrev pub status_or : GateStatus → Bool → GateStatus
status_or bad b = if b then pass else bad

-- A contract's id is bad where the test refuses it (a missing one is the text "undefined", which
-- it refuses), or where it is zero.
unfoldable pub is_bad_contract : GateManifest → Text → Bool
is_bad_contract manifest key = elim (manifest.contract key) [
  | none ↦ true
  | some id ↦ not (is_valid_sui_object_id id) || id === zero_id
]

unfoldable pub manifest_gates : World → Text → List GateItem
unfolding is_bad_contract
manifest_gates world network = elim (world.read_manifest network) [
  | threw e ↦ item (codes "G-MANIFEST") (codes "Network manifest") fail (world.failure_text e) ∷ []
  | done manifest ↦
      let bad = filter (is_bad_contract manifest) contract_keys in
      item (codes "G-MANIFEST") (codes "Network manifest (Pyth/Wormhole/USDC)")
        (status_or fail (is_empty bad))
        (if is_empty bad then codes "valid contract IDs" else codes "invalid: " ++ join_commas bad)
      ∷ (if network === codes "testnet"
            && is_given (manifest.pyth_hermes)
            && or_else manifest.pyth_hermes [] === codes "https://hermes.pyth.network"
          then item (codes "G-PYTH-HERMES") (codes "Pyth Hermes endpoint") fail
              (codes "testnet must use hermes-beta.pyth.network")
            ∷ []
          else [])
]

unfoldable pub rpc_gates : World → Env → Bool → Text → List GateItem
unfolding trimmed
rpc_gates world env with_rpc network =
    let url = or_first (gate_env env (codes "SUI_RPC_URL")) (
      or_first (gate_env env (codes "SHINAMI_NODE_URL"))
        (gate_env env (codes "BLOCKVISION_RPC_URL"))) in
    let (reached, detail) =
      world.ping (if network === codes "mainnet" then codes "mainnet" else codes "testnet") in
    item (codes "G-RPC-ENV") (codes "RPC URL configured") (status_or warn (is_given url)) (
      if is_given url
      then codes "SUI_RPC_URL or BLOCKVISION_RPC_URL set"
      else codes "using manifest default only")
    ∷ (if with_rpc
        then item (codes "G-RPC-PING") (codes "RPC reachable") (status_or fail reached) detail ∷ []
        else [])

unfoldable pub missing_keys : Env → List Text
unfolding trimmed
missing_keys env = filter (λ k. not (is_given (gate_env env k))) testnet_publish_keys

unfoldable pub publish_gate : Env → Text → GateItem
unfolding has_published_deployment missing_keys
publish_gate env network =
    let name = codes "Layer 3/5 published object IDs" in
    if network === codes "testnet"
    then (let missing = missing_keys env in
        item (codes "G-TESTNET-PUBLISH") name (status_or fail (is_empty missing)) (
          if is_empty missing
          then codes "all publish env vars present"
          else codes "missing: " ++ join_commas missing))
    else item (codes "G-TESTNET-PUBLISH") name (status_or fail (has_published_deployment env)) (
        if has_published_deployment env
        then codes "mainnet env present"
        else codes "publish env incomplete")

-- The package on the node, where it is asked for and set.
unfoldable pub onchain_gates : World → Env → Bool → Attempt (List GateItem)
unfolding trimmed
onchain_gates world env with_rpc =
    elim (if with_rpc then gate_env env (codes "L5_PACKAGE_ID") else none) [
      | none ↦ done []
      | some id ↦ elim (world.object_exists id) [
        | threw e ↦ threw e
        | done found ↦ done (
            item (codes "G-L5-ONCHAIN") (codes "L5_PACKAGE_ID exists on RPC") (status_or fail found)
              (if found then codes "object found" else codes "not found on chain")
            ∷ [])
      ]
    ]

pub data Provider : Type 0 where
  kubo pinata no_provider : Provider

-- The choice of the constructor of `IpfsPinClient`.
unfoldable pub ipfs_provider : Env → Provider
unfolding trimmed to_lower_case
ipfs_provider env =
    let explicit : Text = elim (trimmed (env (codes "IPFS_PROVIDER"))) [
      | none ↦ []
      | some p ↦ to_lower_case p
    ] in
    let jwt =
      is_given
        (or_first (trimmed (env (codes "PINATA_JWT"))) (trimmed (env (codes "IPFS_PINATA_JWT")))) in
    if explicit === codes "none"
    then no_provider
    else if explicit === codes "pinata" || not (explicit === codes "kubo") && jwt
    then pinata
    else if explicit === codes "kubo" || is_truthy (env (codes "IPFS_KUBO_API_URL"))
    then kubo
    else no_provider

abbrev pub is_enabled : Provider → Bool
is_enabled no_provider = false
is_enabled kubo = true
is_enabled pinata = true

unfoldable pub settings_gates : Env → Text → List GateItem
unfolding trimmed ipfs_provider
settings_gates env network =
    let dir = gate_env env (codes "SETTLEMENT_DATA_DIR") in
    let key = is_given (gate_env env (codes "SETTLEMENT_API_KEY")) in
    let signer = is_given (gate_env env (codes "SUI_SIGNER_SECRET_KEY")) in
    let ipfs = is_enabled (ipfs_provider env) in
    item (codes "G-PERSIST") (codes "Durable audit store") (status_or warn (is_given dir))
      (elim dir [
        | none ↦ codes "in-memory only — set SETTLEMENT_DATA_DIR for production"
        | some d ↦ codes "SETTLEMENT_DATA_DIR=" ++ d
      ])
    ∷ item (codes "G-IPFS") (codes "IPFS proof/report pinning") (status_or warn ipfs) (
        if ipfs
        then codes "IPFS provider enabled (real CIDs)"
        else codes "set IPFS_PROVIDER=kubo or PINATA_JWT for real CIDs")
    ∷ item (codes "G-API-KEY") (codes "Settlement API authentication") (status_or warn key) (
        if key
        then codes "SETTLEMENT_API_KEY configured"
        else codes "open API — set SETTLEMENT_API_KEY for production")
    ∷ item (codes "G-SIGNER") (codes "Transaction submit signer") (status_or warn signer) (
        if signer
        then codes "signer configured for POST /v1/redemption/submit"
        else codes "dry-run only until SUI_SIGNER_SECRET_KEY is set")
    ∷ item (codes "G-WORMHOLE-SCAN") (codes "Wormhole scan API (bridge worker)") pass
        (codes "manifest wormholeScan for " ++ network)
    ∷ []

abbrev pub is_fail : GateItem → Bool
is_fail gate = elim gate.status [ pass ↦ false | fail ↦ true | warn ↦ false | skip ↦ false ]

abbrev pub is_warn : GateItem → Bool
is_warn gate = elim gate.status [ pass ↦ false | fail ↦ false | warn ↦ true | skip ↦ false ]

unfoldable pub checklist_of : Text → List GateItem → GateChecklistResult
checklist_of network gates =
    let blockers = length (filter is_fail gates) in
    record {
      network = network;
      ready = blockers == 0;
      blockers = blockers;
      warnings = length (filter is_warn gates);
      gates = gates;
    }

-- The gates in their order; those of the package on the node come from outside.
unfoldable pub all_gates : World → Env → Bool → Text → List GateItem → List GateItem
unfolding manifest_gates rpc_gates publish_gate settings_gates
all_gates world env with_rpc network onchain =
    manifest_gates world network
    ++ rpc_gates world env with_rpc network
    ++ publish_gate env network ∷ onchain
    ++ settings_gates env network

-- `options.withRpc`, or what the variable GATE_CHECK_RPC says.
abbrev pub asks_rpc : Env → Option Bool → Bool
asks_rpc env asked =
    or_else asked
      (elim (env (codes "GATE_CHECK_RPC")) [ none ↦ false | some v ↦ v === codes "true" ])

unfoldable pub run_gate_checklist : World → Env → Option Bool → Attempt GateChecklistResult
unfolding onchain_gates checklist_of all_gates
run_gate_checklist world env asked =
    let network = or_else (env (codes "SUI_NETWORK")) (codes "testnet") in
    let with_rpc = asks_rpc env asked in
    elim (onchain_gates world env with_rpc) [
      | threw e ↦ threw e
      | done onchain ↦ done (checklist_of network (all_gates world env with_rpc network onchain))
    ]
