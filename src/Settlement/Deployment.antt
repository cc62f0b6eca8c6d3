-- ===== src/Settlement/Deployment.antt =====
-- layer5/settlement/src/publishedIds.ts, config/deploymentFromEnv.ts and the URL and headers of
-- suiRpcClient.ts. A missing variable throws; `process.env` is the argument `env`.
pub mod Laws
use creation_of_energy_token.Prelude.{
  Bool, true, false, not, ◌&&◌, ◌||◌, Option, none, some, Text, text_Eq, ◌===◌, codes, or_else,
  if◌then◌else◌, List, [], ◌∷◌,
}
use creation_of_energy_token.Prelude.Strings.{Env, is_nonempty, trimmed, or_first}
use creation_of_energy_token.Engine.SafeAuth.{to_lower_case}
use creation_of_energy_token.Settlement.Types.{Failure, missing_env, Attempt, done, threw, ◌>>=◌}

pub record Layer5PackageTargets : Type 0 where
  pub l5_package_id : Text
  pub l3_grid_package_id : Text

pub record Layer5RedeemObjects : Type 0 where
  pub treasury_guard_id : Text
  pub energy_batch_id : Text
  pub energy_coin_id : Text
  pub energy_meter_id : Text
  pub compliance_registry_id : Text
  pub jurisdiction_policy_id : Text
  pub redemption_registry_id : Text
  pub grid_operator_cap_id : Text
  pub billing_operator_cap_id : Text
  pub grid_settlement_ledger_id : Text

-- The network is a variable's text, cast; `rpc_url` is undefined for a network that is not one
-- of the three.
pub record PublishedDeployment : Type 0 where
  pub targets : Layer5PackageTargets
  pub objects : Layer5RedeemObjects
  pub network : Text
  pub rpc_url : Option Text

abbrev pub nonempty : Option Text → Option Text
nonempty none = none
nonempty (some v) = if is_nonempty v then some v else none

-- `env(key)`
unfoldable pub env_value : Env → Text → Option Text
env_value env key = nonempty (env key)

unfoldable pub required : Env → Text → Attempt Text
unfolding env_value
required env key = elim (env_value env key) [ none ↦ threw (missing_env key) | some v ↦ done v ]

unfoldable pub rpc_by_network : Text → Option Text
rpc_by_network network =
    if network === codes "localnet"
    then some (codes "http://127.0.0.1:9000")
    else if network === codes "testnet"
    then some (codes "https://fullnode.testnet.sui.io:443")
    else if network === codes "mainnet"
    then some (codes "https://fullnode.mainnet.sui.io:443")
    else none

-- The lower case of ASCII letters is enough: the four texts are ASCII.
unfoldable pub is_stub_package_id : Text → Bool
unfolding to_lower_case
is_stub_package_id package_id =
    let p = to_lower_case package_id in
    p === codes "0x0" || p === codes "0x00" || p === codes "0xpkg" || p === codes ""

abbrev pub is_set : Env → Text → Bool
unfolding env_value
is_set env key = elim (env_value env key) [ none ↦ false | some v ↦ true ]

unfoldable pub has_published_deployment : Env → Bool
has_published_deployment env =
    is_set env (codes "L5_PACKAGE_ID")
    && is_set env (codes "L3_GRID_PACKAGE_ID")
    && is_set env (codes "L5_TREASURY_GUARD_ID")

unfoldable pub load_objects : Env → Attempt Layer5RedeemObjects
unfolding required
load_objects env = do
  treasury_guard_id ← required env (codes "L5_TREASURY_GUARD_ID")
  energy_batch_id ← required env (codes "L5_ENERGY_BATCH_ID")
  energy_coin_id ← required env (codes "L5_ENERGY_COIN_ID")
  energy_meter_id ← required env (codes "L5_ENERGY_METER_ID")
  compliance_registry_id ← required env (codes "L5_COMPLIANCE_REGISTRY_ID")
  jurisdiction_policy_id ← required env (codes "L5_JURISDICTION_POLICY_ID")
  redemption_registry_id ← required env (codes "L5_REDEMPTION_REGISTRY_ID")
  grid_operator_cap_id ← required env (codes "L5_GRID_OPERATOR_CAP_ID")
  billing_operator_cap_id ← required env (codes "L5_BILLING_OPERATOR_CAP_ID")
  grid_settlement_ledger_id ← required env (codes "L5_GRID_SETTLEMENT_LEDGER_ID")
  done (record {
    treasury_guard_id = treasury_guard_id;
    energy_batch_id = energy_batch_id;
    energy_coin_id = energy_coin_id;
    energy_meter_id = energy_meter_id;
    compliance_registry_id = compliance_registry_id;
    jurisdiction_policy_id = jurisdiction_policy_id;
    redemption_registry_id = redemption_registry_id;
    grid_operator_cap_id = grid_operator_cap_id;
    billing_operator_cap_id = billing_operator_cap_id;
    grid_settlement_ledger_id = grid_settlement_ledger_id;
  })

-- The URL of `loadPublishedDeployment`.
unfoldable pub published_rpc_url : Env → Text → Option Text
unfolding env_value rpc_by_network
published_rpc_url env network = or_first (env_value env (codes "SUI_RPC_URL")) (
    or_first (env_value env (codes "SHINAMI_NODE_URL")) (
      or_first (env_value env (codes "SHINAMI_SUI_NODE_URL"))
        (or_first (env_value env (codes "BLOCKVISION_RPC_URL")) (rpc_by_network network))))

unfoldable pub load_published_deployment : Env → Attempt PublishedDeployment
unfolding env_value required load_objects published_rpc_url
load_published_deployment env =
    let network = or_else (env_value env (codes "SUI_NETWORK")) (codes "testnet") in
    do
      l5_package_id ← required env (codes "L5_PACKAGE_ID")
      l3_grid_package_id ← required env (codes "L3_GRID_PACKAGE_ID")
      objects ← load_objects env
      done (record {
        targets = record { l5_package_id = l5_package_id; l3_grid_package_id = l3_grid_package_id };
        objects = objects;
        network = network;
        rpc_url = published_rpc_url env network;
      })

-- The parameter of the source is not read.
unfoldable pub load_published_deployment_or_stub : Env → Option PublishedDeployment
unfolding has_published_deployment load_published_deployment
load_published_deployment_or_stub env =
    if has_published_deployment env
    then elim (load_published_deployment env) [ threw e ↦ none | done d ↦ some d ]
    else none

pub record SuiPtbConfig : Type 0 where
  pub package_id : Text
  pub l3_grid_package_id : Option Text
  pub network : Text
  pub rpc_url : Option Text
  pub signer_secret_key : Option Text
  pub objects : Option Layer5RedeemObjects
  pub stub : Option Bool

unfoldable pub sui_ptb_config_from_env : Env → Attempt SuiPtbConfig
unfolding has_published_deployment load_published_deployment
sui_ptb_config_from_env env =
    if has_published_deployment env
    then (do
      dep ← load_published_deployment env
      done (record {
        package_id = dep.targets.l5_package_id;
        l3_grid_package_id = some dep.targets.l3_grid_package_id;
        network = dep.network;
        rpc_url = dep.rpc_url;
        signer_secret_key = env (codes "SUI_SIGNER_SECRET_KEY");
        objects = some dep.objects;
        stub = some false;
      }))
    else done (record {
      package_id = or_else (env (codes "L5_PACKAGE_ID")) (codes "0x0");
      l3_grid_package_id = env (codes "L3_GRID_PACKAGE_ID");
      network = or_else (env (codes "SUI_NETWORK")) (codes "testnet");
      rpc_url = none;
      signer_secret_key = env (codes "SUI_SIGNER_SECRET_KEY");
      objects = none;
      stub =
          some (elim (env (codes "SUI_PTB_STUB")) [
            | none ↦ true
            | some v ↦ not (v === codes "false")
          ]);
    })

-- `getFullnodeUrl` of the SDK is a parameter.
unfoldable pub resolve_sui_rpc_url : (Text → Text) → Env → Text → Option Text → Text
unfolding trimmed
resolve_sui_rpc_url fullnode_url env network override =
    let network_url =
      if network === codes "mainnet"
      then fullnode_url (codes "mainnet")
      else if network === codes "localnet"
      then fullnode_url (codes "localnet")
      else fullnode_url (codes "testnet") in
    or_else
      (or_first (trimmed override) (
        or_first (trimmed (env (codes "SUI_RPC_URL"))) (
          or_first (trimmed (env (codes "SHINAMI_NODE_URL"))) (
            or_first (trimmed (env (codes "SHINAMI_SUI_NODE_URL")))
              (trimmed (env (codes "BLOCKVISION_RPC_URL")))))))
      network_url

-- The headers, a name with its value, where a key is set.
unfoldable pub resolve_sui_rpc_headers : Env → Option (Text × Text)
unfolding trimmed
resolve_sui_rpc_headers env =
    elim (or_first (trimmed (env (codes "SUI_RPC_API_KEY"))) (
      or_first (trimmed (env (codes "SHINAMI_API_KEY")))
        (trimmed (env (codes "SHINAMI_ACCESS_KEY"))))) [
          | none ↦ none
          | some key ↦ some (codes "X-Api-Key", key)
        ]
