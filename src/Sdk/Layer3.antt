-- ===== src/Sdk/Layer3.antt =====
-- layer3/sdk/src: buildMintPtb.ts, publishedIds.ts and suiMintClient.ts.
use creation_of_energy_token.Prelude.{
  ℕ, Bool, ◌&&◌, List, [], ◌∷◌, ◌++◌, Text, text_Eq, ◌===◌, codes, or_else, if◌then◌else◌,
}
use creation_of_energy_token.Prelude.Int.{ℤ}
use creation_of_energy_token.Prelude.Strings.{Env}
use creation_of_energy_token.Sdk.Transaction.{
  object, u8, u64, vector_u8, Transaction, new_transaction, call, transfer,
}
use creation_of_energy_token.Sdk.Layer2.{Attestation}
use creation_of_energy_token.Settlement.Types.{Attempt, done, ◌>>=◌}
use creation_of_energy_token.Settlement.Deployment.{env_value, required, is_set}

pub record Layer3SharedObjects : Type 0 where
  pub energy_meter_id : Text
  pub compliance_registry_id : Text
  pub treasury_guard_id : Text

unfoldable pub build_layer3_mint_ptb :
    Transaction → Text → Layer3SharedObjects → Attestation → ℤ → ℤ → Text → Transaction
unfolding call transfer
build_layer3_mint_ptb tx grid_package_id objects attestation reading_timestamp source producer =
    let (coin, tx1) =
      call (grid_package_id ++ codes "::minting_engine::mint_energy")
        (object objects.treasury_guard_id
          ∷ object objects.energy_meter_id
          ∷ u64 attestation.kwh_delta
          ∷ u64 reading_timestamp
          ∷ vector_u8 attestation.secp256k1_sig
          ∷ u8 source
          ∷ object objects.compliance_registry_id
          ∷ [])
        tx in
    transfer (coin ∷ []) producer tx1

pub record Layer3PublishedDeployment : Type 0 where
  pub grid_package_id : Text
  pub treasury_guard_id : Text
  pub compliance_registry_id : Text
  pub energy_meter_id : Text
  pub network : Text
  pub rpc_url : Text

unfoldable pub has_layer3_deployment : Env → Bool
unfolding env_value
has_layer3_deployment env =
    is_set env (codes "L3_GRID_PACKAGE_ID") && is_set env (codes "L3_TREASURY_GUARD_ID")

unfoldable pub load_layer3_deployment : Env → Attempt Layer3PublishedDeployment
unfolding env_value required
load_layer3_deployment env =
    let network = or_else (env_value env (codes "SUI_NETWORK")) (codes "testnet") in
    let rpc = or_else (env_value env (codes "SUI_RPC_URL")) (
      if network === codes "mainnet"
      then codes "https://fullnode.mainnet.sui.io:443"
      else if network === codes "localnet"
      then codes "http://127.0.0.1:9000"
      else codes "https://fullnode.testnet.sui.io:443") in
    do
      grid_package_id ← required env (codes "L3_GRID_PACKAGE_ID")
      treasury_guard_id ← required env (codes "L3_TREASURY_GUARD_ID")
      compliance_registry_id ← required env (codes "L3_COMPLIANCE_REGISTRY_ID")
      energy_meter_id ← required env (codes "L3_ENERGY_METER_ID")
      done (record {
        grid_package_id = grid_package_id;
        treasury_guard_id = treasury_guard_id;
        compliance_registry_id = compliance_registry_id;
        energy_meter_id = energy_meter_id;
        network = network;
        rpc_url = rpc;
      })

pub record MintPlan : Type 0 where
  pub kwh_delta : ℤ
  pub reading_timestamp : ℤ
  pub secp256k1_sig : List ℕ
  pub source : ℤ
  pub producer_address : Text

unfoldable pub build_mint_transaction : Layer3PublishedDeployment → MintPlan → Transaction
unfolding build_layer3_mint_ptb
build_mint_transaction deployment plan =
    build_layer3_mint_ptb new_transaction deployment.grid_package_id
      (record {
        energy_meter_id = deployment.energy_meter_id;
        compliance_registry_id = deployment.compliance_registry_id;
        treasury_guard_id = deployment.treasury_guard_id;
      })
      (record {
        device_id = [];
        kwh_delta = plan.kwh_delta;
        timestamp_ms = plan.reading_timestamp;
        secp256k1_sig = plan.secp256k1_sig;
      })
      plan.reading_timestamp plan.source plan.producer_address
