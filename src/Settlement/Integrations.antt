-- ===== src/Settlement/Integrations.antt =====
-- layer5/settlement/src: buildWormholeRecPtb.ts, buildPythUpdatePtb.ts and
-- buildNativeUsdcSettlePtb.ts. A manifest that cannot be read stops each of them.
use creation_of_energy_token.Prelude.{
  ℕ, Bool, false, List, [], ◌∷◌, ◌++◌, Option, none, some, Text, text_Eq, ◌===◌, codes, or_else,
  if◌then◌else◌,
}
use creation_of_energy_token.Prelude.Int.{ℤ}
use creation_of_energy_token.Prelude.Strings.{Env}
use creation_of_energy_token.Sdk.Transaction.{
  object, u8, u16, u64, vector_u8, Transaction, new_transaction, call,
}
use creation_of_energy_token.Settlement.Types.{Attempt, done, ◌>>=◌}
use creation_of_energy_token.Settlement.Manifest.{NetworkManifest, load_network_manifest}

pub record WormholeRecPtbConfig : Type 0 where
  pub l5_package_id : Text
  pub wormhole_package_id : Option Text
  pub wormhole_state_id : Text
  pub emitter_cap_id : Text
  pub energy_batch_id : Text
  pub energy_meter_id : Text
  pub bridge_whitelist_id : Text
  pub compliance_registry_id : Text
  pub clock_id : Option Text
  pub message_fee_coin_id : Text
  pub network : Option Text

pub record PythUpdatePtbConfig : Type 0 where
  pub l5_package_id : Text
  pub price_feed_object_id : Text
  pub clock_object_id : Option Text
  pub network : Option Text

pub record PythUpdateParams : Type 0 where
  pub price : ℤ
  pub expo : ℤ
  pub conf : ℤ
  pub publish_time_ms : ℤ

pub record NativeUsdcSettleConfig : Type 0 where
  pub l5_package_id : Text
  pub usdc_package_id : Option Text
  pub marketplace_id : Text
  pub compliance_registry_id : Text
  pub price_feed_id : Text
  pub network : Option Text

pub record NativeUsdcSettleParams : Type 0 where
  pub energy_coin_id : Text
  pub usdc_coin_id : Text
  pub slippage_bps : ℤ
  pub wormhole_vaa_sequence : ℤ

module _ (read_manifest : Text → Attempt NetworkManifest) (env : Env) where
  -- The package of Wormhole is computed and not used.
  unfoldable pub build_wormhole_rec_ptb :
      Transaction → WormholeRecPtbConfig → ℤ → Attempt Transaction
  unfolding load_network_manifest call
  build_wormhole_rec_ptb tx config destination_chain = do
    manifest ← load_network_manifest read_manifest env config.network
    done
        (call (config.l5_package_id ++ codes "::carbon_bridge::bridge_rec_core")
          (object config.energy_batch_id
            ∷ object config.energy_meter_id
            ∷ object config.emitter_cap_id
            ∷ object config.wormhole_state_id
            ∷ object config.message_fee_coin_id
            ∷ object config.bridge_whitelist_id
            ∷ object config.compliance_registry_id
            ∷ u16 destination_chain
            ∷ object (or_else config.clock_id (codes "0x6"))
            ∷ [])
          tx).1

  unfoldable pub build_wormhole_publish_only_ptb :
      Transaction → WormholeRecPtbConfig → Text → Attempt Transaction
  unfolding load_network_manifest call
  build_wormhole_publish_only_ptb tx config ticket_id = do
    manifest ← load_network_manifest read_manifest env config.network
    done
        (call
          (or_else config.wormhole_package_id manifest.contracts.wormhole_package
            ++ codes "::publish_message::publish_message")
          (object config.wormhole_state_id
            ∷ object config.message_fee_coin_id
            ∷ object ticket_id
            ∷ object (or_else config.clock_id (codes "0x6"))
            ∷ [])
          tx).1

  -- The first call, where update bytes are given.
  unfoldable pub pyth_update : NetworkManifest → Option (List ℕ) → Transaction → Transaction
  unfolding call
  pyth_update manifest none tx = tx
  pyth_update manifest (some []) tx = tx
  pyth_update manifest (some (b ∷ bytes)) tx =
      (call (manifest.contracts.pyth_package ++ codes "::pyth::update_price_feeds")
        (object manifest.contracts.pyth_state_object ∷ vector_u8 (b ∷ bytes) ∷ []) tx).1

  unfoldable pub build_pyth_update_ptb :
      Transaction → PythUpdatePtbConfig → PythUpdateParams → Option (List ℕ) → Attempt Transaction
  unfolding load_network_manifest pyth_update call
  build_pyth_update_ptb tx config params bytes = do
    manifest ← load_network_manifest read_manifest env config.network
    done
        (call (config.l5_package_id ++ codes "::pyth_price_sync::sync_energy_price_feed")
          (object config.price_feed_object_id
            ∷ u64 params.price
            ∷ u8 params.expo
            ∷ u64 params.conf
            ∷ u64 params.publish_time_ms
            ∷ object (or_else config.clock_object_id (codes "0x6"))
            ∷ [])
          (pyth_update manifest bytes tx)).1

  -- The status that the node's inspection of the transaction reports, where it reports one.
  unfoldable pub dry_run_pyth_update :
      (Text → Transaction → Text → Attempt (Option Text))
      → PythUpdatePtbConfig
      → PythUpdateParams
      → Text
      → Attempt (Bool × Option Text)
  unfolding build_pyth_update_ptb
  dry_run_pyth_update dev_inspect config params sender =
      let network = or_else config.network (codes "testnet") in
      let net =
        if network === codes "mainnet"
        then codes "mainnet"
        else if network === codes "localnet"
        then codes "localnet"
        else codes "testnet" in
      do
        tx ← build_pyth_update_ptb new_transaction config params none
        status ← dev_inspect net tx sender
        done (elim status [ none ↦ (false, none) | some s ↦ (s === codes "success", some s) ])

  unfoldable pub build_native_usdc_settle_ptb :
      Transaction → NativeUsdcSettleConfig → NativeUsdcSettleParams → Attempt Transaction
  unfolding load_network_manifest call
  build_native_usdc_settle_ptb tx config params = do
    manifest ← load_network_manifest read_manifest env config.network
    done
        (call (config.l5_package_id ++ codes "::native_usdc_settlement::settle_native_usdc_entry")
          (object config.marketplace_id
            ∷ object config.compliance_registry_id
            ∷ object config.price_feed_id
            ∷ object params.energy_coin_id
            ∷ object params.usdc_coin_id
            ∷ u64 params.slippage_bps
            ∷ u64 params.wormhole_vaa_sequence
            ∷ [])
          tx).1
