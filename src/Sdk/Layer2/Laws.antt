-- ===== src/Sdk/Layer2/Laws.antt =====
-- The mint transaction of layer 2: its order, and the objects that it names.
use creation_of_energy_token.Prelude.{
  Bool, true, false, List, [], ◌∷◌, ◌++◌, none, some, Text, text_Eq, Option, arith,
}
use creation_of_energy_token.Prelude.Sets.{Within, Within-self}
use creation_of_energy_token.Sdk.Transaction.{new_transaction, call, transfer, used_objects}
use creation_of_energy_token.Sdk.Transaction.Laws.{IsOrdered}
use creation_of_energy_token.Sdk.Layer2.{
  Layer2SharedObjects, MintPtbTargets, VerifyReadingArgs, zk_registry, verify_reading,
  used_registry, mint_commands, required_with, build_mint_ptb, list_required_shared_objects,
}

module _ (objects : Layer2SharedObjects) (targets : MintPtbTargets) (args : VerifyReadingArgs)
    (treasury producer : Text) where
  mint_commands-IsOrdered :
      (registry : Option Text)
      → IsOrdered (mint_commands registry new_transaction objects targets args treasury producer)
  unfolding mint_commands verify_reading call transfer
  mint_commands-IsOrdered (some r) = ground arith
  mint_commands-IsOrdered none = ground arith

  abbrev base_ids : List Text
  base_ids =
      objects.device_registry_id ∷ objects.processed_attestations_id ∷ objects.energy_meter_id
      ∷ objects.oracle_aggregator_id ∷ objects.compliance_registry_id
      ∷ objects.jurisdiction_blacklist_id ∷ treasury ∷ []

  plain-Within : Within (required_with none objects treasury) (
      used_objects
        (mint_commands none new_transaction objects targets args treasury producer).commands)
  unfolding mint_commands verify_reading call transfer required_with
  plain-Within =
      let (d, (p, (m, (a, (c, (j, (t, _))))))) = Within-self base_ids in
      (m, (d, (p, (c, (j, (m, (t, (m, (m, (c, (j, (m, tt))))))))))))

  mint_commands-Within :
      (zk : Bool) (registry : Option Text)
      → Within (required_with registry objects treasury) (
          used_objects
            (mint_commands
              (used_registry zk registry)
              new_transaction
              objects
              targets
              args
              treasury
              producer).commands)
  unfolding mint_commands verify_reading call transfer required_with
  mint_commands-Within true (some r) =
      let (d, (p, (m, (a, (c, (j, (t, (x, _)))))))) = Within-self (base_ids ++ r ∷ []) in
      (d, (p, (m, (x, (c, (j, (m, (t, (m, (m, (c, (j, (m, tt)))))))))))))
  mint_commands-Within false (some r) =
      let (d, (p, (m, (a, (c, (j, (t, (x, _)))))))) = Within-self (base_ids ++ r ∷ []) in
      (m, (d, (p, (c, (j, (m, (t, (m, (m, (c, (j, (m, tt))))))))))))
  mint_commands-Within true none = plain-Within
  mint_commands-Within false none = plain-Within

-- The mint transaction of a new transaction reads results of earlier commands only, and every
-- object that it names stands in the list of the required shared objects.
pub build_mint_ptb-IsOrdered :
    (objects : Layer2SharedObjects) (targets : MintPtbTargets) (args : VerifyReadingArgs)
    (treasury producer : Text)
    → let tx = build_mint_ptb new_transaction objects targets args treasury producer in
      IsOrdered tx
      × Within (list_required_shared_objects objects treasury) (used_objects tx.commands)
unfolding build_mint_ptb list_required_shared_objects
build_mint_ptb-IsOrdered objects targets args treasury producer =
    let registry = zk_registry objects in
    (
      mint_commands-IsOrdered objects targets args treasury producer
          (used_registry args.use_zk registry),
      mint_commands-Within objects targets args treasury producer args.use_zk registry,
    )
