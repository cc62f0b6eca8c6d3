-- ===== src/Sdk/Layer2.antt =====
-- layer2/sdk/src/buildMintPtb.ts.
pub mod Laws
use creation_of_energy_token.Prelude.{
  ℕ, Bool, ◌&&◌, List, [], ◌∷◌, ◌++◌, Option, none, some, Text, codes, or_else, if◌then◌else◌,
}
use creation_of_energy_token.Prelude.Int.{ℤ, pos}
use creation_of_energy_token.Prelude.Strings.{is_nonempty}
use creation_of_energy_token.Sdk.Transaction.{
  Argument, object, u8, u64, vector_u8, vector_address, no_bytes, Transaction, call, transfer,
}

abbrev pub gas_budget_standard : ℕ
gas_budget_standard = 10_000_000

abbrev pub gas_budget_zk : ℕ
gas_budget_zk = 50_000_000

pub record Layer2SharedObjects : Type 0 where
  pub device_registry_id : Text
  pub processed_attestations_id : Text
  pub energy_meter_id : Text
  pub oracle_aggregator_id : Text
  pub compliance_registry_id : Text
  pub jurisdiction_blacklist_id : Text
  pub zk_registry_id : Option Text

pub record MintPtbTargets : Type 0 where
  pub oracle_package_id : Text
  pub minting_package_id : Text
  pub batch_receipt_package_id : Text

pub record Attestation : Type 0 where
  pub device_id : List ℕ
  pub kwh_delta : ℤ
  pub timestamp_ms : ℤ
  pub secp256k1_sig : List ℕ

pub record VerifyReadingArgs : Type 0 where
  pub attestation : Attestation
  pub use_zk : Bool
  pub zk_proof : Option (List ℕ)
  pub zk_public_inputs : Option (List ℕ)

-- The registry, where it is given and not the empty text.
unfoldable pub zk_registry : Layer2SharedObjects → Option Text
zk_registry objects = elim objects.zk_registry_id [
  | none ↦ none
  | some id ↦ if is_nonempty id then some id else none
]

-- The registry of the first branch, where `useZk` asks for it.
abbrev pub used_registry : Bool → Option Text → Option Text
used_registry use_zk registry = if use_zk then registry else none

-- The first call, with the registry of its first branch.
unfoldable pub verify_reading :
    Option Text
    → Layer2SharedObjects
    → MintPtbTargets
    → VerifyReadingArgs
    → Transaction
    → Argument × Transaction
unfolding call
verify_reading registry objects targets args tx = elim registry [
  | some registry ↦
      call (targets.oracle_package_id ++ codes "::oracle::verify_reading_with_zk")
        (object objects.device_registry_id
          ∷ object objects.processed_attestations_id
          ∷ object objects.energy_meter_id
          ∷ object registry
          ∷ vector_u8 (or_else args.zk_proof [])
          ∷ vector_u8 (or_else args.zk_public_inputs [])
          ∷ [])
        tx
  | none ↦
      call (targets.oracle_package_id ++ codes "::oracle::verify_reading")
        (object objects.energy_meter_id
          ∷ object objects.device_registry_id
          ∷ object objects.processed_attestations_id
          ∷ vector_u8 args.attestation.device_id
          ∷ u64 args.attestation.kwh_delta
          ∷ u64 args.attestation.timestamp_ms
          ∷ vector_u8 args.attestation.secp256k1_sig
          ∷ [])
        tx
]

-- The commands, with the registry of the first branch.
unfoldable pub mint_commands :
    Option Text
    → Transaction
    → Layer2SharedObjects
    → MintPtbTargets
    → VerifyReadingArgs
    → Text
    → Text
    → Transaction
unfolding verify_reading call transfer
mint_commands registry tx objects targets args treasury_cap_id producer_address =
    let budget = if args.use_zk then gas_budget_zk else gas_budget_standard in
    let kwh = u64 args.attestation.kwh_delta in
    let sig = vector_u8 args.attestation.secp256k1_sig in
    let (reading_proof, tx1) =
      verify_reading registry objects targets args (record tx { gas_budget = some budget }) in
    let (_, tx2) =
      call (targets.oracle_package_id ++ codes "::oracle::assert_producer_for_mint")
        (reading_proof
          ∷ object objects.compliance_registry_id
          ∷ object objects.jurisdiction_blacklist_id
          ∷ object objects.energy_meter_id
          ∷ [])
        tx1 in
    let (minted_coin, tx3) =
      call (targets.minting_package_id ++ codes "::minting_engine::mint_energy")
        (object treasury_cap_id ∷ object objects.energy_meter_id ∷ kwh ∷ sig ∷ []) tx2 in
    let tx4 = transfer (minted_coin ∷ []) producer_address tx3 in
    let (_, tx5) =
      call (targets.batch_receipt_package_id ++ codes "::batch_receipt::issue")
        (object objects.energy_meter_id ∷ kwh ∷ u8 (pos 0) ∷ []) tx4 in
    let (_, tx6) =
      call (targets.oracle_package_id ++ codes "::oracle::finalize_layer2_verification")
        (reading_proof
          ∷ object objects.compliance_registry_id
          ∷ object objects.jurisdiction_blacklist_id
          ∷ object objects.energy_meter_id
          ∷ vector_address []
          ∷ no_bytes
          ∷ [])
        tx5 in
    tx6

unfoldable pub build_mint_ptb :
    Transaction
    → Layer2SharedObjects
    → MintPtbTargets
    → VerifyReadingArgs
    → Text
    → Text
    → Transaction
unfolding mint_commands zk_registry
build_mint_ptb tx objects targets args treasury_cap_id producer_address =
    mint_commands (used_registry args.use_zk (zk_registry objects)) tx objects targets args
      treasury_cap_id producer_address

-- The list, with the registry that is pushed last.
unfoldable pub required_with : Option Text → Layer2SharedObjects → Text → List Text
required_with registry objects treasury_cap_id =
    let ids =
      objects.device_registry_id ∷ objects.processed_attestations_id ∷ objects.energy_meter_id
      ∷ objects.oracle_aggregator_id ∷ objects.compliance_registry_id
      ∷ objects.jurisdiction_blacklist_id ∷ treasury_cap_id ∷ [] in
    elim registry [ none ↦ ids | some id ↦ ids ++ id ∷ [] ]

unfoldable pub list_required_shared_objects : Layer2SharedObjects → Text → List Text
unfolding zk_registry required_with
list_required_shared_objects objects treasury_cap_id =
    required_with (zk_registry objects) objects treasury_cap_id
