-- ===== src/L3.antt =====
-- pipeline/src/l3ContractEngine.ts and pipeline/src/suiBridge.ts: layer 3's contract engine, and
-- the request made of an attestation of Sui. `Date.now()` is the argument `now`, in seconds.
pub mod Laws
use creation_of_energy_token.Prelude.{
  ℕ, Bool, true, false, List, [], ◌∷◌, ◌++◌, replicate, Option, none, some, Text, codes, or_else,
  length, ltb, if◌then◌else◌,
}
use creation_of_energy_token.Prelude.Int.{ℤ, pos}
use creation_of_energy_token.Engine.Types.{
  LifecycleState, Obligation, ZkProof, ExecutionRequest, SuggestedState, Result, ok, err, Exn,
  error, Message, invalid_transition, cannot_build_request,
}
use creation_of_energy_token.Engine.External.{Viem}
use creation_of_energy_token.Engine.Handoff.{
  bind_handoff, compute_obligation_hash, default_dispute_deadline,
}
use creation_of_energy_token.Engine.Builder.{one_hash}

pub data L3FsmState : Type 0 where
  draft monitoring triggered disputing arbitration_resolved settlement_pending settled : L3FsmState

-- The state of a new engine.
abbrev pub initial_state : L3FsmState
initial_state = L3FsmState.monitoring

unfoldable pub trigger : L3FsmState → Result L3FsmState
trigger L3FsmState.monitoring = ok L3FsmState.triggered
trigger L3FsmState.arbitration_resolved = ok L3FsmState.triggered
trigger _ = err (error invalid_transition)

unfoldable pub resolve_arbitration : Bool → L3FsmState → L3FsmState
resolve_arbitration met s = if met then L3FsmState.arbitration_resolved else L3FsmState.disputing

-- The parameters of `buildExecutionRequest`.
pub record RequestParams : Type 0 where
  pub contract_id : Text
  pub obligations : List Obligation
  pub zk_proof : ZkProof
  pub oracle_snapshot_hash : Text
  pub signatures : List Text
  pub now_sec : Option ℤ
  pub dispute_deadline : Option ℤ

abbrev pub bind : Viem → LifecycleState → ℤ → RequestParams → Result ExecutionRequest
bind viem state now params =
    bind_handoff viem params.contract_id params.obligations params.zk_proof
      params.oracle_snapshot_hash state
      (or_else params.dispute_deadline (default_dispute_deadline (or_else params.now_sec now)))
      params.signatures

unfoldable pub build_execution_request :
    Viem → ℤ → RequestParams → L3FsmState → Result ExecutionRequest
build_execution_request viem now params L3FsmState.triggered =
    bind viem LifecycleState.triggered now params
build_execution_request viem now params L3FsmState.arbitration_resolved =
    bind viem LifecycleState.arbitration_resolved now params
build_execution_request viem now params _ = err (error cannot_build_request)

unfoldable pub on_execution_success : L3FsmState → L3FsmState
on_execution_success s = L3FsmState.settled

unfoldable pub on_execution_failure : SuggestedState → L3FsmState → L3FsmState
on_execution_failure SuggestedState.monitoring s = L3FsmState.monitoring
on_execution_failure _ s = L3FsmState.disputing

unfoldable pub register_obligation_hash : Viem → List Obligation → Result Text
register_obligation_hash viem obligations = compute_obligation_hash viem obligations

pub record SuiMintAttestation : Type 0 where
  pub meter_id : Text
  pub kwh : ℤ
  pub timestamp_ms : ℤ
  pub producer_address : Text
  pub energy_token_address : Text
  pub oracle_snapshot_hash : Text
  pub secp256k1_sig : Text

-- The bytes of "sui-energy" in hexadecimal, filled up with zeros to 64 digits.
abbrev pub sui_energy_partition : Text
sui_energy_partition = codes "0x" ++ codes "7375692d656e65726779" ++ replicate 44 b'0'

abbrev pub attested_obligation : SuiMintAttestation → Obligation
attested_obligation att = record {
  token = att.energy_token_address;
  partition = sui_energy_partition;
  to = att.producer_address;
  value = att.kwh;
  call_data = codes "0x";
  reversible = true;
}

-- A signature that is missing is replaced by "0x01".
abbrev pub attested_proof : SuiMintAttestation → ZkProof
attested_proof att = record {
  proof = if ltb 2 (length att.secp256k1_sig) then att.secp256k1_sig else codes "0x01";
  input_hash = att.oracle_snapshot_hash;
  output_commitment = one_hash;
}

unfoldable pub sui_attestation_to_execution_request :
    Viem → ℤ → Text → SuiMintAttestation → List Text → Result ExecutionRequest
sui_attestation_to_execution_request viem now contract_id att signatures =
    bind_handoff viem contract_id (attested_obligation att ∷ []) (attested_proof att)
      att.oracle_snapshot_hash LifecycleState.triggered (default_dispute_deadline now) signatures
