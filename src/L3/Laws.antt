-- ===== src/L3/Laws.antt =====
-- What layer 3's engine lets through, and that its requests pass the gates of layer 4.
use creation_of_energy_token.Prelude.{
  Bool-cases, ltb, ◌<◌, ◌≡◌, refl, inl, inr, Bool, true, false, List, [], ◌∷◌, none, Text, length,
  arith, subst,
}
use creation_of_energy_token.Prelude.Int.{ℤ, ◌≤ℤ◌}
use creation_of_energy_token.Engine.Types.{
  LifecycleState, SuggestedState, ExecutionRequest, ok, err, Exn,
}
use creation_of_energy_token.Engine.External.{Viem}
use creation_of_energy_token.Engine.Handoff.{validate_l3_request}
use creation_of_energy_token.Engine.Handoff.Laws.{bind_handoff-IsAdmissible}
use creation_of_energy_token.L3.{
  L3FsmState, trigger, resolve_arbitration, RequestParams, build_execution_request,
  on_execution_success, on_execution_failure, SuiMintAttestation,
  sui_attestation_to_execution_request, attested_obligation, attested_proof,
}

-- One call of a method that changes the state.
pub data Step : L3FsmState → L3FsmState → Type 0 where
  trigger_ok : (s t : L3FsmState) → trigger s ≡ ok t → Step s t
  trigger_thrown : (s : L3FsmState) (e : Exn) → trigger s ≡ err e → Step s s
  resolved : (s : L3FsmState) (met : Bool) → Step s (resolve_arbitration met s)
  succeeded : (s : L3FsmState) → Step s (on_execution_success s)
  failed : (s : L3FsmState) (suggested : SuggestedState) → Step s (on_execution_failure suggested s)

pub data Reachable : L3FsmState → Type 0 where
  start : Reachable L3FsmState.monitoring
  next : (s t : L3FsmState) → Reachable s → Step s t → Reachable t

IsUsed : L3FsmState → Type 0
IsUsed L3FsmState.draft = ⊥
IsUsed L3FsmState.settlement_pending = ⊥
IsUsed _ = Unit

trigger-IsUsed : (s t : L3FsmState) → trigger s ≡ ok t → IsUsed t
unfolding trigger IsUsed
trigger-IsUsed s L3FsmState.draft h = absurd (ground arith)
trigger-IsUsed s L3FsmState.settlement_pending h = absurd (ground arith)
trigger-IsUsed s L3FsmState.monitoring h = tt
trigger-IsUsed s L3FsmState.triggered h = tt
trigger-IsUsed s L3FsmState.disputing h = tt
trigger-IsUsed s L3FsmState.arbitration_resolved h = tt
trigger-IsUsed s L3FsmState.settled h = tt

Step-IsUsed : (s t : L3FsmState) → IsUsed s → Step s t → IsUsed t
unfolding IsUsed resolve_arbitration on_execution_failure on_execution_success
Step-IsUsed s t u (trigger_ok _ _ h) = trigger-IsUsed s t h
Step-IsUsed s _ u (trigger_thrown _ e h) = u
Step-IsUsed s _ u (resolved _ true) = tt
Step-IsUsed s _ u (resolved _ false) = tt
Step-IsUsed s _ u (succeeded _) = tt
Step-IsUsed s _ u (failed _ SuggestedState.monitoring) = tt
Step-IsUsed s _ u (failed _ SuggestedState.disputing) = tt
Step-IsUsed s _ u (failed _ SuggestedState.arbitration) = tt

Reachable-IsUsed : (s : L3FsmState) → Reachable s → IsUsed s
unfolding IsUsed
Reachable-IsUsed s start = tt
Reachable-IsUsed _ (next s t r step) = Step-IsUsed s t (Reachable-IsUsed s r) step

-- No sequence of calls that begins in MONITORING brings the engine into DRAFT or
-- SETTLEMENT_PENDING.
pub Reachable_lem :
    (s : L3FsmState)
    → Reachable s
    → (s ≡ L3FsmState.draft → ⊥) × (s ≡ L3FsmState.settlement_pending → ⊥)
unfolding IsUsed
Reachable_lem s r =
    (λ e. subst IsUsed e (Reachable-IsUsed s r), λ e. subst IsUsed e (Reachable-IsUsed s r))

-- A request that the engine builds with the default deadline, and with a proof beyond "0x",
-- passes the gates of layer 4 at that time and later.
pub build_execution_request-passes :
    (viem : Viem) (now later : ℤ) (params : RequestParams) (s : L3FsmState)
    (request : ExecutionRequest)
    → build_execution_request viem now params s ≡ ok request
    → params.now_sec ≡ none
    → params.dispute_deadline ≡ none
    → 2 < length params.zk_proof.proof
    → now ≤ℤ later
    → validate_l3_request viem request later ≡ ok none
unfolding build_execution_request
build_execution_request-passes viem now later params s request h n d p l = ground (
  arith,
  bind_handoff-IsAdmissible viem params.contract_id params.obligations params.zk_proof
      params.oracle_snapshot_hash LifecycleState.triggered params.signatures now later
      {request = request},
  bind_handoff-IsAdmissible viem params.contract_id params.obligations params.zk_proof
      params.oracle_snapshot_hash LifecycleState.arbitration_resolved params.signatures now later
      {request = request},
)

attested_proof-long : (att : SuiMintAttestation) → 2 < length (attested_proof att).proof
attested_proof-long att = elim (Bool-cases (ltb 2 (length att.secp256k1_sig))) [
  | inl long ↦ ground arith
  | inr short ↦ ground arith
]

-- The request made of any attestation passes the gates of layer 4 from then on, even where the
-- attestation carries no signature.
pub sui_attestation-passes :
    (viem : Viem) (now later : ℤ) (contract_id : Text) (att : SuiMintAttestation)
    (signatures : List Text) (request : ExecutionRequest)
    → sui_attestation_to_execution_request viem now contract_id att signatures ≡ ok request
    → now ≤ℤ later
    → validate_l3_request viem request later ≡ ok none
unfolding sui_attestation_to_execution_request
sui_attestation-passes viem now later contract_id att signatures request h l =
    bind_handoff-IsAdmissible viem contract_id (attested_obligation att ∷ []) (attested_proof att)
      att.oracle_snapshot_hash LifecycleState.triggered signatures now later {request = request} h
      refl (attested_proof-long att) l
