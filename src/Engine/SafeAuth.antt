-- ===== src/Engine/SafeAuth.antt =====
-- layer4/engine/src/safeAuth.ts: the M-of-N gate over EIP-712 signatures of a Safe's owners.
-- `getThreshold` and `getOwners` are read from the chain: their answers are arguments.
pub mod Laws
use creation_of_energy_token.Prelude.{
  ℕ, ◌+◌, Bool, true, false, ◌&&◌, not, List, [], ◌∷◌, ◌++◌, map, Text, codes, text_Eq, includes,
  length, ltb, leb, if◌then◌else◌,
}
use creation_of_energy_token.Prelude.Int.{ℤ}
use creation_of_energy_token.Engine.Types.{
  ExecutionRequest, Exn, auth_error, Result, ok, err, ◌>>=◌, ◌>>◌, throw_if, safe_threshold_not_met,
  duplicate_signer, zk_proof_invalid, not_a_safe_owner, too_few_unique_owners,
}
use creation_of_energy_token.Engine.External.{Viem, AuthDomain, AuthMessage}

pub record SafeAuthConfig : Type 0 where
  pub chain_id : ℤ
  pub verifying_contract : Text

-- `toLowerCase` on the ASCII text of an address.
unfoldable pub to_lower_case : Text → Text
to_lower_case = map (λ c. if leb b'A' c && leb c b'Z' then c + 32 else c)

unfoldable pub build_execution_auth_message : Text → Text → Text → AuthMessage
build_execution_auth_message contract_id obligation_hash execution_id = record {
  contract_id = contract_id;
  obligation_hash = obligation_hash;
  execution_id = execution_id;
}

unfoldable pub auth_domain : SafeAuthConfig → AuthDomain
auth_domain config = record {
  name = codes "SelfExecutingContract";
  version = codes "1";
  chain_id = config.chain_id;
  verifying_contract = config.verifying_contract;
}

-- The loop over the signatures; `recovered` holds the members of the set, in order.
unfoldable pub collect_signers :
    (Text → Result Text) → List Text → Text → List Text → List Text → Result (List Text)
collect_signers recover owner_set execution_id [] recovered = ok recovered
collect_signers recover owner_set execution_id (sig ∷ sigs) recovered = elim (recover sig) [
  | err e ↦ err e
  | ok signer ↦
      let key = to_lower_case signer in
      elim (includes owner_set key) [
        | false ↦ err (auth_error 1101 (not_a_safe_owner signer) execution_id)
        | true ↦ elim (includes recovered key) [
          | true ↦ err (auth_error 1101 duplicate_signer execution_id)
          | false ↦ collect_signers recover owner_set execution_id sigs (recovered ++ key ∷ [])
        ]
      ]
]

unfoldable pub validate :
    Viem
    → SafeAuthConfig
    → Result ℕ
    → Result (List Text)
    → ExecutionRequest
    → Text
    → Result (Unit {0})
unfolding build_execution_auth_message auth_domain
validate viem config get_threshold get_owners request execution_id = do
  let sigs = request.eip712_signatures
  throw_if (leb (length request.zk_proof.proof) 2) (auth_error 1102 zk_proof_invalid execution_id)
  threshold ← get_threshold
  throw_if (ltb (length sigs) threshold)
      (auth_error 1105 (safe_threshold_not_met (length sigs) threshold) execution_id)
  owners ← get_owners
  let message =
      build_execution_auth_message request.contract_id request.obligation_hash execution_id
  recovered ←
      collect_signers (viem.recover_signer (auth_domain config) message) (map to_lower_case owners)
        execution_id sigs []
  throw_if (ltb (length recovered) threshold)
      (auth_error 1105 (too_few_unique_owners (length recovered) threshold) execution_id)
