-- ===== src/Engine/Auth.antt =====
-- layer4/engine/src/authGateway.ts: the count of signatures of the simulation mode.
pub mod Laws
use creation_of_energy_token.Prelude.{
  ℕ, Bool, true, false, List, [], ◌∷◌, ◌++◌, map, Text, text_Eq, Eq, includes, length, take, ltb,
  leb,
}
use creation_of_energy_token.Prelude.Sets.{unique}
use creation_of_energy_token.Engine.Types.{
  ExecutionRequest, Exn, auth_error, Result, ◌>>=◌, ◌>>◌, throw_if, threshold_not_met,
  duplicate_signer, zk_proof_invalid,
}

-- `threshold` of the configuration; the list of authorized signers is never read.
pub record ThresholdConfig : Type 0 where
  pub m : ℕ
  pub n : ℕ

unfoldable pub validate : ThresholdConfig → ExecutionRequest → Text → Result (Unit {0})
validate threshold request execution_id = do
  let sigs = request.eip712_signatures
  throw_if (ltb (length sigs) threshold.m)
      (auth_error 1105 (threshold_not_met (length sigs) threshold.m threshold.n) execution_id)
  throw_if (ltb (length (unique (map (take 42) sigs))) threshold.m)
      (auth_error 1101 duplicate_signer execution_id)
  throw_if (leb (length request.zk_proof.proof) 2) (auth_error 1102 zk_proof_invalid execution_id)
