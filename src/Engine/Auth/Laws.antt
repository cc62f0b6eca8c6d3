-- ===== src/Engine/Auth/Laws.antt =====
-- What the count of signatures lets through.
use creation_of_energy_token.Prelude.{
  ◌≤◌, ◌<◌, ◌≡◌, ◌↔◌, List, map, Text, text_Eq, length, take, sym, ap, suc, refl, [], ◌∷◌, arith,
}
use creation_of_energy_token.Prelude.Sets.{
  Distinct, Within, unique, unique-Distinct, includes-unique, Within-self, Within-of_eq,
  length-le_of_Within,
}
use creation_of_energy_token.Engine.Types.{ExecutionRequest, ok}
use creation_of_energy_token.Engine.Auth.{ThresholdConfig, validate}

-- The first 42 characters of the signatures, which stand for their signers.
abbrev pub prefixes : ExecutionRequest → List Text
prefixes request = map (take 42) request.eip712_signatures

length-map-take : (sigs : List Text) → length (map (take 42) sigs) ≡ length sigs
length-map-take [] = refl
length-map-take (s ∷ sigs) = ap suc (length-map-take sigs)

length-unique :
    (request : ExecutionRequest)
    → length (unique (prefixes request)) ≤ length request.eip712_signatures
length-unique request = omega (
  arith,
  length-le_of_Within (prefixes request) (unique (prefixes request))
      (unique-Distinct (prefixes request))
      (Within-of_eq (unique (prefixes request)) (prefixes request) (unique (prefixes request))
        (includes-unique (prefixes request)) (Within-self (unique (prefixes request)))),
  length-map-take request.eip712_signatures,
)

validate_iff_count :
    (threshold : ThresholdConfig) (request : ExecutionRequest) (id : Text)
    → (validate threshold request id ≡ ok tt)
      ↔ ((threshold.m ≤ length (unique (prefixes request))) × (2 < length request.zk_proof.proof))
unfolding validate
validate_iff_count threshold request id = ground (arith, length-unique request)

-- The gate opens exactly when there are `m` different prefixes of 42 characters among the
-- signatures, and a proof beyond "0x".
pub validate_iff :
    (threshold : ThresholdConfig) (request : ExecutionRequest) (id : Text)
    → (validate threshold request id ≡ ok tt) ↔ (
        ((signers : List Text) × Distinct signers
          × Within (prefixes request) signers
          × (threshold.m ≤ length signers))
        × (2 < length request.zk_proof.proof))
validate_iff threshold request id =
    let all : List Text = prefixes request in
    (
      λ accepted.
          let (enough, proof) = (validate_iff_count threshold request id).0 accepted in
          (
            (
              unique all,
              unique-Distinct all,
              Within-of_eq (unique all) all (unique all) (includes-unique all)
                  (Within-self (unique all)),
              enough,
            ),
            proof,
          ),
      λ h.
          let within : Within (unique all) h.0.0 =
            Within-of_eq all (unique all) h.0.0 (λ a. sym (includes-unique all a)) h.0.2 in
          (validate_iff_count threshold request id).1
            (omega (arith, length-le_of_Within (unique all) h.0.0 h.0.1 within), h.1),
    )
