-- ===== src/Tests/Decoding.antt =====
-- A calldata codec that knows one call, for the theorem on built transactions.
use creation_of_energy_token.Prelude.{
  if◌then◌else◌, Bool-cases, inl, inr, sym, ap, ◌==◌, ◌≡◌, refl, Bool, true, false, ◌&&◌, not, List,
  [], ◌∷◌, Option, none, some, Text, text_Eq, text_eq_iff, ◌===◌, codes, arith,
}
use creation_of_energy_token.Prelude.Equality.{text_eq}
use creation_of_energy_token.Prelude.Int.{pos, ◌==ℤ◌}
use creation_of_energy_token.Engine.Types.{
  Obligation, ZkProof, TransactionRequest, ok, err, error, external,
}
use creation_of_energy_token.Engine.External.{Viem, BatchCall, RequestTuple}
use creation_of_energy_token.Engine.Builder.{
  BuildParams, built, build_execute_batch_tx, request_tuple, bare_tx,
}
use creation_of_energy_token.Engine.Builder.Laws.{IsCanonical, build_execute_batch_tx-decodes}
use creation_of_energy_token.Tests.Data.{test_viem, test_request}

abbrev hex_id : Text
hex_id = codes "0x0a"

abbrev hex_obligation : Obligation
hex_obligation = record {
  token = codes "0x06";
  partition = codes "0x07";
  to = codes "0x08";
  value = pos 5;
  call_data = codes "0x";
  reversible = true;
}

abbrev known_call : BatchCall
known_call = record {
  contract_id = hex_id;
  request = record {
    contract_id = hex_id;
    current_state = 2;
    obligation_hash = codes "0x01";
    oracle_snapshot_hash = codes "0x02";
    zk_proof = record {
      proof = codes "0x03";
      input_hash = codes "0x04";
      output_commitment = codes "0x05";
    };
    dispute_deadline = pos 0;
    active_challenge = false;
    obligations = hex_obligation ∷ [];
  };
  batch_id = codes "0x09";
}

is_known_obligation : Obligation → Bool
is_known_obligation o =
    o.token === codes "0x06"
    && o.partition === codes "0x07"
    && o.to === codes "0x08"
    && o.value ==ℤ pos 5
    && o.call_data === codes "0x"
    && o.reversible

is_known_obligations : List Obligation → Bool
is_known_obligations (o ∷ []) = is_known_obligation o
is_known_obligations _ = false

is_known_proof : ZkProof → Bool
is_known_proof p =
    p.proof === codes "0x03"
    && p.input_hash === codes "0x04"
    && p.output_commitment === codes "0x05"

is_known_request : RequestTuple → Bool
is_known_request r =
    r.contract_id === hex_id
    && r.current_state == 2
    && r.obligation_hash === codes "0x01"
    && r.oracle_snapshot_hash === codes "0x02"
    && is_known_proof r.zk_proof
    && r.dispute_deadline ==ℤ pos 0
    && not r.active_challenge
    && is_known_obligations r.obligations

is_known : BatchCall → Bool
is_known call =
    call.contract_id === hex_id && is_known_request call.request && call.batch_id === codes "0x09"

known_obligation : (o : Obligation) → is_known_obligation o ≡ true → o ≡ hex_obligation
unfolding is_known_obligation
known_obligation o h = ground (
  arith,
  text_eq_iff o.token (codes "0x06"),
  text_eq_iff o.partition (codes "0x07"),
  text_eq_iff o.to (codes "0x08"),
  text_eq_iff o.call_data (codes "0x"),
)

known_obligations :
    (os : List Obligation) → is_known_obligations os ≡ true → os ≡ hex_obligation ∷ []
unfolding is_known_obligations
known_obligations [] h = absurd (ground arith)
known_obligations (o ∷ []) h = λ i. known_obligation o h i ∷ []
known_obligations (o ∷ p ∷ os) h = absurd (ground arith)

known_proof : (p : ZkProof) → is_known_proof p ≡ true → p ≡ known_call.request.zk_proof
unfolding is_known_proof
known_proof p h = ground (
  arith,
  text_eq_iff p.proof (codes "0x03"),
  text_eq_iff p.input_hash (codes "0x04"),
  text_eq_iff p.output_commitment (codes "0x05"),
)

known_request : (r : RequestTuple) → is_known_request r ≡ true → r ≡ known_call.request
unfolding is_known_request
known_request r h = ground (
  arith,
  text_eq_iff r.contract_id hex_id,
  text_eq_iff r.obligation_hash (codes "0x01"),
  text_eq_iff r.oracle_snapshot_hash (codes "0x02"),
  known_proof r.zk_proof,
  known_obligations r.obligations,
)

known : (call : BatchCall) → is_known call ≡ true → call ≡ known_call
unfolding is_known
known call h = ground (
  arith,
  text_eq_iff call.contract_id hex_id,
  text_eq_iff call.batch_id (codes "0x09"),
  known_request call.request,
)

-- Only the known call is encoded, as its batch id.
abbrev coding_viem : Viem
coding_viem = record test_viem {
  encode_execute_batch =
      λ call. if is_known call then ok (codes "0x09") else err (error (external []));
}

decode : Text → Option BatchCall
decode call_data = some known_call

decode-encode :
    (call : BatchCall) (call_data : Text)
    → IsCanonical call
    → coding_viem.encode_execute_batch call ≡ ok call_data
    → decode call_data ≡ some call
unfolding decode
decode-encode call call_data canonical h = elim (Bool-cases (is_known call)) [
  | inl same ↦ sym (ap some (known call same))
  | inr differ ↦ absurd (ground arith)
]

abbrev known_params : BuildParams
known_params = record {
  engine_address = codes "e";
  chain_id = pos 42_161;
  contract_id = none;
  request = record test_request {
    contract_id = hex_id;
    obligation_hash = codes "0x01";
    oracle_snapshot_hash = codes "0x02";
    zk_proof = known_call.request.zk_proof;
    obligations = hex_obligation ∷ [];
  };
  batch_id = codes "0x09";
  nonce = 4;
}

test-built :
    build_execute_batch_tx coding_viem known_params
    ≡ ok (built (bare_tx (codes "e") (codes "0x09") 4 (pos 42_161)))
unfolding build_execute_batch_tx request_tuple is_known is_known_request is_known_proof
    is_known_obligations is_known_obligation text_eq
test-built = refl

known-IsCanonical : IsCanonical known_call
known-IsCanonical = (refl, refl, refl, refl, refl, refl, refl, refl, ((refl, refl, refl, refl), tt))

build_execute_batch_tx-decodes_example :
    let tx : TransactionRequest = bare_tx (codes "e") (codes "0x09") 4 (pos 42_161) in
    (tx.to ≡ codes "e")
    × (tx.value ≡ pos 0)
    × (tx.nonce ≡ 4)
    × (decode (codes "0x09") ≡ some known_call)
build_execute_batch_tx-decodes_example =
    build_execute_batch_tx-decodes coding_viem decode decode-encode known_params
      (bare_tx (codes "e") (codes "0x09") 4 (pos 42_161)) known-IsCanonical test-built
