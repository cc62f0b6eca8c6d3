-- ===== src/Settlement/Archive.antt =====
-- layer5/settlement/src: zkProofArchive.ts, regulatoryReporter.ts and eventSchemaValidator.ts. The
-- hash of a JSON text is made by libraries: a parameter.
use creation_of_energy_token.Prelude.{
  ℕ, Bool, true, not, List, [], ◌∷◌, Option, none, some, Text, text_Eq, ◌===◌, codes, includes,
  if◌then◌else◌,
}
use creation_of_energy_token.Prelude.Dict.{Dict, get, set}
use creation_of_energy_token.Engine.Types.{ExecutionResult}

-- The `keccak256` of the JSON text of an execution, and of a report made at a time.
pub record Hashes : Type 0 where
  pub proof_cid : ExecutionResult → Text
  pub report_cid : ExecutionResult → ℕ → Text

abbrev pub ZkProofArchive : Type 0
ZkProofArchive = Dict Text Text

unfoldable pub archive : Hashes → ExecutionResult → ZkProofArchive → Text × ZkProofArchive
unfolding set
archive hashes result store =
    let cid = hashes.proof_cid result in (cid, set result.execution_id cid store)

unfoldable pub archived : Text → ZkProofArchive → Option Text
unfolding get
archived execution_id store = get execution_id store

abbrev pub RegulatoryReporter : Type 0
RegulatoryReporter = Dict Text Text

unfoldable pub generate_report :
    Hashes → ExecutionResult → ℕ → RegulatoryReporter → Text × RegulatoryReporter
unfolding set
generate_report hashes result now reports =
    let cid = hashes.report_cid result now in (cid, set result.contract_id cid reports)

unfoldable pub get_report : Text → RegulatoryReporter → Option Text
unfolding get
get_report contract_id reports = get contract_id reports

abbrev pub required_v1 : List Text
required_v1 =
    codes "event_type"
    ∷ codes "redemption_id"
    ∷ codes "kwh"
    ∷ codes "consumer_addr"
    ∷ codes "producer_addr"
    ∷ codes "timestamp_ms"
    ∷ codes "block_height"
    ∷ []

abbrev pub absent : List Text → List Text → List Text
absent [] keys = []
absent (k ∷ ks) keys = let rest = absent ks keys in if includes keys k then rest else k ∷ rest

-- What the validator reads of a payload: its schema version, where it is a text, and the keys
-- whose value is not undefined.
pub record Payload : Type 0 where
  pub schema_version : Option Text
  pub keys : List Text

pub record SchemaCheck : Type 0 where
  pub valid : Bool
  pub missing : List Text

abbrev pub has_v1 : Option Text → Bool
has_v1 none = Bool.false
has_v1 (some v) = v === codes "v1.0.0"

abbrev pub no_missing : List Text → Bool
no_missing [] = true
no_missing (k ∷ ks) = Bool.false

unfoldable pub validate_settlement_event_v1 : Payload → SchemaCheck
validate_settlement_event_v1 payload =
    if not (has_v1 payload.schema_version)
    then record { valid = Bool.false; missing = codes "schema_version" ∷ [] }
    else (let missing = absent required_v1 payload.keys in
        record { valid = no_missing missing; missing = missing })
