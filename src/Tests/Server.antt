-- ===== src/Tests/Server.antt =====
-- The server and the audit file at concrete inputs.
use creation_of_energy_token.Prelude.{
  ◌≡◌, ◌⊎◌, arith, refl, true, false, [], ◌∷◌, none, some, Text, text_Eq, ◌===◌, codes,
  if◌then◌else◌,
}
use creation_of_energy_token.Prelude.Equality.{text_eq}
use creation_of_energy_token.Prelude.Int.{pos}
use creation_of_energy_token.Prelude.Strings.{trimmed, trim, trim_start, trim_end}
use creation_of_energy_token.Settlement.Types.{done, threw, callee, bad_request}
use creation_of_energy_token.Settlement.Security.{is_public_read_allowed}
use creation_of_energy_token.Settlement.Billing.{AuditRecord, find_by_contract}
use creation_of_energy_token.Settlement.Backend.{
  Backend, HttpRequest, Hosting, Moment, handle, is_write,
}
use creation_of_energy_token.Settlement.Backend.Bodies.{no_fields, read_chunks}
use creation_of_energy_token.Settlement.Backend.Laws.{
  IsStranger, handle-refuses, read_chunks-joined,
}
use creation_of_energy_token.Settlement.DiskAudit.{
  Json, serialize_record, list_records, find_on_disk,
}
use creation_of_energy_token.Settlement.DiskAudit.Laws.{
  IsWritten, append_to_file, append_to_store, list_records-append,
}
use creation_of_energy_token.Pipeline.Full.{new_service}
use creation_of_energy_token.Tests.Site.{test_site, test_inputs, test_planning}

-- The key of the server is "k", and reading is not public.
abbrev pub test_host : Hosting
test_host = record {
  site = record test_site {
    env = λ key. if key === codes "SETTLEMENT_API_KEY" then some (codes "k") else none;
  };
  world = record {
    read_manifest = λ network. threw (callee (codes "m"));
    failure_text = λ e. codes "f";
    ping = λ network. (true, []);
    object_exists = λ id. done true;
  };
  limits = record { read_limit = 60; write_limit = 20 };
  sha256 = λ t. t;
  decode = λ bytes. bytes;
  parse_json = λ t. done (record { fields = no_fields; options = no_fields });
  big_int = λ t. done (pos 1);
}

abbrev pub test_moment : Moment
test_moment = record {
  now = 10;
  random_id = codes "r";
  timed_id = codes "wh-10";
  planning = test_planning;
  processing = test_inputs;
}

abbrev track_request : HttpRequest
track_request = record {
  method = some (codes "POST");
  url = some (codes "/v1/bridge/track?x");
  caller = record {
    forwarded_for = none;
    remote_address = some (codes "i");
    api_key = none;
    bearer = some (codes "j");
  };
  chunks = [];
}

abbrev pub test_backend : Backend
test_backend = record {
  buckets = [];
  orchestrator = new_service.orchestrator;
  service = new_service;
  bridges = some [];
}

test-IsStranger : IsStranger test_host track_request
unfolding text_eq trim trim_start trim_end trimmed
test-IsStranger = record {
  expected = codes "k";
  is_set = refl;
  no_collision = λ e. e;
  is_other = λ e. ground (arith, text_Eq.beq_iff (codes "j") (codes "k"));
}

handle-refuses_example :
    let (answer, after) = handle test_host test_moment track_request test_backend in
    (after ≡ record test_backend { buckets = after.buckets })
    × ((is_write (codes "POST") ≡ true)
          ⊎ ((is_public_read_allowed test_host.site.env ≡ false)
              × ((codes "POST" === codes "OPTIONS") ≡ false))
        → (answer.status ≡ 401) ⊎ (answer.status ≡ 429))
handle-refuses_example =
    handle-refuses test_host test_moment track_request test_backend test-IsStranger

-- Two chunks of two bytes, under a limit of three.
read_chunks-joined_example :
    read_chunks 3 0 [] ((1 ∷ 2 ∷ []) ∷ (3 ∷ 4 ∷ []) ∷ [])
    ≡ threw (bad_request (codes "request body too large"))
read_chunks-joined_example =
    read_chunks-joined 3 0 [] ((1 ∷ 2 ∷ []) ∷ (3 ∷ 4 ∷ []) ∷ []) (omega arith)

abbrev audit_entry : Text → AuditRecord
audit_entry contract_id = record {
  contract_id = contract_id;
  execution_id = codes "e";
  tx_hash = codes "x";
  archived_at = 1;
  proof_cid = codes "p";
  report_cid = codes "q";
  gas_used = pos 1;
  confirmation_depth = pos 12;
}

-- A record is written as its contract's id, which is all in which the two below differ.
abbrev test_json : Json
test_json = record {
  stringify = λ s. s.contract_id;
  parse = λ t. done (record {
    contract_id = t;
    execution_id = codes "e";
    tx_hash = codes "x";
    archived_at = 1;
    proof_cid = codes "p";
    report_cid = codes "q";
    gas_used = codes "1";
    confirmation_depth = pos 12;
  });
  bigint_text = λ n. codes "1";
  big_int = λ t. done (pos 1);
}

entries-IsWritten :
    IsWritten test_json (audit_entry (codes "c")) × IsWritten test_json (audit_entry (codes "d"))
unfolding serialize_record
entries-IsWritten = (
  record { nonempty = refl; one_line = refl; parse-stringify = refl; big_int-text = refl },
  record { nonempty = refl; one_line = refl; parse-stringify = refl; big_int-text = refl },
)

list_records-append_example :
    let rs = audit_entry (codes "c") ∷ audit_entry (codes "d") ∷ [] in
    (list_records test_json (append_to_file test_json rs none) ≡ done (append_to_store rs []))
    × (find_on_disk test_json (codes "d") (append_to_file test_json rs none)
        ≡ done (find_by_contract (codes "d") (append_to_store rs [])))
list_records-append_example =
    list_records-append test_json (audit_entry (codes "c") ∷ audit_entry (codes "d") ∷ [])
      (codes "d") (entries-IsWritten.0, (entries-IsWritten.1, tt))
