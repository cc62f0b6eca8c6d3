-- ===== src/Tests/Client.antt =====
-- The frontend's health check against a server whose gates are not ready.
use creation_of_energy_token.Prelude.Equality.{text_eq}
use creation_of_energy_token.Prelude.Strings.{is_nonempty, trim, trim_start, trim_end, trimmed}
use creation_of_energy_token.Prelude.{
  ◌≡◌, refl, ap, Bool, true, false, [], ◌∷◌, Option, none, some, Text, text_Eq, ◌==◌, codes,
  or_else,
}
use creation_of_energy_token.Prelude.Dict.{get}
use creation_of_energy_token.Settlement.Backend.{Reply, checklist, handle}
use creation_of_energy_token.Frontend.{Reading, SettlementClientConfig, run_pipeline_health_check}
use creation_of_energy_token.Frontend.Serving.{Web, serve, IsDeployed}
use creation_of_energy_token.Frontend.Laws.{IsKept, IsChecked, run_pipeline_health_check-IsChecked}
use creation_of_energy_token.Tests.Server.{test_host, test_moment, test_backend}

-- A checklist is written as a digit that says whether it is ready, and its network.
abbrev digit : Bool → Text → Text
digit true network = b'1' ∷ network
digit false network = b'0' ∷ network

abbrev test_render : Reply → Text
test_render (checklist r) = digit r.ready r.network
test_render _ = []

abbrev test_parse : Text → Option (Bool × Text)
test_parse [] = none
test_parse (c ∷ network) = some (c == b'1', network)

abbrev test_reading : Reading (Bool × Text)
test_reading = record {
  parse = test_parse;
  error_of = λ j. none;
  shown = λ j. codes "[object Object]";
  gates_of = λ j. some (record { ready = some j.0; network = some j.1 });
  record_count = λ j. some 0;
  type_error = codes "t";
}

abbrev test_web : Web (Bool × Text)
test_web = record {
  host = test_host;
  reading = test_reading;
  arrives = λ q. record {
    method = some (or_else q.method (codes "GET"));
    url = some q.url;
    caller = record {
      forwarded_for = none;
      remote_address = some (codes "i");
      api_key = get (codes "X-Settlement-Api-Key") q.headers;
      bearer = none;
    };
    chunks = [];
  };
  render = test_render;
  moment = λ n. test_moment;
}

abbrev test_config : SettlementClientConfig
test_config = record { base_url = codes "/"; api_key = codes "k" }

digit-parse : (b : Bool) (network : Text) → test_parse (digit b network) ≡ some (b, network)
digit-parse true network = refl
digit-parse false network = refl

digit_has_text : (b : Bool) (network : Text) → is_nonempty (digit b network) ≡ true
digit_has_text true network = refl
digit_has_text false network = refl

test-IsDeployed : IsDeployed test_web test_config
test-IsDeployed = record {
  url = λ q path e. ap {A = Text} (λ u. some u) e;
  method = λ q. refl;
  value = λ r. (r.ready, r.network);
  has_text = λ r. digit_has_text r.ready r.network;
  parse-render = λ r. digit-parse r.ready r.network;
  gates_of-value = λ r. refl;
}

run_pipeline_health_check-IsChecked_example :
    let (status, (m, t)) =
      run_pipeline_health_check test_reading (serve test_web) test_config (0, test_backend) in
    IsKept test_backend t × IsChecked test_web test_config test-IsDeployed status
run_pipeline_health_check-IsChecked_example =
    run_pipeline_health_check-IsChecked test_web test_config test-IsDeployed 0 test_backend

-- What the user sees where the gates are not ready.
test-not_ready :
    let (status, state) =
      run_pipeline_health_check test_reading (serve test_web) test_config (0, test_backend) in
    status.last_error ≡ some (codes "[object Object]")
unfolding run_pipeline_health_check handle text_eq trim trim_start trim_end trimmed
test-not_ready = refl
