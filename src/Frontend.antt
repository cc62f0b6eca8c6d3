-- ===== src/Frontend.antt =====
-- frontend/src: api/settlementClient.ts and pipeline/settlementPipeline.ts. `fetch`, the storage,
-- `JSON`, and what the fields of a parsed value are, come from outside.
pub mod Serving
pub mod Laws
use creation_of_energy_token.Prelude.{
  ℕ, Bool, true, false, List, [], ◌∷◌, ◌++◌, Option, none, some, Text, text_Eq, codes, or_else,
  if◌then◌else◌,
}
use creation_of_energy_token.Prelude.Dict.{Dict, set}
use creation_of_energy_token.Prelude.Strings.{Env, trimmed, is_nonempty}
use creation_of_energy_token.Settlement.DotEnv.{last_is, drop_last}

pub record SettlementClientConfig : Type 0 where
  pub base_url : Text
  pub api_key : Text

-- `parse` has no value where `JSON.parse` throws.
unfoldable pub load_client_config :
    (Text → Option SettlementClientConfig) → Option Text → Env → SettlementClientConfig
unfolding trimmed
load_client_config parse stored env =
    let defaults : SettlementClientConfig = record {
      base_url =
          or_else (trimmed (env (codes "VITE_SETTLEMENT_API_URL"))) (codes "/settlement-api");
      api_key = or_else (trimmed (env (codes "VITE_SETTLEMENT_API_KEY"))) [];
    } in
    elim stored [
      | none ↦ defaults
      | some text ↦ if is_nonempty text then or_else (parse text) defaults else defaults
    ]

pub record RequestInit : Type 0 where
  pub method : Option Text
  pub headers : Dict Text Text
  pub body : Option Text

pub record FetchRequest : Type 0 where
  pub url : Text
  pub method : Option Text
  pub headers : Dict Text Text
  pub body : Option Text

pub record Response : Type 0 where
  pub ok : Bool
  pub status : ℕ
  pub text : Text

-- A `SettlementApiError` with its status and message, or what a callee threw, by its message.
pub data Thrown : Type 0 where
  settlement_api_error : ℕ → Text → Thrown
  other : Text → Thrown

abbrev pub message_of : Thrown → Text
message_of (settlement_api_error status message) = message
message_of (other message) = message

pub data Outcome (A : Type 0) : Type 0 where
  returned : A → Outcome A
  raised : Thrown → Outcome A

-- `data`: the empty object, a text that is no JSON, or the parsed value.
pub data Body (J : Type 0) : Type 0 where
  no_text : Body J
  plain : Text → Body J
  parsed : J → Body J

pub record GatesRead : Type 0 where
  pub ready : Option Bool
  pub network : Option Text

-- What the client reads of a parsed value: its field `error`, `String(value)`, the fields of a
-- checklist, and the number of records; reading a field of `null` throws, as does reading the
-- length of records that are missing.
pub record Reading (J : Type 0) : Type 0 where
  pub parse : Text → Option J
  pub error_of : J → Option Text
  pub shown : J → Text
  pub gates_of : J → Option GatesRead
  pub record_count : J → Option ℕ
  pub type_error : Text

-- `baseUrl.replace(/\/$/, "")`
abbrev pub without_slash : Text → Text
without_slash url = if last_is b'/' url then drop_last url else url

abbrev pub set_all : Dict Text Text → Dict Text Text → Dict Text Text
set_all [] headers = headers
set_all ((name, v) ∷ others) headers = set_all others (set name v headers)

-- `fetch` takes place in a state that the client does not see.
abbrev pub Fetch : Type 0 → Type 0
Fetch S = FetchRequest → S → Outcome Response × S

abbrev pub no_init : RequestInit
no_init = record { method = none; headers = []; body = none }

abbrev pub post_init : Text → RequestInit
post_init body = record {
  method = some (codes "POST");
  headers = (codes "Content-Type", codes "application/json") ∷ [];
  body = some body;
}

unfoldable pub fetch_request : SettlementClientConfig → Text → RequestInit → FetchRequest
unfolding set
fetch_request config path init =
    let headers = set_all init.headers ((codes "Accept", codes "application/json") ∷ []) in
    record {
      url = without_slash config.base_url ++ path;
      method = init.method;
      headers =
          if is_nonempty config.api_key
          then set (codes "X-Settlement-Api-Key") config.api_key headers
          else headers;
      body = init.body;
    }

module _ {J : Type 0} (reading : Reading J) where
  unfoldable pub body_of : Text → Body J
  body_of text =
      if is_nonempty text
      then (elim (reading.parse text) [ none ↦ plain text | some j ↦ parsed j ])
      else no_text

  -- The message of the error that such a body makes.
  abbrev pub error_message : Body J → Text
  error_message no_text = codes "[object Object]"
  error_message (plain text) = text
  error_message (parsed j) = or_else (reading.error_of j) (reading.shown j)

  abbrev pub read_gates : Body J → Option GatesRead
  read_gates (parsed j) = reading.gates_of j
  read_gates _ = some (record { ready = none; network = none })

  abbrev pub read_count : Body J → Option ℕ
  read_count (parsed j) = reading.record_count j
  read_count _ = none

  unfoldable pub read_response : Response → Outcome (Body J)
  unfolding body_of
  read_response response =
      let body = body_of response.text in
      if response.ok
      then returned body
      else raised (settlement_api_error response.status (error_message body))

module _ {J : Type 0} (reading : Reading J) {S : Type 0} (fetch : Fetch S)
    (config : SettlementClientConfig) where
  unfoldable pub request : Text → RequestInit → S → Outcome (Body J) × S
  unfolding fetch_request read_response
  request path init s =
      let (answer, t) = fetch (fetch_request config path init) s in
      (elim answer [ raised e ↦ raised e | returned response ↦ read_response reading response ], t)

  abbrev pub redemption_dry_run : Text → S → Outcome (Body J) × S
  redemption_dry_run body s = request (codes "/v1/redemption/dry-run") (post_init body) s

  abbrev pub settlement_process : Text → S → Outcome (Body J) × S
  settlement_process body s = request (codes "/v1/settlement/process") (post_init body) s

pub record PipelineStatus (J : Type 0) : Type 0 where
  pub health : Option (Body J)
  pub gates_ready : Option Bool
  pub network : Option Text
  pub audit_count : ℕ
  pub last_error : Option Text

abbrev pub failed_with : {J : Type 0} → Text → PipelineStatus J → PipelineStatus J
failed_with message status = record status { last_error = some message }

abbrev pub initial_status : {J : Type 0} → PipelineStatus J
initial_status = record {
  health = none;
  gates_ready = none;
  network = none;
  audit_count = 0;
  last_error = none;
}

unfoldable pub with_audit :
    {J : Type 0} → Reading J → Outcome (Body J) → PipelineStatus J → PipelineStatus J
with_audit reading (raised e) status = failed_with (message_of e) status
with_audit reading (returned body) status = elim (read_count reading body) [
  | none ↦ failed_with reading.type_error status
  | some n ↦ record status { audit_count = n }
]

module _ {J : Type 0} (reading : Reading J) {S : Type 0} (fetch : Fetch S)
    (config : SettlementClientConfig) where
  -- The steps of the check, each with the status so far.
  unfoldable pub check_audit : PipelineStatus J → S → PipelineStatus J × S
  unfolding request with_audit
  check_audit status s =
      let (answer, t) = request reading fetch config (codes "/audit") no_init s in
      (with_audit reading answer status, t)

  unfoldable pub after_gates : Outcome (Body J) → PipelineStatus J → S → PipelineStatus J × S
  unfolding check_audit
  after_gates (raised e) status s = (failed_with (message_of e) status, s)
  after_gates (returned body) status s = elim (read_gates reading body) [
    | none ↦ (failed_with reading.type_error status, s)
    | some read ↦ check_audit (record status { gates_ready = read.ready; network = read.network }) s
  ]

  unfoldable pub check_gates : PipelineStatus J → S → PipelineStatus J × S
  unfolding request after_gates
  check_gates status s =
      let (answer, t) = request reading fetch config (codes "/v1/gates") no_init s in
      after_gates answer status t

  unfoldable pub after_health : Outcome (Body J) → PipelineStatus J → S → PipelineStatus J × S
  unfolding check_gates
  after_health (raised e) status s = (failed_with (message_of e) status, s)
  after_health (returned body) status s = check_gates (record status { health = some body }) s

  unfoldable pub run_pipeline_health_check : S → PipelineStatus J × S
  unfolding request after_health
  run_pipeline_health_check s =
      let (answer, t) = request reading fetch config (codes "/health") no_init s in
      after_health answer initial_status t
