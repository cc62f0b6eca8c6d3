-- ===== src/Settlement/Backend.antt =====
-- layer5/settlement/src/settlementBackendServer.ts: the handler of a request, with the decisions of
-- apiSecurity.ts. The orchestrator of the routes for redemptions and that of the service are two
-- objects, as the server makes them; the audit store is the service's. A stream is modelled by
-- what it sends at once; its timers and the headers are left out.
pub mod Bodies
pub mod Laws
use creation_of_energy_token.Prelude.{
  ℕ, Bool, true, false, not, ◌&&◌, ◌||◌, List, [], ◌∷◌, Option, none, some, Text, text_Eq, ◌===◌,
  ◌==◌, codes, or_else, if◌then◌else◌,
}
use creation_of_energy_token.Prelude.Int.{ℤ}
use creation_of_energy_token.Settlement.Types.{Failure, Attempt, done, threw}
use creation_of_energy_token.Settlement.PtbClient.{RedemptionPlan, DryRunResult, dry_run}
use creation_of_energy_token.Settlement.PtbClient
use creation_of_energy_token.Settlement.Planner.{
  Site, PlanInputs, OrchestratorOutcome, SettlementOrchestrator, plan_redemption,
}
use creation_of_energy_token.Settlement.Billing.{AuditStore}
use creation_of_energy_token.Settlement.Service.{
  SettlementService, SettlementOutcome, ProcessInputs, process,
}
use creation_of_energy_token.Settlement.Gates.{World, GateChecklistResult, run_gate_checklist}
use creation_of_energy_token.Settlement.Security.{
  Buckets, Caller, Limits, assert_rate_limit, assert_api_key, is_api_key_required,
  is_public_read_allowed,
}
use creation_of_energy_token.Settlement.BridgeWorker.{BridgeStateStore, track_bridge_message}
use creation_of_energy_token.Settlement.Backend.Bodies.{
  Fields, JsonBody, string_or, number_or, read_json_body, parse_redemption_plan,
  parse_execution_result, parse_options,
}

pub record Backend : Type 0 where
  pub buckets : Buckets
  pub orchestrator : SettlementOrchestrator
  pub service : SettlementService
  pub bridges : Option BridgeStateStore

pub record HttpRequest : Type 0 where
  pub method : Option Text
  pub url : Option Text
  pub caller : Caller
  pub chunks : List (List ℕ)

pub data Reply : Type 0 where
  no_content rate_limit_exceeded unauthorized health tracked not_found : Reply
  records stream : AuditStore → Reply
  checklist : GateChecklistResult → Reply
  dry_run_of : RedemptionPlan → OrchestratorOutcome → DryRunResult → Reply
  submitted : Text → Reply
  processed : SettlementOutcome → Reply
  failed : Failure → Reply

pub record Answer : Type 0 where
  pub status : ℕ
  pub reply : Reply

-- What stays the same for a server; `site` has the environment.
pub record Hosting : Type 0 where
  pub site : Site
  pub world : World
  pub limits : Limits
  pub sha256 : Text → List ℕ
  pub decode : List ℕ → Text
  pub parse_json : Text → Attempt JsonBody
  pub big_int : Text → Attempt ℤ

-- What one request reads from outside: the clock, ids that are made, and what its calls read.
pub record Moment : Type 0 where
  pub now : ℕ
  pub random_id : Text
  pub timed_id : Text
  pub planning : PlanInputs
  pub processing : ProcessInputs

-- `req.url?.split("?")[0] ?? ""`
unfoldable pub before_query : Text → Text
before_query [] = []
before_query (c ∷ s) = let rest = before_query s in if c == b'?' then [] else c ∷ rest

abbrev pub is_write : Text → Bool
is_write method = method === codes "POST" || method === codes "PUT" || method === codes "DELETE"

-- An attempt at an answer, after the state that it leaves.
abbrev pub Handled : Type 0
Handled = Attempt Answer × Backend

abbrev pub answer : ℕ → Reply → Attempt Answer
answer status reply = done (record { status = status; reply = reply })

module _ (host : Hosting) where
  -- `process.env.GATE_CHECK_RPC !== "false"`
  unfoldable pub rpc_asked : Bool
  rpc_asked = elim (host.site.env (codes "GATE_CHECK_RPC")) [
    | none ↦ true
    | some v ↦ not (v === codes "false")
  ]

  -- The routes that read.
  unfoldable pub get_route : Text → Backend → Attempt Answer
  unfolding run_gate_checklist rpc_asked
  get_route path s =
      if path === codes "/health"
      then answer 200 health
      else if path === codes "/audit"
      then answer 200 (records s.service.audit)
      else if path === codes "/audit/stream"
      then answer 200 (stream s.service.audit)
      else if path === codes "/v1/gates" || path === codes "/gates"
      then (elim (run_gate_checklist host.world host.site.env (some rpc_asked)) [
        | threw e ↦ threw e
        | done result ↦ answer (if result.ready then 200 else 503) (checklist result)
      ])
      else answer 404 not_found

  abbrev pub dry_run_answer :
      RedemptionPlan → OrchestratorOutcome → Attempt DryRunResult → Attempt Answer
  dry_run_answer plan outcome (threw e) = threw e
  dry_run_answer plan outcome (done dry) = answer 200 (dry_run_of plan outcome dry)

  abbrev pub submit_answer : Attempt Text → Attempt Answer
  submit_answer (threw e) = threw e
  submit_answer (done digest) = answer 200 (submitted digest)

  abbrev pub process_answer : Attempt SettlementOutcome → Attempt Answer
  process_answer (threw e) = threw e
  process_answer (done outcome) = answer 200 (processed outcome)

  -- The two routes for a redemption plan it first, and go on by `next`.
  unfoldable pub redemption_route :
      (RedemptionPlan → OrchestratorOutcome → Attempt Answer) → Moment → Fields → Backend → Handled
  unfolding parse_redemption_plan plan_redemption
  redemption_route next moment f s =
      elim (parse_redemption_plan host.big_int moment.random_id moment.now f) [
        | threw e ↦ (threw e, s)
        | done plan ↦
            let (planned, orchestrator) =
              plan_redemption host.site moment.planning plan s.orchestrator in
            let s' = record s { orchestrator = orchestrator } in
            elim planned [ threw e ↦ (threw e, s') | done outcome ↦ (next plan outcome, s') ]
      ]

  unfoldable pub dry_run_route : Moment → Fields → Backend → Handled
  unfolding redemption_route dry_run
  dry_run_route moment f s =
      redemption_route
        (λ plan outcome.
          dry_run_answer plan outcome (dry_run host.site.env host.site.config host.site.sui plan))
        moment f s

  unfoldable pub submit_route : Moment → Fields → Backend → Handled
  unfolding redemption_route PtbClient.submit
  submit_route moment f s =
      redemption_route
        (λ plan outcome.
          submit_answer (PtbClient.submit host.site.env host.site.config host.site.sui plan))
        moment f s

  unfoldable pub track_route : Moment → Fields → Backend → Handled
  unfolding track_bridge_message
  track_route moment f s = (
    answer 202 tracked,
    record s {
      bridges =
          track_bridge_message (string_or f (codes "bridgeTxId") moment.timed_id)
            (number_or f (codes "emitterChain") 21) (string_or f (codes "emitterAddress") [])
            (number_or f (codes "sequence") 0) moment.now s.bridges;
    },
  )

  unfoldable pub process_route : Moment → JsonBody → Backend → Handled
  unfolding parse_execution_result parse_options process
  process_route moment body s = elim (parse_execution_result host.big_int body.fields) [
    | threw e ↦ (threw e, s)
    | done result ↦ elim (parse_options host.big_int body.options) [
      | threw e ↦ (threw e, s)
      | done options ↦
          let (outcome, service) = process host.site moment.processing result options s.service in
          (process_answer outcome, record s { service = service })
    ]
  ]

  -- A route reads the body first; when that throws, nothing has changed.
  abbrev pub with_body : List (List ℕ) → (JsonBody → Backend → Handled) → Backend → Handled
  unfolding read_json_body
  with_body chunks route s = elim (read_json_body host.decode host.parse_json chunks) [
    | threw e ↦ (threw e, s)
    | done body ↦ route body s
  ]

  -- The routes that write.
  unfoldable pub post_route : Moment → Text → List (List ℕ) → Backend → Handled
  unfolding dry_run_route submit_route track_route process_route read_json_body
  post_route moment path chunks s =
      if path === codes "/v1/redemption/dry-run"
      then with_body chunks (λ body s. dry_run_route moment body.fields s) s
      else if path === codes "/v1/redemption/submit"
      then with_body chunks (λ body s. submit_route moment body.fields s) s
      else if path === codes "/v1/bridge/track"
      then with_body chunks (λ body s. track_route moment body.fields s) s
      else if path === codes "/v1/settlement/process"
      then with_body chunks (process_route moment) s
      else (answer 404 not_found, s)

  unfoldable pub route : Moment → Text → Text → List (List ℕ) → Backend → Handled
  unfolding get_route post_route
  route moment method path chunks s =
      if method === codes "GET"
      then (get_route path s, s)
      else if method === codes "POST"
      then post_route moment path chunks s
      else (answer 404 not_found, s)

  -- What is thrown is answered with 400.
  abbrev pub caught : Attempt Answer → Answer
  caught (threw e) = record { status = 400; reply = failed e }
  caught (done a) = a

  unfoldable pub needs_auth : Text → Bool
  unfolding is_api_key_required is_public_read_allowed
  needs_auth method =
      is_write method
      || is_api_key_required host.site.env && not (is_public_read_allowed host.site.env)

  unfoldable pub handle : Moment → HttpRequest → Backend → Answer × Backend
  unfolding assert_rate_limit needs_auth assert_api_key route before_query
  handle moment request s =
      let method = or_else request.method (codes "GET") in
      let path = before_query (or_else request.url []) in
      let (passes, buckets) =
        assert_rate_limit host.limits request.caller (is_write method) moment.now s.buckets in
      let s' = record s { buckets = buckets } in
      let refused =
        needs_auth method && not (assert_api_key host.sha256 host.site.env request.caller) in
      let (reply, after) = route moment method path request.chunks s' in
      if method === codes "OPTIONS"
      then (record { status = 204; reply = no_content }, s)
      else if not passes
      then (record { status = 429; reply = rate_limit_exceeded }, s')
      else if refused
      then (record { status = 401; reply = unauthorized }, s')
      else (caught reply, after)
