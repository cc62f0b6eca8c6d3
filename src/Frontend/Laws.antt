-- ===== src/Frontend/Laws.antt =====
-- The frontend's health check against the settlement server.
use creation_of_energy_token.Prelude.{
  ℕ, ◌≡◌, ◌⊎◌, refl, sym, ap, ◌∙◌, inl, inr, true, false, none, some, Text, text_Eq, ◌===◌, codes,
  List, subst, leb, arith, Bool-cases,
}
use creation_of_energy_token.Prelude.Equality.{text_eq}
use creation_of_energy_token.Settlement.Types.{done, Attempt-cases}
use creation_of_energy_token.Settlement.Gates.{GateChecklistResult, run_gate_checklist}
use creation_of_energy_token.Settlement.Backend.{
  Answer, Backend, Hosting, HttpRequest, Moment, checklist, handle, before_query, get_route, caught,
  rpc_asked, route, is_write,
}
use creation_of_energy_token.Frontend.{
  Body, parsed, Outcome, SettlementClientConfig, returned, raised, PipelineStatus,
  run_pipeline_health_check, check_gates, check_audit, request, no_init, read_response,
  fetch_request, Thrown, settlement_api_error, body_of, error_message, with_audit, after_gates,
  after_health, initial_status, message_of, Bool,
}
use creation_of_energy_token.Settlement.Security.{Caller, assert_rate_limit}
use creation_of_energy_token.Frontend.Serving.{Web, serve, response_of, IsDeployed}

route-get :
    (host : Hosting) (moment : Moment) (path : Text) (chunks : List (List ℕ)) (s : Backend)
    → route host moment (codes "GET") path chunks s ≡ (get_route host path s, s)
unfolding route text_eq
route-get host moment path chunks s = refl

-- The limiter's buckets after a request that reads.
abbrev counted : Hosting → Moment → HttpRequest → Backend → Backend
counted host moment q s = record s {
  buckets = (assert_rate_limit host.limits q.caller false moment.now s.buckets).1;
}

get_reads : (is_write (codes "GET") ≡ false) × ((codes "GET" === codes "OPTIONS") ≡ false)
unfolding text_eq
get_reads = (refl, refl)

-- A request that reads: only the rate limiter counts it, and its answer is a refusal or what the
-- route gives.
abbrev IsRead : Hosting → Moment → HttpRequest → Text → Backend → Type 0
IsRead host moment q path s =
    let (answer, after) = handle host moment q s in
    (after ≡ record s { buckets = after.buckets })
    × ((leb 300 answer.status ≡ true)
        ⊎ (answer ≡ caught host (get_route host path (counted host moment q s))))

handle-IsRead :
    (host : Hosting) (moment : Moment) (caller : Caller) (chunks : List (List ℕ)) (path : Text)
    (s : Backend)
    → before_query path ≡ path
    → IsRead host moment
        (record { method = some (codes "GET"); url = some path; caller = caller; chunks = chunks })
        path
        s
unfolding handle
handle-IsRead host moment caller chunks path s plain =
    let q : HttpRequest = record {
      method = some (codes "GET");
      url = some path;
      caller = caller;
      chunks = chunks;
    } in
    let got = route-get host moment path chunks (counted host moment q s) in
    rw (handle, plain, get_reads.0, get_reads.1) (ground (arith, got))

request-IsRead :
    (host : Hosting) (moment : Moment) (q : HttpRequest) (path : Text) (s : Backend)
    → q.method ≡ some (codes "GET")
    → q.url ≡ some path
    → before_query path ≡ path
    → IsRead host moment q path s
request-IsRead host moment q path s method url plain =
    subst (λ m. IsRead host moment (record q { method = m }) path s) (sym method)
      (subst (λ u. IsRead host moment (record q { method = some (codes "GET"); url = u }) path s)
        (sym url) (handle-IsRead host moment q.caller q.chunks path s plain))

-- A successful answer to the request for the checklist has one that is ready.
gates-ready :
    (host : Hosting) (s : Backend)
    → let answer = caught host (get_route host (codes "/v1/gates") s) in
      (leb 300 answer.status ≡ true)
      ⊎ ((r : GateChecklistResult) × (run_gate_checklist host.world host.site.env
              (some (rpc_asked host))
            ≡ done r)
          × (r.ready ≡ true)
          × (answer ≡ record { status = 200; reply = checklist r }))
unfolding get_route text_eq
gates-ready host s =
    elim (Attempt-cases (run_gate_checklist host.world host.site.env (some (rpc_asked host)))) [
      | inl (r, e) ↦
          rw (get_route, e)
            (elim (Bool-cases r.ready) [
              | inl ready ↦ inr (r, refl, ready, ground (arith, ready))
              | inr blocked ↦ inl (ground (arith, blocked))
            ])
      | inr (x, e) ↦ rw (get_route, e) (inl refl)
    ]

-- Nothing of the server but the rate limiter's buckets has changed.
abbrev pub IsKept : Backend → Backend → Type 0
IsKept s t = t ≡ record s { buckets = t.buckets }

IsKept-trans : (s t u : Backend) → IsKept s t → IsKept t u → IsKept s u
IsKept-trans s t u first second =
    second ∙ ap {A = Backend} (λ x. record x { buckets = u.buckets }) first

module _ {J : Type 0} (web : Web J) (config : SettlementClientConfig)
    (deployed : IsDeployed web config) where
  abbrev get_from : Text → ℕ × Backend → Outcome (Body J) × (ℕ × Backend)
  get_from path state = request web.reading (serve web) config path no_init state

  refused-raises :
      (answer : Answer)
      → leb 300 answer.status ≡ true
      → (e : Thrown) × (read_response web.reading (response_of web answer) ≡ raised e)
  unfolding read_response
  refused-raises answer h =
      let body = body_of web.reading (web.render answer.reply) in
      (settlement_api_error answer.status (error_message web.reading body), ground (arith, h))

  checklist-returned :
      (r : GateChecklistResult)
      → read_response web.reading (response_of web (record { status = 200; reply = checklist r }))
        ≡ returned (parsed (deployed.value r))
  unfolding read_response
  checklist-returned r = rw (read_response, deployed.has_text r, deployed.parse-render r) refl

  get_from-IsRead :
      (path : Text) (n : ℕ) (s : Backend)
      → before_query path ≡ path
      → IsRead web.host (web.moment n) (web.arrives (fetch_request config path no_init)) path s
  unfolding fetch_request
  get_from-IsRead path n s plain =
      let q = fetch_request config path no_init in
      request-IsRead web.host (web.moment n) (web.arrives q) path s (deployed.method q)
        (deployed.url q path refl) plain

  get_from-IsKept :
      (path : Text) (n : ℕ) (s : Backend)
      → before_query path ≡ path
      → IsKept s (get_from path (n, s)).1.1
  unfolding request
  get_from-IsKept path n s plain = (get_from-IsRead path n s plain).0

  gates-plain : before_query (codes "/v1/gates") ≡ codes "/v1/gates"
  unfolding before_query
  gates-plain = refl

  -- The client's answer to its request for the checklist.
  get_gates :
      (n : ℕ) (s : Backend)
      → let answer = (get_from (codes "/v1/gates") (n, s)).0 in
        ((e : Thrown) × (answer ≡ raised e))
        ⊎ ((r : GateChecklistResult) × (run_gate_checklist web.host.world web.host.site.env
                (some (rpc_asked web.host))
              ≡ done r)
            × (r.ready ≡ true)
            × (answer ≡ returned (parsed (deployed.value r))))
  unfolding request
  get_gates n s =
      let q = web.arrives (fetch_request config (codes "/v1/gates") no_init) in
      let answered : Answer → Outcome (Body J) =
        λ a. read_response web.reading (response_of web a) in
      elim (get_from-IsRead (codes "/v1/gates") n s gates-plain).1 [
        | inl refused ↦ inl (refused-raises (handle web.host (web.moment n) q s).0 refused)
        | inr same ↦
            let t = counted web.host (web.moment n) q s in
            elim (gates-ready web.host t) [
              | inl refused ↦
                  let (e, raises) =
                    refused-raises (caught web.host (get_route web.host (codes "/v1/gates") t))
                      refused in
                  inl (e, ap answered same ∙ raises)
              | inr (r, ran, ready, e) ↦
                  inr (r, ran, ready, ap answered (same ∙ e) ∙ checklist-returned r)
            ]
      ]

  with_audit-keeps :
      (answer : Outcome (Body J)) (status : PipelineStatus J)
      → let after = with_audit web.reading answer status in
        (after.gates_ready ≡ status.gates_ready) × (after.network ≡ status.network)
  unfolding with_audit
  with_audit-keeps (raised e) status = (refl, refl)
  with_audit-keeps (returned body) status = ground arith

  plain_paths :
      (before_query (codes "/audit") ≡ codes "/audit")
      × (before_query (codes "/health") ≡ codes "/health")
  unfolding before_query
  plain_paths = (refl, refl)

  -- The last step leaves what was read of the checklist.
  check_audit-keeps :
      (status : PipelineStatus J) (n : ℕ) (s : Backend)
      → let (after, (m, t)) = check_audit web.reading (serve web) config status (n, s) in
        IsKept s t × (after.gates_ready ≡ status.gates_ready) × (after.network ≡ status.network)
  unfolding check_audit
  check_audit-keeps status n s =
      let path = codes "/audit" in
      let kept = with_audit-keeps (get_from path (n, s)).0 status in
      (get_from-IsKept path n s plain_paths.0, kept.0, kept.1)

  -- What the check has found of the checklist: none, with an error, or one that is ready.
  abbrev pub IsChecked : PipelineStatus J → Type 0
  IsChecked status =
      ((status.gates_ready ≡ none)
        × (status.network ≡ none)
        × (message : Text) × (status.last_error ≡ some message))
      ⊎ ((r : GateChecklistResult) × (run_gate_checklist web.host.world web.host.site.env
              (some (rpc_asked web.host))
            ≡ done r)
          × (r.ready ≡ true)
          × (status.gates_ready ≡ some true)
          × (status.network ≡ some r.network))

  after_gates-IsChecked :
      (answer : Outcome (Body J)) (status : PipelineStatus J) (n : ℕ) (s : Backend)
      → ((e : Thrown) × (answer ≡ raised e))
        ⊎ ((r : GateChecklistResult) × (run_gate_checklist web.host.world web.host.site.env
                (some (rpc_asked web.host))
              ≡ done r)
            × (r.ready ≡ true)
            × (answer ≡ returned (parsed (deployed.value r))))
      → status.gates_ready ≡ none
      → status.network ≡ none
      → let (after, (m, t)) = after_gates web.reading (serve web) config answer status (n, s) in
        IsKept s t × IsChecked after
  unfolding after_gates
  after_gates-IsChecked answer status n s (inl (e, raises)) no_gates no_network =
      rw (raises) (refl, inl (no_gates, no_network, message_of e, refl))
  after_gates-IsChecked answer status n s (inr (r, ran, ready, returns)) no_gates no_network =
      let read : PipelineStatus J = record status {
        gates_ready = some r.ready;
        network = some r.network;
      } in
      let kept = check_audit-keeps read n s in
      rw (returns, after_gates, deployed.gates_of-value r)
        (kept.0, inr (r, ran, ready, kept.1 ∙ ap {A = Bool} (λ b. some b) ready, kept.2))

  check_gates-IsChecked :
      (status : PipelineStatus J) (n : ℕ) (s : Backend)
      → status.gates_ready ≡ none
      → status.network ≡ none
      → let (after, (m, t)) = check_gates web.reading (serve web) config status (n, s) in
        IsKept s t × IsChecked after
  unfolding check_gates
  check_gates-IsChecked status n s no_gates no_network =
      let (answer, (m, t)) = get_from (codes "/v1/gates") (n, s) in
      let (kept, checked) =
        after_gates-IsChecked answer status m t (get_gates n s) no_gates no_network in
      (IsKept-trans s t _ (get_from-IsKept (codes "/v1/gates") n s gates-plain) kept, checked)

  after_health-IsChecked :
      (answer : Outcome (Body J)) (n : ℕ) (s : Backend)
      → let (after, (m, t)) =
          after_health web.reading (serve web) config answer initial_status (n, s) in
        IsKept s t × IsChecked after
  unfolding after_health
  after_health-IsChecked (raised e) n s = (refl, inl (refl, refl, message_of e, refl))
  after_health-IsChecked (returned body) n s =
      check_gates-IsChecked (record initial_status { health = some body }) n s refl refl

  -- The server stands at the client's address and its checklists are read as they were written.
  -- Then the health check changes nothing of the server but the buckets of the rate limiter; and
  -- either it reports an error and has neither read whether the gates are ready nor the network,
  -- or the checklist says that they are ready and the check reports that, with the checklist's
  -- network. It never reports gates that are not ready.
  pub run_pipeline_health_check-IsChecked :
      (n : ℕ) (s : Backend)
      → let (status, (m, t)) = run_pipeline_health_check web.reading (serve web) config (n, s) in
        IsKept s t × IsChecked status
  unfolding run_pipeline_health_check
  run_pipeline_health_check-IsChecked n s =
      let (answer, (m, t)) = get_from (codes "/health") (n, s) in
      let (kept, checked) = after_health-IsChecked answer m t in
      (IsKept-trans s t _ (get_from-IsKept (codes "/health") n s plain_paths.1) kept, checked)
