-- ===== src/Frontend/Serving.antt =====
-- The settlement server of settlementBackendServer.ts as what the frontend's `fetch` reaches.
use creation_of_energy_token.Prelude.{
  ℕ, suc, ◌≡◌, true, ◌&&◌, some, Text, ◌++◌, codes, or_else, leb, ltb,
}
use creation_of_energy_token.Prelude.Strings.{is_nonempty}
use creation_of_energy_token.Settlement.Gates.{GateChecklistResult}
use creation_of_energy_token.Settlement.Backend.{
  Answer, Backend, Hosting, HttpRequest, Moment, Reply, checklist, handle,
}
use creation_of_energy_token.Frontend.{
  Fetch, FetchRequest, Reading, Response, SettlementClientConfig, returned, without_slash,
}

-- The web between the two: how a request arrives, what a reply's text is, and what the server
-- reads from outside at each request.
pub record Web (J : Type 0) : Type 0 where
  pub host : Hosting
  pub reading : Reading J
  pub arrives : FetchRequest → HttpRequest
  pub render : Reply → Text
  pub moment : ℕ → Moment

abbrev pub response_of : {J : Type 0} → Web J → Answer → Response
response_of web answer = record {
  ok = leb 200 answer.status && ltb answer.status 300;
  status = answer.status;
  text = web.render answer.reply;
}

-- The state is the number of requests so far, and the server's.
abbrev pub serve : {J : Type 0} → Web J → Fetch (ℕ × Backend)
serve web q (n, s) =
    let (answer, t) = handle web.host (web.moment n) (web.arrives q) s in
    (returned (response_of web answer), (suc n, t))

-- The server stands at the client's address, and a checklist is read as it was written.
pub record IsDeployed {J : Type 0} (web : Web J) (config : SettlementClientConfig) : Type 0 where
  pub url :
      (q : FetchRequest) (path : Text)
      → q.url ≡ without_slash config.base_url ++ path
      → (web.arrives q).url ≡ some path
  pub method : (q : FetchRequest) → (web.arrives q).method ≡ some (or_else q.method (codes "GET"))
  pub value : GateChecklistResult → J
  pub has_text : (r : GateChecklistResult) → is_nonempty (web.render (checklist r)) ≡ true
  pub parse-render :
      (r : GateChecklistResult) → web.reading.parse (web.render (checklist r)) ≡ some (value r)
  pub gates_of-value :
      (r : GateChecklistResult)
      → web.reading.gates_of (value r)
        ≡ some (record { ready = some r.ready; network = some r.network })
