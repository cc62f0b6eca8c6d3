-- ===== src/Settlement/Backend/Laws.antt =====
-- Who may change the state of the settlement server, and how much of a body it reads.
use creation_of_energy_token.Prelude.{
  ℕ, ◌+◌, ◌≤◌, ◌≡◌, ◌⊎◌, refl, true, false, List, [], ◌∷◌, ◌++◌, some, Text, text_Eq, ◌===◌, ===_ne,
  append-nil, append_assoc, length-append, codes, length, or_else, arith, Bool-cases, inl, inr,
  if◌then◌else◌, ltb,
}
use creation_of_energy_token.Prelude.Equality.{text_eq}
use creation_of_energy_token.Prelude.Strings.{trimmed}
use creation_of_energy_token.Settlement.Types.{done, threw, bad_request}
use creation_of_energy_token.Settlement.Security.{
  provided_key, safe_equal, assert_api_key, assert_rate_limit, is_public_read_allowed,
  is_api_key_required,
}
use creation_of_energy_token.Settlement.Backend.Bodies.{read_chunks}
use creation_of_energy_token.Settlement.Backend.{
  before_query, Backend, HttpRequest, Hosting, Moment, is_write, route, needs_auth, handle,
}

-- The caller's key is not the one of the environment, and its digest tells so.
pub record IsStranger (host : Hosting) (request : HttpRequest) : Type 0 where
  pub expected : Text
  pub is_set : trimmed (host.site.env (codes "SETTLEMENT_API_KEY")) ≡ some expected
  pub no_collision :
      host.sha256 (provided_key request.caller) ≡ host.sha256 expected
      → provided_key request.caller ≡ expected
  pub is_other : provided_key request.caller ≡ expected → ⊥

stranger_refused :
    (host : Hosting) (request : HttpRequest)
    → IsStranger host request
    → assert_api_key host.sha256 host.site.env request.caller ≡ false
unfolding assert_api_key safe_equal
stranger_refused host request h =
    let differ =
      ===_ne (host.sha256 (provided_key request.caller)) (host.sha256 h.expected)
        (λ e. h.is_other (h.no_collision e)) in
    rw (assert_api_key, h.is_set) (ground (arith, differ))

route-keeps :
    (host : Hosting) (moment : Moment) (method path : Text) (chunks : List (List ℕ)) (s : Backend)
    → is_write method ≡ false
    → (route host moment method path chunks s).1 ≡ s
unfolding route
route-keeps host moment method path chunks s h = ground arith

key_required :
    (host : Hosting) (request : HttpRequest)
    → IsStranger host request
    → is_api_key_required host.site.env ≡ true
unfolding is_api_key_required
key_required host request h = rw (is_api_key_required, h.is_set) refl

preflight_reads : (method : Text) → (method === codes "OPTIONS") ≡ true → is_write method ≡ false
unfolding text_eq
preflight_reads method h = rw ((text_Eq.beq_iff method (codes "OPTIONS")).0 h) refl

-- A request of a stranger changes nothing but the buckets of the rate limiter, whatever it asks
-- for. When it writes, or when reading is not public and it is not a preflight, it is answered
-- with 401 or 429.
pub handle-refuses :
    (host : Hosting) (moment : Moment) (request : HttpRequest) (s : Backend)
    → IsStranger host request
    → let method = or_else request.method (codes "GET") in
      let (answer, after) = handle host moment request s in
      (after ≡ record s { buckets = after.buckets })
      × ((is_write method ≡ true)
            ⊎ ((is_public_read_allowed host.site.env ≡ false)
                × ((method === codes "OPTIONS") ≡ false))
          → (answer.status ≡ 401) ⊎ (answer.status ≡ 429))
unfolding handle needs_auth
handle-refuses host moment request s h =
    let refused = stranger_refused host request h in
    let required = key_required host request h in
    let options = preflight_reads (or_else request.method (codes "GET")) in
    let kept =
      route-keeps host moment (or_else request.method (codes "GET"))
        (before_query (or_else request.url [])) request.chunks
        (record s {
          buckets =
              (assert_rate_limit host.limits request.caller
                (is_write (or_else request.method (codes "GET"))) moment.now s.buckets).1;
        }) in
    ground (arith, refused, required, options, kept)

-- The bytes of all chunks.
abbrev pub joined : List (List ℕ) → List ℕ
joined [] = []
joined (chunk ∷ chunks) = chunk ++ joined chunks

-- However a body is split into chunks, reading them gives the bytes read before followed by all of
-- theirs where the size stays within the limit, and throws where it does not, provided the limit
-- has not been exceeded before.
pub read_chunks-joined :
    (limit size : ℕ) (raw : List ℕ) (chunks : List (List ℕ))
    → size ≤ limit
    → read_chunks limit size raw chunks ≡ (
        if ltb limit (size + length (joined chunks))
        then threw (bad_request (codes "request body too large"))
        else done (raw ++ joined chunks))
unfolding read_chunks
read_chunks-joined limit size raw [] h = ground (arith, append-nil raw)
read_chunks-joined limit size raw (chunk ∷ chunks) h =
    elim (Bool-cases (ltb limit (size + length chunk))) [
      | inl over ↦ ground (arith, length-append chunk (joined chunks))
      | inr within ↦
          let rest =
            read_chunks-joined limit (size + length chunk) (raw ++ chunk) chunks (ground arith) in
          ground (
            arith,
            length-append chunk (joined chunks),
            append_assoc raw chunk (joined chunks),
            rest,
          )
    ]
