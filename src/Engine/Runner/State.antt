-- ===== src/Engine/Runner/State.antt =====
-- layer4/engine/src/pipelineRunner.ts: the runner's configuration and state, what one run reads
-- from outside, and the effects of the body of `run`.
use creation_of_energy_token.Prelude.{
  ℕ, Bool, true, false, List, [], Option, none, some, Text, ◌≡◌, refl, ◌⊎◌, inl, inr, arith,
}
use creation_of_energy_token.Prelude.Int.{ℤ}
use creation_of_energy_token.Engine.Types.{
  ExecutionLaneStatus, LaneStates, all_idle, FailureReport, ExecutionResult, TransactionRequest,
  Exn, error, auth_config_required, Result, ok, err,
}
use creation_of_energy_token.Engine.External.{Network}
use creation_of_energy_token.Engine.Auth.{ThresholdConfig}
use creation_of_energy_token.Engine.SafeAuth.{SafeAuthConfig}
use creation_of_energy_token.Engine.Idempotency.{Guard}
use creation_of_energy_token.Engine.Breaker.{CircuitBreaker, new_breaker}
use creation_of_energy_token.Engine.Nonce.{NonceManager}
use creation_of_energy_token.Engine.Submitter.{SubmitMode, live, safe, Submitter}

-- `safe_executor` is the address of the execution module; `has_account` says whether a wallet
-- client with an account is given. The public client comes with `safe_auth`.
pub record RunnerConfig : Type 0 where
  pub engine_address : Text
  pub chain_id : ℤ
  pub relayer_address : Text
  pub auth : Option ThresholdConfig
  pub safe_auth : Option SafeAuthConfig
  pub submit_mode : SubmitMode
  pub has_account : Bool
  pub safe_executor : Option Text

-- The gate that the constructor chooses.
pub data Gate : Type 0 where
  basic : ThresholdConfig → Gate
  eip712 : SafeAuthConfig → Gate

pub record Setup : Type 0 where
  pub config : RunnerConfig
  pub gate : Gate
  pub submitter : Submitter

-- `sent` and `handed_over` are no fields of the class: they record the transactions given to the
-- wallet and the results given to layer 5, each with the execution's id, in order.
pub record Runner : Type 0 where
  pub status : ExecutionLaneStatus
  pub guard : Guard
  pub breaker : CircuitBreaker
  pub nonces : NonceManager
  pub lane_states : LaneStates
  pub sent : List (Text × TransactionRequest)
  pub handed_over : List ExecutionResult

abbrev pub is_some {ℓ} : {A : Type ℓ} → Option A → Bool
is_some none = false
is_some (some a) = true

abbrev pub net_mode : SubmitMode → SubmitMode
net_mode safe = live
net_mode mode = mode

unfoldable pub choose_gate : RunnerConfig → Result Gate
choose_gate config = elim config.safe_auth [
  | some safe_config ↦ ok (eip712 safe_config)
  | none ↦ elim config.auth [
    | some threshold ↦ ok (basic threshold)
    | none ↦ err (error auth_config_required)
  ]
]

-- The constructor, at the time `now`.
unfoldable pub new_runner : RunnerConfig → ℕ → Result (Setup × Runner)
unfolding choose_gate
new_runner config now = elim (choose_gate config) [
  | err e ↦ err e
  | ok gate ↦ ok (
    record {
      config = config;
      gate = gate;
      submitter = record {
        mode = net_mode config.submit_mode;
        has_account = config.has_account;
        has_public_client = is_some config.safe_auth;
      };
    },
    record {
      status = ExecutionLaneStatus.idle;
      guard = [];
      breaker = new_breaker now;
      nonces = [];
      lane_states = all_idle;
      sent = [];
      handed_over = [];
    },
  )
]

-- What layer 5 answers.
pub record L5Ack : Type 0 where
  pub acknowledged : Bool
  pub proof_ids : List Text
  pub regulatory_report_cid : Text

-- What one run reads from outside: each reading of the clock in milliseconds, the answers of the
-- chain, and layer 5. Nothing is assumed of them.
pub record Outside : Type 0 where
  pub started_at : ℕ
  pub queued_at : ℕ
  pub submitted_at : ℕ
  pub finalized_at : ℕ
  pub attempted_at : ℕ
  pub get_threshold : Result ℕ
  pub get_owners : Result (List Text)
  pub transaction_count : Result ℕ
  pub network : Network
  -- whether the receipt that was waited for says "success"
  pub receipt_success : Result Bool
  pub l5 : ExecutionResult → Result L5Ack

pub record GasArgs : Type 0 where
  pub estimated_gas : ℕ
  pub base_fee : ℕ
  pub priority_fee : ℕ

-- How the body of the `try` block goes on: with a value, by `return this.fail(report)`, or by an
-- exception.
pub data Exit (A : Type 0) : Type 0 where
  done : A → Exit A
  returned : FailureReport → Exit A
  thrown : Exn → Exit A

abbrev pub Action : Type 0 → Type 0
Action A = Runner → Exit A × Runner

infixl 5 ◌>>=◌ ◌>>◌
abbrev pub ◌>>=◌ : {A B : Type 0} → Action A → (A → Action B) → Action B
◌>>=◌ m f s =
    let (r, s') = m s in
    elim r [ done a ↦ f a s' | returned report ↦ (returned report, s') | thrown e ↦ (thrown e, s') ]

abbrev pub ◌>>◌ : {B : Type 0} → Action (Unit {0}) → Action B → Action B
m >> k = m >>= λ _. k

abbrev pub of_result : {A : Type 0} → Result A → Exit A
of_result (ok a) = done a
of_result (err e) = thrown e

abbrev pub lift : {A : Type 0} → Result A → Action A
lift r s = (of_result r, s)

abbrev pub pure : {A : Type 0} → A → Action A
pure a s = (done a, s)

abbrev pub modify : (Runner → Runner) → Action (Unit {0})
modify f s = (done tt, f s)

abbrev pub gets : {A : Type 0} → (Runner → A) → Action A
gets f s = (done (f s), s)

abbrev pub report_if : Bool → FailureReport → Action (Unit {0})
report_if b report s = (elim b [ true ↦ returned report | false ↦ done tt ], s)

abbrev pub report_some : Option FailureReport → Action (Unit {0})
report_some none s = (done tt, s)
report_some (some report) s = (returned report, s)

abbrev pub is_done : {A : Type 0} → Exit A → Bool
is_done (done a) = true
is_done _ = false

pub Exit-cases : {A : Type 0} (r : Exit A) → ((a : A) × (r ≡ done a)) ⊎ (is_done r ≡ false)
Exit-cases (done a) = inl (a, refl)
Exit-cases (returned report) = inr refl
Exit-cases (thrown e) = inr refl

-- The three ways through a bind, for proofs where the first action stays shut.
module _ {A B : Type 0} (m : Action A) (k : A → Action B) (s : Runner) where
  pub >>=-done : {a : A} → (m s).0 ≡ done a → (m >>= k) s ≡ k a (m s).1
  >>=-done h = ground arith

  pub >>=-stopped :
      is_done (m s).0 ≡ false → (is_done ((m >>= k) s).0 ≡ false) × (((m >>= k) s).1 ≡ (m s).1)
  >>=-stopped h = ground arith

  pub >>=-thrown : {e : Exn} → (m s).0 ≡ thrown e → (m >>= k) s ≡ (thrown e, (m s).1)
  >>=-thrown h = ground arith
