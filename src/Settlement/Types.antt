-- ===== src/Settlement/Types.antt =====
-- layer5/settlement/src/constants.ts, and the errors that the parts throw.
use creation_of_energy_token.Prelude.{
  ℕ, ◌-◌, ◌==◌, Bool, true, false, List, Text, length, drop, if◌then◌else◌, ◌≡◌, refl, ◌⊎◌, inl,
  inr,
}
use creation_of_energy_token.Prelude.Int.{ℤ}
use creation_of_energy_token.Engine.Types.{Exn}

abbrev pub kwh_scale : ℕ
kwh_scale = 1_000_000

abbrev pub bps_denom : ℕ
bps_denom = 10_000

abbrev pub price_stale_ms : ℕ
price_stale_ms = 300_000

abbrev pub default_slippage_bps : ℕ
default_slippage_bps = 50

-- The errors, with the values that their messages carry.
pub data SettlementError : Type 0 where
  insufficient_credit : ℤ → ℤ → SettlementError
  burn_mismatch : ℤ → ℤ → SettlementError
  duplicate_redemption_id batch_already_redeemed unknown_trade : Text → SettlementError
  already_claimed : Text → SettlementError
  stale_price slippage_exceeded ineligible_source batch_too_old : SettlementError

pub data Checked (A : Type 0) : Type 0 where
  accepted : A → Checked A
  rejected : SettlementError → Checked A

-- `if (bad) throw e`
abbrev pub reject_if : Bool → SettlementError → Checked (Unit {0})
reject_if b e = elim b [ true ↦ rejected e | false ↦ accepted tt ]

-- `xs.slice(-n)`: `slice(-0)` is the whole array.
abbrev pub slice_last {ℓ} : {A : Type ℓ} → ℕ → List A → List A
slice_last n xs = if n == 0 then xs else drop (length xs - n) xs

-- What an asynchronous part of settlement throws: one of its own errors, or what a callee threw.
pub data Failure : Type 0 where
  settlement : SettlementError → Failure
  missing_env : Text → Failure
  objects_required simulation_failed : Failure
  dry_run_failed : Text → Failure
  invalid_schema : List Text → Failure
  too_many_calls : Failure
  engine : Exn → Failure
  callee : Text → Failure
  bad_request : Text → Failure

pub data Attempt {ℓ} (A : Type ℓ) : Type ℓ where
  done : A → Attempt A
  threw : Failure → Attempt A

pub Attempt-cases {ℓ} :
    {A : Type ℓ} (r : Attempt A) → ((a : A) × (r ≡ done a)) ⊎ ((e : Failure) × (r ≡ threw e))
Attempt-cases (done a) = inl (a, refl)
Attempt-cases (threw e) = inr (e, refl)

infixl 5 ◌>>=◌
abbrev pub ◌>>=◌ : {A B : Type 0} → Attempt A → (A → Attempt B) → Attempt B
r >>= f = elim r [ threw e ↦ threw e | done a ↦ f a ]

abbrev pub is_done {ℓ} : {A : Type ℓ} → Attempt A → Bool
is_done (done a) = true
is_done (threw e) = false
