-- ===== src/Engine/Idempotency.antt =====
-- layer4/engine/src/idempotencyGuard.ts. `Date.now()` is the argument `now`.
pub mod Laws
use creation_of_energy_token.Prelude.{
  ℕ, Bool, true, false, Option, none, some, Text, text_Eq, or_else,
}
use creation_of_energy_token.Prelude.Dict.{Dict, get, set}
use creation_of_energy_token.Engine.Types.{
  RecordStatus, submitted, confirming, finalized, Result, ok, err, error, in_flight,
}

pub record ExecutionRecord : Type 0 where
  pub execution_id : Text
  pub status : RecordStatus
  pub tx_hash : Option Text
  pub created_at : ℕ
  pub updated_at : ℕ

abbrev pub Guard : Type 0
Guard = Dict Text ExecutionRecord

unfoldable pub check : Guard → Text → Option ExecutionRecord
check guard execution_id = get execution_id guard

abbrev pub is_in_flight : RecordStatus → Bool
is_in_flight submitted = true
is_in_flight confirming = true
is_in_flight finalized = true
is_in_flight _ = false

unfoldable pub assert_not_in_flight : Guard → Text → Result (Unit {0})
assert_not_in_flight guard execution_id = elim (get execution_id guard) [
  | none ↦ ok tt
  | some existing ↦ elim (is_in_flight existing.status) [
    | true ↦ err (error (in_flight existing.status))
    | false ↦ ok tt
  ]
]

-- `a ?? b` of two values that may be missing.
abbrev pub first_of_two : Option Text → Option Text → Option Text
first_of_two none other = other
first_of_two (some a) other = some a

abbrev pub previous_hash : Option ExecutionRecord → Option Text
previous_hash none = none
previous_hash (some r) = r.tx_hash

abbrev pub previous_created_at : Option ExecutionRecord → ℕ → ℕ
previous_created_at none now = now
previous_created_at (some r) now = r.created_at

-- The entry that `record` stores.
abbrev pub next_record : Guard → Text → RecordStatus → Option Text → ℕ → ExecutionRecord
next_record guard execution_id status tx_hash now = record {
  execution_id = execution_id;
  status = status;
  tx_hash = first_of_two tx_hash (previous_hash (get execution_id guard));
  created_at = previous_created_at (get execution_id guard) now;
  updated_at = now;
}

-- `record` of the source.
unfoldable pub record_status : Guard → Text → RecordStatus → Option Text → ℕ → Guard
record_status guard execution_id status tx_hash now =
    set execution_id (next_record guard execution_id status tx_hash now) guard
