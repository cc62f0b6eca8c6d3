-- ===== src/Settlement/Backend/Bodies.antt =====
-- layer5/settlement/src/settlementBackendServer.ts: the bodies of requests. Decoding bytes, parsing
-- JSON and `BigInt` of a text are outside.
use creation_of_energy_token.Prelude.{
  ℕ, ◌+◌, Bool, true, false, not, List, [], ◌∷◌, ◌++◌, Option, none, some, Text, codes, length, ltb,
  if◌then◌else◌,
}
use creation_of_energy_token.Prelude.Int.{ℤ}
use creation_of_energy_token.Prelude.Strings.{trim, is_nonempty, starts_with}
use creation_of_energy_token.Engine.Types.{ExecutionResult}
use creation_of_energy_token.Settlement.Types.{bad_request, Attempt, done, threw, ◌>>=◌}
use creation_of_energy_token.Settlement.PtbClient.{RedemptionPlan}
use creation_of_energy_token.Settlement.Planner.{zero_hex_32}
use creation_of_energy_token.Settlement.Service.{SettlementProcessOptions}

-- An object of JSON by its keys, as the code reads a value: `String(v)`, whether it is neither null
-- nor undefined, `Boolean(v)`, `Number(v)` where that is a natural number, and the texts of an
-- array, or none.
pub record Fields : Type 0 where
  pub shown : Text → Text
  pub present : Text → Bool
  pub truthy : Text → Bool
  pub number : Text → ℕ
  pub texts : Text → List Text

pub record JsonBody : Type 0 where
  pub fields : Fields
  pub options : Fields

abbrev pub no_fields : Fields
no_fields = record {
  shown = λ key. codes "undefined";
  present = λ key. false;
  truthy = λ key. false;
  number = λ key. 0;
  texts = λ key. [];
}

-- `String(f.key ?? d)`, `Number(f.key ?? d)` and `Boolean(f.key ?? d)`
abbrev pub string_or : Fields → Text → Text → Text
string_or f key d = if f.present key then f.shown key else d

abbrev pub number_or : Fields → Text → ℕ → ℕ
number_or f key d = if f.present key then f.number key else d

abbrev pub boolean_or : Fields → Text → Bool → Bool
boolean_or f key d = if f.present key then f.truthy key else d

abbrev pub max_bytes : ℕ
max_bytes = 1_048_576

-- The loop over the chunks, with the size and the bytes so far.
unfoldable pub read_chunks : ℕ → ℕ → List ℕ → List (List ℕ) → Attempt (List ℕ)
read_chunks limit size raw [] = done raw
read_chunks limit size raw (chunk ∷ chunks) =
    let size' = size + length chunk in
    let rest = read_chunks limit size' (raw ++ chunk) chunks in
    if ltb limit size' then threw (bad_request (codes "request body too large")) else rest

unfoldable pub read_json_body :
    (List ℕ → Text) → (Text → Attempt JsonBody) → List (List ℕ) → Attempt JsonBody
unfolding read_chunks trim
read_json_body decode parse_json chunks = do
  bytes ← read_chunks max_bytes 0 [] chunks
  (if is_nonempty (trim (decode bytes))
      then parse_json (decode bytes)
      else done (record { fields = no_fields; options = no_fields }))

module _ (big_int : Text → Attempt ℤ) where
  unfoldable pub parse_redemption_plan : Text → ℕ → Fields → Attempt RedemptionPlan
  unfolding starts_with
  parse_redemption_plan random_id now f =
      let consumer = string_or f (codes "consumer") [] in
      let kwh_or = string_or f (codes "kwhClaim") in
      if not (starts_with (codes "0x") consumer)
      then threw (bad_request (codes "consumer must be 0x address"))
      else (do
        kwh ← big_int (kwh_or (codes "1"))
        coin ← big_int (string_or f (codes "coinBalanceMicro") (kwh_or (codes "1000000")))
        batch ← big_int (string_or f (codes "batchKwh") (kwh_or (codes "1")))
        done (record {
          redemption_id = string_or f (codes "redemptionId") random_id;
          consumer = consumer;
          kwh_claim = kwh;
          coin_balance_micro = coin;
          batch_kwh = batch;
          batch_redeemed = boolean_or f (codes "batchRedeemed") false;
          billing_period_end_ms = number_or f (codes "billingPeriodEndMs") now;
        }))

  unfoldable pub parse_execution_result : Fields → Attempt ExecutionResult
  parse_execution_result f = do
    gas ← big_int (string_or f (codes "gasUsed") (codes "0"))
    done (record {
      contract_id = f.shown (codes "contractId");
      execution_id = f.shown (codes "executionId");
      tx_hash = f.shown (codes "txHash");
      execution_block = number_or f (codes "executionBlock") 0;
      confirmation_block = number_or f (codes "confirmationBlock") 0;
      settled = boolean_or f (codes "settled") true;
      rollback_reason = string_or f (codes "rollbackReason") zero_hex_32;
      proof_ids = f.texts (codes "proofIds");
      regulatory_report_cid = string_or f (codes "regulatoryReportCid") zero_hex_32;
      gas_used = gas;
    })

  -- `f.key != null ? BigInt(String(f.key)) : undefined`
  abbrev pub big_int_if : Fields → Text → Attempt (Option ℤ)
  big_int_if f key =
      if f.present key then (do n ← big_int (f.shown key); done (some n)) else done none

  unfoldable pub parse_options : Fields → Attempt SettlementProcessOptions
  parse_options f = do
    kwh ← big_int_if f (codes "kwhClaim")
    coin ← big_int_if f (codes "coinBalanceMicro")
    batch ← big_int_if f (codes "batchKwh")
    done (record {
      consumer = if f.truthy (codes "consumer") then some (f.shown (codes "consumer")) else none;
      kwh_claim = kwh;
      coin_balance_micro = coin;
      batch_kwh = batch;
      batch_redeemed =
          if f.present (codes "batchRedeemed")
          then some (f.truthy (codes "batchRedeemed"))
          else none;
    })
