-- ===== src/Settlement/Billing.antt =====
-- layer5/settlement/src/utilityBillingAdapter.ts, and auditStore.ts. The text of a date and of a
-- bigint are made by the JavaScript runtime: parameters.
pub mod Laws
use creation_of_energy_token.Prelude.{
  ℕ, ◌+◌, ◌-◌, Bool, true, false, List, [], ◌∷◌, ◌++◌, Text, text_Eq, ◌===◌, codes, take, filter,
}
use creation_of_energy_token.Prelude.Int.{ℤ, pos, ◌-ℤ◌}
use creation_of_energy_token.Prelude.Dict.{Dict, set, has}
use creation_of_energy_token.Engine.Types.{ExecutionResult, Result, ok, err}

-- `toISOString` of a time, which throws out of its range, and `${n}` of a bigint.
pub record Formats : Type 0 where
  pub iso_string : ℕ → Result Text
  pub bigint_text : ℤ → Text

pub record CreditNotePayload : Type 0 where
  pub consumer : Text
  pub kwh : ℤ
  pub redemption_id : Text
  pub period_end_ms : ℕ
  pub memo : Text
  pub issued_at : ℕ

-- The input of `issueCreditNote`.
pub record CreditNoteInput : Type 0 where
  pub consumer : Text
  pub kwh : ℤ
  pub redemption_id : Text
  pub period_end_ms : ℕ

abbrev pub UtilityBillingAdapter : Type 0
UtilityBillingAdapter = Dict Text Text

abbrev pub memo_text : Formats → CreditNoteInput → Text → Text
memo_text formats input date =
    codes "Energy token redemption: "
    ++ formats.bigint_text input.kwh
    ++ codes " kWh for period ending "
    ++ date
    ++ codes ". Redemption ID: "
    ++ input.redemption_id

-- The payload, with the text of the period's end.
abbrev pub credit_note : Formats → CreditNoteInput → Text → ℕ → CreditNotePayload
credit_note formats input iso now = record {
  consumer = input.consumer;
  kwh = input.kwh;
  redemption_id = input.redemption_id;
  period_end_ms = input.period_end_ms;
  memo = memo_text formats input (take 10 iso);
  issued_at = now;
}

unfoldable pub issue_credit_note :
    Formats
    → CreditNoteInput
    → ℕ
    → UtilityBillingAdapter
    → Result CreditNotePayload × UtilityBillingAdapter
issue_credit_note formats input now notes = elim (formats.iso_string input.period_end_ms) [
  | err e ↦ (err e, notes)
  | ok iso ↦ (
    ok (credit_note formats input iso now),
    set input.redemption_id (codes "cn-" ++ input.redemption_id) notes,
  )
]

pub record Reconciliation : Type 0 where
  pub matched : ℕ
  pub unmatched : ℕ

-- One burn of the loop; only its redemption id is read.
abbrev pub count_burn : Bool → Reconciliation → Reconciliation
count_burn true r = record r { matched = r.matched + 1 }
count_burn false r = record r { unmatched = r.unmatched + 1 }

unfoldable pub reconcile_from : UtilityBillingAdapter → List Text → Reconciliation → Reconciliation
reconcile_from notes [] r = r
reconcile_from notes (id ∷ burns) r = reconcile_from notes burns (count_burn (has id notes) r)

unfoldable pub reconcile_burns : UtilityBillingAdapter → List Text → Reconciliation
reconcile_burns notes burns = reconcile_from notes burns (record { matched = 0; unmatched = 0 })

pub record AuditRecord : Type 0 where
  pub contract_id : Text
  pub execution_id : Text
  pub tx_hash : Text
  pub archived_at : ℕ
  pub proof_cid : Text
  pub report_cid : Text
  pub gas_used : ℤ
  pub confirmation_depth : ℤ

abbrev pub AuditStore : Type 0
AuditStore = List AuditRecord

unfoldable pub append_record : AuditRecord → AuditStore → AuditStore
append_record r records = records ++ r ∷ []

unfoldable pub find_by_contract : Text → AuditStore → List AuditRecord
find_by_contract contract_id records =
    filter (λ (r : AuditRecord). r.contract_id === contract_id) records

unfoldable pub audit_record_from_result : ExecutionResult → Text → Text → ℕ → AuditRecord
unfolding ◌-ℤ◌
audit_record_from_result result proof_cid report_cid now = record {
  contract_id = result.contract_id;
  execution_id = result.execution_id;
  tx_hash = result.tx_hash;
  archived_at = now;
  proof_cid = proof_cid;
  report_cid = report_cid;
  gas_used = result.gas_used;
  confirmation_depth = pos result.confirmation_block -ℤ pos result.execution_block;
}
