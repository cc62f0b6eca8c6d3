-- ===== src/Settlement/DiskAudit.antt =====
-- layer5/settlement/src/persistence/diskAuditStore.ts: the audit trail in a file, of which each
-- line is the JSON text of a record. JSON and the decimal text of a `bigint` are outside.
pub mod Laws
use creation_of_energy_token.Prelude.{
  ℕ, List, [], ◌∷◌, ◌++◌, Option, none, some, Text, text_Eq, ◌===◌, filter, or_else,
}
use creation_of_energy_token.Prelude.Int.{ℤ}
use creation_of_energy_token.Prelude.Strings.{is_nonempty, split_on}
use creation_of_energy_token.Settlement.Types.{Attempt, done, threw, ◌>>=◌}
use creation_of_energy_token.Settlement.Billing.{AuditRecord}

pub record SerializedAudit : Type 0 where
  pub contract_id : Text
  pub execution_id : Text
  pub tx_hash : Text
  pub archived_at : ℕ
  pub proof_cid : Text
  pub report_cid : Text
  pub gas_used : Text
  pub confirmation_depth : ℤ

-- `JSON.stringify`, `JSON.parse`, `n.toString()` and `BigInt(s)`
pub record Json : Type 0 where
  pub stringify : SerializedAudit → Text
  pub parse : Text → Attempt SerializedAudit
  pub bigint_text : ℤ → Text
  pub big_int : Text → Attempt ℤ

-- The audit file, where it exists.
abbrev pub AuditFile : Type 0
AuditFile = Option Text

-- The character that ends a line.
abbrev pub line_end : ℕ
line_end = 10

module _ (json : Json) where
  unfoldable pub serialize_record : AuditRecord → SerializedAudit
  serialize_record r = record {
    contract_id = r.contract_id;
    execution_id = r.execution_id;
    tx_hash = r.tx_hash;
    archived_at = r.archived_at;
    proof_cid = r.proof_cid;
    report_cid = r.report_cid;
    gas_used = json.bigint_text r.gas_used;
    confirmation_depth = r.confirmation_depth;
  }

  unfoldable pub deserialize_record : SerializedAudit → Attempt AuditRecord
  deserialize_record s = do
    gas ← json.big_int s.gas_used
    done (record {
      contract_id = s.contract_id;
      execution_id = s.execution_id;
      tx_hash = s.tx_hash;
      archived_at = s.archived_at;
      proof_cid = s.proof_cid;
      report_cid = s.report_cid;
      gas_used = gas;
      confirmation_depth = s.confirmation_depth;
    })

  unfoldable pub append : AuditRecord → AuditFile → AuditFile
  unfolding serialize_record
  append r file = some (or_else file [] ++ (json.stringify (serialize_record r) ++ line_end ∷ []))

  -- `lines.map(...)`, which stops at the first line that throws
  unfoldable pub read_lines : List Text → Attempt (List AuditRecord)
  unfolding deserialize_record
  read_lines [] = done []
  read_lines (line ∷ lines) = do
    s ← json.parse line
    r ← deserialize_record s
    rs ← read_lines lines
    done (r ∷ rs)

  unfoldable pub list_records : AuditFile → Attempt (List AuditRecord)
  unfolding read_lines split_on
  list_records none = done []
  list_records (some text) = read_lines (filter is_nonempty (split_on line_end text))

  unfoldable pub find_on_disk : Text → AuditFile → Attempt (List AuditRecord)
  unfolding list_records
  find_on_disk contract_id file = do
    rs ← list_records file
    done (filter (λ (r : AuditRecord). r.contract_id === contract_id) rs)
