-- ===== src/Settlement/DiskAudit/Laws.antt =====
-- The audit file holds what the store in memory holds.
use creation_of_energy_token.Prelude.{
  ◌≡◌, refl, sym, true, false, List, [], ◌∷◌, ◌++◌, append_assoc, append-nil, none, some, Text,
  filter, includes, nat_Eq, All, ◌∙◌,
}
use creation_of_energy_token.Prelude.Strings.{is_nonempty, split_on, split_on-line}
use creation_of_energy_token.Settlement.Types.{done, ◌>>=◌}
use creation_of_energy_token.Settlement.Billing.{
  AuditRecord, AuditStore, append_record, find_by_contract,
}
use creation_of_energy_token.Settlement.DiskAudit.{
  Json, AuditFile, line_end, serialize_record, deserialize_record, append, read_lines, list_records,
  find_on_disk,
}

-- What the code relies on for a record: its JSON text is not empty, has no line end, and is read
-- back, and so is the text of its integer.
pub record IsWritten (json : Json) (r : AuditRecord) : Type 0 where
  pub nonempty : is_nonempty (json.stringify (serialize_record json r)) ≡ true
  pub one_line : includes (json.stringify (serialize_record json r)) line_end ≡ false
  pub parse-stringify :
      json.parse (json.stringify (serialize_record json r)) ≡ done (serialize_record json r)
  pub big_int-text : json.big_int (json.bigint_text r.gas_used) ≡ done r.gas_used

-- Records appended one after the other, to the file and to the store in memory.
abbrev pub append_to_file : Json → List AuditRecord → AuditFile → AuditFile
append_to_file json [] file = file
append_to_file json (r ∷ rs) file = append_to_file json rs (append json r file)

abbrev pub append_to_store : List AuditRecord → AuditStore → AuditStore
append_to_store [] store = store
append_to_store (r ∷ rs) store = append_to_store rs (append_record r store)

-- The text of a file that holds the records.
abbrev text_of : Json → List AuditRecord → Text
unfolding serialize_record
text_of json [] = []
text_of json (r ∷ rs) = json.stringify (serialize_record json r) ++ line_end ∷ text_of json rs

module _ (json : Json) where
  deserialize-serialize :
      (r : AuditRecord)
      → IsWritten json r
      → deserialize_record json (serialize_record json r) ≡ done r
  unfolding deserialize_record serialize_record
  deserialize-serialize r h = rw h.big_int-text refl

  -- The line of a record is read back as the record.
  read_lines-record :
      (r : AuditRecord) (lines : List Text)
      → IsWritten json r
      → read_lines json (filter is_nonempty (json.stringify (serialize_record json r) ∷ lines))
        ≡ (do rs ← read_lines json (filter is_nonempty lines); done (r ∷ rs))
  unfolding read_lines
  read_lines-record r lines h =
      rw (filter, h.nonempty, h.parse-stringify, deserialize-serialize r h) refl

  read_lines-text_of :
      (rs : List AuditRecord)
      → All (IsWritten json) rs
      → read_lines json (filter is_nonempty (split_on line_end (text_of json rs))) ≡ done rs
  unfolding read_lines split_on text_of
  read_lines-text_of [] h = refl
  read_lines-text_of (r ∷ rs) (written, h) =
      let line =
        split_on-line line_end (json.stringify (serialize_record json r)) (text_of json rs)
          written.one_line in
      rw
        (
          text_of,
          line,
          read_lines-record r (split_on line_end (text_of json rs)) written,
          read_lines-text_of rs h,
        )
        refl

  append_to_store-eq-append : (rs store : List AuditRecord) → append_to_store rs store ≡ store ++ rs
  unfolding append_record
  append_to_store-eq-append [] store = sym (append-nil store)
  append_to_store-eq-append (r ∷ rs) store =
      append_to_store-eq-append rs (store ++ r ∷ []) ∙ append_assoc store (r ∷ []) rs

  text_of-append :
      (r : AuditRecord) (rs : List AuditRecord)
      → text_of json (rs ++ r ∷ [])
        ≡ text_of json rs ++ (json.stringify (serialize_record json r) ++ line_end ∷ [])
  unfolding text_of
  text_of-append r [] = refl
  text_of-append r (q ∷ rs) = rw (text_of-append r rs) (
      sym (
        append_assoc (json.stringify (serialize_record json q)) (line_end ∷ text_of json rs)
          (json.stringify (serialize_record json r) ++ line_end ∷ [])))

  append-text_of :
      (r : AuditRecord) (rs : List AuditRecord)
      → append json r (some (text_of json rs)) ≡ some (text_of json (append_record r rs))
  unfolding append append_record text_of
  append-text_of r rs = rw (text_of-append r rs) refl

  append_to_file-text_of :
      (rs store : List AuditRecord)
      → append_to_file json rs (some (text_of json store))
        ≡ some (text_of json (append_to_store rs store))
  append_to_file-text_of [] store = refl
  append_to_file-text_of (r ∷ rs) store =
      rw (append-text_of r store) (append_to_file-text_of rs (append_record r store))

  -- When each of the records is written as a line that is read back, and they are appended to a
  -- store on disk that begins without a file, that store lists what the store in memory would
  -- hold, in the same order, and finds the same for every contract.
  pub list_records-append :
      (rs : List AuditRecord) (contract_id : Text)
      → All (IsWritten json) rs
      → (list_records json (append_to_file json rs none) ≡ done (append_to_store rs []))
        × (find_on_disk json contract_id (append_to_file json rs none)
            ≡ done (find_by_contract contract_id (append_to_store rs [])))
  unfolding list_records find_on_disk find_by_contract append append_record text_of
  list_records-append [] contract_id h = (refl, refl)
  list_records-append (r ∷ rs) contract_id h =
      let file = append_to_file-text_of rs (r ∷ []) in
      let stored = append_to_store-eq-append rs (r ∷ []) in
      let read = read_lines-text_of (r ∷ rs) h in rw (file, stored, read) (refl, refl)
