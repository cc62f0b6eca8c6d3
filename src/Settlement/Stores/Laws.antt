-- ===== src/Settlement/Stores/Laws.antt =====
-- The archive of proofs on disk holds what the one in memory holds, and which reports share a file.
use creation_of_energy_token.Prelude.{
  ℕ, ◌≡◌, refl, sym, ap, ◌∙◌, subst, List, [], ◌∷◌, ◌++◌, none, some, Text, text_Eq, ◌===◌, All,
  arith, Bool-cases, inl, inr, codes,
}
use creation_of_energy_token.Prelude.Dict.{get, set, get-set_self, get-set_ne}
use creation_of_energy_token.Engine.Types.{ExecutionResult}
use creation_of_energy_token.Settlement.Types.{done}
use creation_of_energy_token.Settlement.Archive.{Hashes, ZkProofArchive, archive, archived}
use creation_of_energy_token.Settlement.Stores.{
  StoredCid, Disk, Files, proof_file, report_file, safe_name, read_cid, write_cid, stored_proof,
  stored_report, archive_on_disk, report_on_disk,
}

-- A file that was written, and the others.
module _ (disk : Disk) (path : Text) (stored : StoredCid) (files : Files) where
  read-write_self :
      disk.parse (disk.stringify stored) ≡ done stored
      → read_cid disk path (write_cid disk path stored files) ≡ done (some stored.cid)
  unfolding read_cid
  read-write_self h = rw (read_cid, get-set_self path (disk.stringify stored) files, h) refl

  read-write_ne :
      (other : Text)
      → (path ≡ other → ⊥)
      → read_cid disk other (write_cid disk path stored files) ≡ read_cid disk other files
  unfolding read_cid
  read-write_ne other ne =
      rw (read_cid, get-set_ne path other (disk.stringify stored) files ne) refl

module _ (disk : Disk) (hashes : Hashes) (root : Text) where
  -- Results archived one after the other, on disk and in memory.
  abbrev pub archive_all_on_disk : List ExecutionResult → Files → Files
  archive_all_on_disk [] files = files
  archive_all_on_disk (r ∷ rs) files =
      archive_all_on_disk rs (archive_on_disk disk hashes root r files).1

  abbrev pub archive_all : List ExecutionResult → ZkProofArchive → ZkProofArchive
  archive_all [] store = store
  archive_all (r ∷ rs) store = archive_all rs (archive hashes r store).1

  -- What is relied on for a result, at an execution's id: what was written is read back, and no
  -- other execution has the file.
  pub record IsStored (x : Text) (r : ExecutionResult) : Type 0 where
    pub parse-stringify :
        disk.parse (disk.stringify (stored_proof disk r (hashes.proof_cid r) none))
        ≡ done (stored_proof disk r (hashes.proof_cid r) none)
    pub own_file : proof_file disk root r.execution_id ≡ proof_file disk root x → r.execution_id ≡ x

  archive-step :
      (x : Text) (r : ExecutionResult) (files : Files) (store : ZkProofArchive)
      → IsStored x r
      → read_cid disk (proof_file disk root x) files ≡ done (archived x store)
      → read_cid disk (proof_file disk root x) (archive_on_disk disk hashes root r files).1
        ≡ done (archived x (archive hashes r store).1)
  unfolding archive_on_disk archive archived
  archive-step x r files store h same =
      let cid = hashes.proof_cid r in
      let path = proof_file disk root r.execution_id in
      let stored = stored_proof disk r cid none in
      elim (Bool-cases (r.execution_id === x)) [
        | inl e ↦
            subst
              (λ y.
                read_cid disk (proof_file disk root y) (write_cid disk path stored files)
                ≡ done (get y (set r.execution_id cid store)))
              ((text_Eq.beq_iff r.execution_id x).0 e)
              (read-write_self disk path stored files h.parse-stringify
                ∙ ap (λ o. done o) (sym (get-set_self r.execution_id cid store)))
        | inr e ↦
            let ne : r.execution_id ≡ x → ⊥ =
              λ k. ground (arith, text_Eq.beq_iff r.execution_id x) in
            read-write_ne disk path stored files (proof_file disk root x) (λ k. ne (h.own_file k))
            ∙ same
            ∙ ap (λ o. done o) (sym (get-set_ne r.execution_id x cid store ne))
      ]

  archive_all-from :
      (x : Text) (rs : List ExecutionResult) (files : Files) (store : ZkProofArchive)
      → All (IsStored x) rs
      → read_cid disk (proof_file disk root x) files ≡ done (archived x store)
      → read_cid disk (proof_file disk root x) (archive_all_on_disk rs files)
        ≡ done (archived x (archive_all rs store))
  archive_all-from x [] files store h same = same
  archive_all-from x (r ∷ rs) files store (stored, h) same =
      archive_all-from x rs (archive_on_disk disk hashes root r files).1 (archive hashes r store).1
        h (archive-step x r files store stored same)

  -- Whatever results are archived, the archive on disk, which begins without files, gives for an
  -- execution what the one in memory gives, if each record that is written is read back and no
  -- other execution's file has the path of this one's.
  pub archive_all-refines :
      (x : Text) (rs : List ExecutionResult)
      → All (IsStored x) rs
      → read_cid disk (proof_file disk root x) (archive_all_on_disk rs [])
        ≡ done (archived x (archive_all rs []))
  unfolding read_cid archived get
  archive_all-refines x rs h = archive_all-from x rs [] [] h refl

  -- A report is found under every contract id whose safe name is that of its own contract, also
  -- under those of other contracts; what is found under an id with another file stays.
  pub report_on_disk-get :
      (r : ExecutionResult) (now : ℕ) (files : Files) (contract_id : Text)
      → disk.parse (disk.stringify (stored_report disk r (hashes.report_cid r now) none))
        ≡ done (stored_report disk r (hashes.report_cid r now) none)
      → let after = (report_on_disk disk hashes root r now files).1 in
        (safe_name r.contract_id ≡ safe_name contract_id
          → read_cid disk (report_file disk root contract_id) after
            ≡ done (some (hashes.report_cid r now)))
        × ((report_file disk root r.contract_id ≡ report_file disk root contract_id → ⊥)
            → read_cid disk (report_file disk root contract_id) after
              ≡ read_cid disk (report_file disk root contract_id) files)
  unfolding report_on_disk
  report_on_disk-get r now files contract_id h =
      let path = report_file disk root r.contract_id in
      let stored = stored_report disk r (hashes.report_cid r now) none in
      (
        λ same.
            subst
              (λ name.
                read_cid disk (disk.join (disk.join root (codes "reports")) (name ++ codes ".json"))
                  (write_cid disk path stored files)
                ≡ done (some (hashes.report_cid r now)))
              same (read-write_self disk path stored files h),
        λ differ. read-write_ne disk path stored files (report_file disk root contract_id) differ,
      )
