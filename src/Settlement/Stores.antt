-- ===== src/Settlement/Stores.antt =====
-- layer5/settlement/src/persistence: the archives of proofs and of reports, on disk and with pins on
-- IPFS, and the choice between them; and ipfs/ipfsPinClient.ts. The files are a map from paths to
-- texts; paths, JSON, hashes and the answers to posts are outside.
pub mod Laws
use creation_of_energy_token.Prelude.{
  ℕ, Bool, true, false, not, ◌&&◌, ◌||◌, List, [], ◌∷◌, ◌++◌, Option, none, some, Text, text_Eq,
  ◌===◌, ◌==◌, codes, or_else, if◌then◌else◌, leb,
}
use creation_of_energy_token.Prelude.Dict.{Dict, get, set}
use creation_of_energy_token.Prelude.Strings.{Env, trim, trimmed, split_on, is_hex, is_nonempty}
use creation_of_energy_token.Engine.Types.{ExecutionResult}
use creation_of_energy_token.Settlement.Types.{Failure, callee, Attempt, done, threw, ◌>>=◌}
use creation_of_energy_token.Settlement.Archive.{Hashes}
use creation_of_energy_token.Settlement.Manifest.{is_truthy}
use creation_of_energy_token.Settlement.Gates.{Provider, kubo, pinata, no_provider, is_enabled}

-- The content of a file of a proof or of a report; what names the execution is only written.
pub record StoredCid : Type 0 where
  pub cid : Text
  pub ipfs_cid : Option Text
  pub key : Text
  pub tx_hash : Option Text

-- `join`, `JSON.stringify`, `JSON.parse`, and `keccak256` of a text.
pub record Disk : Type 0 where
  pub join : Text → Text → Text
  pub stringify : StoredCid → Text
  pub parse : Text → Attempt StoredCid
  pub hash : Text → Text

abbrev pub Files : Type 0
Files = Dict Text Text

pub record IpfsPinResult : Type 0 where
  pub ipfs_cid : Text
  pub content_hash : Text

-- The answer to a post: whether it is ok, and its text; `hash_of` reads the CID from a JSON text.
pub record PinAnswer : Type 0 where
  pub ok : Bool
  pub text : Text
  pub hash_of : Text → Attempt (Option Text)

-- `data` of `SETTLEMENT_DATA_DIR`.
unfoldable pub settlement_data_dir : Env → Option Text
unfolding trimmed
settlement_data_dir env = trimmed (env (codes "SETTLEMENT_DATA_DIR"))

-- The last of the parts, of which there is at least one.
abbrev pub last_part : List Text → Text
last_part [] = codes "{}"
last_part (part ∷ []) = part
last_part (part ∷ next ∷ parts) = last_part (next ∷ parts)

-- `contractId.replace(/[^a-fA-F0-9x]/g, "_")`
abbrev pub is_safe_char : ℕ → Bool
is_safe_char c = is_hex c || c == b'x'

unfoldable pub safe_name : Text → Text
safe_name [] = []
safe_name (c ∷ s) = (if is_safe_char c then c else b'_') ∷ safe_name s

module _ (disk : Disk) where
  abbrev pub content_hash_for_cid : Text → Text
  content_hash_for_cid cid = disk.hash (codes "ipfs://" ++ cid)

  abbrev pub pinned : Text → Option Text → Attempt IpfsPinResult
  pinned missing none = threw (callee missing)
  pinned missing (some cid) =
      if is_nonempty cid
      then done (record { ipfs_cid = cid; content_hash = content_hash_for_cid cid })
      else threw (callee missing)

  unfoldable pub pin_via_kubo : PinAnswer → Attempt IpfsPinResult
  unfolding trim split_on
  pin_via_kubo answer = if not answer.ok then threw (callee (codes "Kubo pin failed")) else (do
    hash ← answer.hash_of (last_part (split_on 10 (trim answer.text)))
    pinned (codes "Kubo response missing Hash") hash)

  unfoldable pub pin_via_pinata : Option Text → PinAnswer → Attempt IpfsPinResult
  pin_via_pinata jwt answer =
      if not (is_truthy jwt)
      then threw (callee (codes "PINATA_JWT required for Pinata IPFS provider"))
      else if not answer.ok
      then threw (callee (codes "Pinata pin failed"))
      else (do
        hash ← answer.hash_of answer.text
        pinned (codes "Pinata response missing IpfsHash") hash)

  unfoldable pub pin_json : Provider → Option Text → PinAnswer → Attempt IpfsPinResult
  unfolding pin_via_kubo pin_via_pinata
  pin_json pinata jwt answer = pin_via_pinata jwt answer
  pin_json kubo jwt answer = pin_via_kubo answer
  pin_json no_provider jwt answer = threw (callee (codes "IPFS not configured"))

  -- Paths of the files of proofs and of reports.
  abbrev pub proof_file : Text → Text → Text
  proof_file root execution_id =
      disk.join (disk.join root (codes "proofs")) (execution_id ++ codes ".json")

  abbrev pub report_file : Text → Text → Text
  report_file root contract_id =
      disk.join (disk.join root (codes "reports")) (safe_name contract_id ++ codes ".json")

  -- `get` and `getReport` of a path: what its file says.
  unfoldable pub read_cid : Text → Files → Attempt (Option Text)
  read_cid path files = elim (get path files) [
    | none ↦ done none
    | some text ↦ (do stored ← disk.parse text; done (some stored.cid))
  ]

  unfoldable pub get_ipfs_cid : Text → Text → Files → Attempt (Option Text)
  get_ipfs_cid root execution_id files = elim (get (proof_file root execution_id) files) [
    | none ↦ done none
    | some text ↦ (do stored ← disk.parse text; done stored.ipfs_cid)
  ]

  abbrev pub write_cid : Text → StoredCid → Files → Files
  write_cid path stored files = set path (disk.stringify stored) files

  -- The two files, with the CID that IPFS gave or without one.
  abbrev pub stored_proof : ExecutionResult → Text → Option Text → StoredCid
  stored_proof result cid ipfs_cid = record {
    cid = cid;
    ipfs_cid = ipfs_cid;
    key = result.execution_id;
    tx_hash = some result.tx_hash;
  }

  abbrev pub stored_report : ExecutionResult → Text → Option Text → StoredCid
  stored_report result cid ipfs_cid = record {
    cid = cid;
    ipfs_cid = ipfs_cid;
    key = result.contract_id;
    tx_hash = none;
  }

  -- `DiskZkProofArchive.archive` and `DiskRegulatoryReporter.generateReport`
  unfoldable pub archive_on_disk : Hashes → Text → ExecutionResult → Files → Text × Files
  archive_on_disk hashes root result files =
      let cid = hashes.proof_cid result in
      (cid, write_cid (proof_file root result.execution_id) (stored_proof result cid none) files)

  unfoldable pub report_on_disk : Hashes → Text → ExecutionResult → ℕ → Files → Text × Files
  report_on_disk hashes root result now files =
      let cid = hashes.report_cid result now in
      (cid, write_cid (report_file root result.contract_id) (stored_report result cid none) files)

  -- What a pin gives to be stored, or without a provider the hash of the payload.
  abbrev pub cid_of : Provider → Attempt IpfsPinResult → Text → Attempt (Text × Option Text)
  cid_of provider pin plain =
      if is_enabled provider
      then (do r ← pin; done (r.content_hash, some r.ipfs_cid))
      else done (plain, none)

  -- `IpfsProofArchive.archive` and `IpfsRegulatoryReporter.generateReport`: the pin is made before
  -- the file is written.
  unfoldable pub archive_on_ipfs :
      Provider
      → Attempt IpfsPinResult
      → Text
      → Text
      → ExecutionResult
      → Files
      → Attempt Text × Files
  archive_on_ipfs provider pin plain root result files = elim (cid_of provider pin plain) [
    | threw e ↦ (threw e, files)
    | done (cid, ipfs_cid) ↦ (
      done cid,
      write_cid (proof_file root result.execution_id) (stored_proof result cid ipfs_cid) files,
    )
  ]

  unfoldable pub report_on_ipfs :
      Provider
      → Attempt IpfsPinResult
      → Text
      → Text
      → ExecutionResult
      → Files
      → Attempt Text × Files
  report_on_ipfs provider pin plain root result files = elim (cid_of provider pin plain) [
    | threw e ↦ (threw e, files)
    | done (cid, ipfs_cid) ↦ (
      done cid,
      write_cid (report_file root result.contract_id) (stored_report result cid ipfs_cid) files,
    )
  ]

-- Which stores `createPersistenceFromEnv` makes; those on disk and on IPFS have a directory.
pub data Persistence : Type 0 where
  in_memory : Persistence
  on_disk on_ipfs : Text → Persistence

unfoldable pub create_persistence_from_env : Env → Provider → Persistence
unfolding settlement_data_dir
create_persistence_from_env env provider = elim (settlement_data_dir env) [
  | none ↦ in_memory
  | some root ↦ if is_enabled provider then on_ipfs root else on_disk root
]
