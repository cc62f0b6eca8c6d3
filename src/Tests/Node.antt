-- ===== src/Tests/Node.antt =====
-- The file .env, the archive on disk and the indexer at concrete inputs.
use creation_of_energy_token.Prelude.{
  subst, ◌≡◌, refl, [], ◌∷◌, ◌++◌, Option, none, some, Text, text_Eq, ◌===◌, codes, arith, ℕ, take,
  if◌then◌else◌, List, ap, sym, ◌∙◌, drop, length, ◌+◌,
}
use creation_of_energy_token.Prelude.Equality.{text_eq}
use creation_of_energy_token.Prelude.Strings.{Env}
use creation_of_energy_token.Settlement.Types.{Attempt, done, threw}
use creation_of_energy_token.Settlement.DotEnv.{apply_dot_env_file, load_repo_root_dot_env}
use creation_of_energy_token.Settlement.DotEnv.Laws.{
  text_of, first_of, or_set, apply_dot_env_file-text_of, load_repo_root_dot_env-keeps,
}
use creation_of_energy_token.Settlement.Archive.{Hashes, archived}
use creation_of_energy_token.Settlement.Stores.{
  Disk, proof_file, report_file, read_cid, report_on_disk, safe_name,
}
use creation_of_energy_token.Settlement.Stores.Laws.{
  archive_all_on_disk, archive_all, archive_all-refines, report_on_disk-get, IsStored,
}
use creation_of_energy_token.Settlement.Indexer.{
  PollEvent, ticked, answered, poll_step, Cursor, SuiEvent, Page, Query, handle_all,
}
use creation_of_energy_token.Settlement.Indexer.Laws.{IsPaged, next_of, UpTo, polls, polls-UpTo}
use creation_of_energy_token.Settlement.Indexer.Overlap.{
  IsAnswer, Covers, run_events, run_events-Covers,
}
use creation_of_energy_token.Tests.Site.{test_result}

abbrev port_only : Env
port_only name = if name === codes "PORT" then some (codes "1") else none

-- A name twice, and one that is set before; a value has a space and a sign.
abbrev assignments : List (Text × Text)
assignments = (codes "A", codes " x = #") ∷ (codes "PORT", codes "2") ∷ (codes "A", codes "y") ∷ []

apply_dot_env_file-text_of_example :
    apply_dot_env_file (text_of assignments) port_only (codes "A")
    ≡ or_set (port_only (codes "A")) (first_of assignments (codes "A"))
apply_dot_env_file-text_of_example =
    apply_dot_env_file-text_of assignments port_only (codes "A")
      ((refl, refl), ((refl, refl), ((refl, refl), tt)))

port_is_set : port_only (codes "PORT") ≡ some (codes "1")
unfolding text_eq
port_is_set = refl

load_repo_root_dot_env-keeps_example :
    load_repo_root_dot_env
      (λ dir. some (codes "PORT=3"))
      (λ dir. codes "/")
      (codes "/")
      port_only
      (codes "PORT")
    ≡ some (codes "1")
load_repo_root_dot_env-keeps_example =
    load_repo_root_dot_env-keeps (λ dir. some (codes "PORT=3")) (λ dir. codes "/") (codes "/")
      port_only (codes "PORT") port_is_set

-- A file's text is the CID that it stores.
abbrev test_disk : Disk
test_disk = record {
  join = λ dir name. dir ++ codes "/" ++ name;
  stringify = λ stored. stored.cid;
  parse = λ text. done (record {
    cid = text;
    ipfs_cid = none;
    key = test_result.execution_id;
    tx_hash = some test_result.tx_hash;
  });
  hash = λ t. t;
}

abbrev report_disk : Disk
report_disk = record {
  join = λ dir name. dir ++ codes "/" ++ name;
  stringify = λ stored. stored.cid;
  parse = λ text.
      done (record { cid = text; ipfs_cid = none; key = test_result.contract_id; tx_hash = none });
  hash = λ t. t;
}

abbrev test_hashes : Hashes
test_hashes = record { proof_cid = λ r. r.execution_id; report_cid = λ r now. codes "g" }

archive_all-refines_example :
    read_cid test_disk
      (proof_file test_disk (codes "data") (codes "0xab"))
      (archive_all_on_disk test_disk test_hashes (codes "data") (test_result ∷ test_result ∷ []) [])
    ≡ done (
        archived
          (codes "0xab")
          (archive_all test_disk test_hashes (codes "data") (test_result ∷ test_result ∷ []) []))
archive_all-refines_example =
    archive_all-refines test_disk test_hashes (codes "data") (codes "0xab")
      (test_result ∷ test_result ∷ []) (stored, (stored, tt))
  where
    stored : IsStored test_disk test_hashes (codes "data") (codes "0xab") test_result
    stored = record { parse-stringify = refl; own_file = λ e. refl }

report_on_disk-get_example :
    let after = (report_on_disk report_disk test_hashes (codes "data") test_result 5 []).1 in
    (safe_name test_result.contract_id ≡ safe_name (codes "?")
      → read_cid report_disk (report_file report_disk (codes "data") (codes "?")) after
        ≡ done (some (test_hashes.report_cid test_result 5)))
    × ((report_file report_disk (codes "data") test_result.contract_id
            ≡ report_file report_disk (codes "data") (codes "?")
          → ⊥)
        → read_cid report_disk (report_file report_disk (codes "data") (codes "?")) after
          ≡ read_cid report_disk (report_file report_disk (codes "data") (codes "?")) [])
report_on_disk-get_example =
    report_on_disk-get report_disk test_hashes (codes "data") test_result 5 [] (codes "?") refl

-- The event of the log, which the node gives once.
abbrev test_event : SuiEvent
test_event = record { tx_digest = codes "t"; timestamp_ms = some 7; parsed = none }

abbrev test_position : Option Cursor → ℕ
test_position none = 0
test_position (some c) = 1

abbrev test_cursor : Cursor
test_cursor = record { tx_digest = codes "t"; event_seq = codes "0" }

-- The page of an answer.
abbrev page_in : Attempt Page → Page
page_in (done page) = page
page_in (threw e) = record { events = []; next_cursor = none }

page_of : {x y : Page} → done x ≡ done y → x ≡ y
page_of e = ap page_in e

abbrev test_query : Query
test_query none = done (record { events = test_event ∷ []; next_cursor = some test_cursor })
test_query (some c) = done (record { events = []; next_cursor = none })

test-events :
    (c : Option Cursor) (page : Page)
    → test_query c ≡ done page
    → page.events ≡ take 50 (drop (test_position c) (test_event ∷ []))
test-events none page e = ap (λ p. p.events) (sym (page_of e))
test-events (some c) page e = ap (λ p. p.events) (sym (page_of e))

test-moved :
    (c : Option Cursor) (page : Page)
    → test_query c ≡ done page
    → test_position (next_of c page) ≡ test_position c + length page.events
test-moved none page e =
    let moved = ap (λ p. test_position (next_of none p)) (sym (page_of e)) in
    let events = ap (λ p. length p.events) (page_of e) in omega arith
test-moved (some c) page e =
    ap (λ p. test_position (next_of (some c) p)) (sym (page_of e))
    ∙ ap (λ p. 1 + length p.events) (page_of e)

test-IsPaged : IsPaged (test_event ∷ []) test_position test_query
test-IsPaged = record {
  size = λ c page. 50;
  few = λ c page. omega arith;
  events = test-events;
  moved = test-moved;
}

-- The handler keeps the digests that it saw.
abbrev note_digest : SuiEvent → List Text → List Text
note_digest ev seen = seen ++ ev.tx_digest ∷ []

test-UpTo : UpTo (test_event ∷ []) test_position note_digest [] (none, [])
unfolding handle_all
test-UpTo = refl

polls-UpTo_example :
    UpTo (test_event ∷ []) test_position note_digest [] (
      polls
        (test_event ∷ [])
        test_position
        note_digest
        []
        (test_query ∷ test_query ∷ [])
        (none, []))
polls-UpTo_example =
    polls-UpTo (test_event ∷ []) test_position note_digest [] (test_query ∷ test_query ∷ [])
      (none, []) (test-IsPaged, (test-IsPaged, tt)) test-UpTo

abbrev test_page : Page
test_page = record { events = test_event ∷ []; next_cursor = some test_cursor }

-- Two polls ask before either is answered: both hand over the event, and it is handled twice.
abbrev overlapping_polls : List PollEvent
overlapping_polls = ticked ∷ ticked ∷ answered 0 (done test_page) ∷ answered 0 (done test_page) ∷ []

-- The answer belongs to the poll that was taken out.
abbrev Answers : Option (Option Cursor × List (Option Cursor)) → Type 0
Answers none = Unit {0}
Answers (some (asked, others)) = IsAnswer (test_event ∷ []) test_position asked (done test_page)

first-Answers : Answers (some (none, none ∷ []))
first-Answers = (1, omega arith, refl, refl)

second-Answers : Answers (some (none, []))
second-Answers = (1, omega arith, refl, refl)

run_events-Covers_example :
    let ix =
      run_events
        (test_event ∷ [])
        test_position
        overlapping_polls
        (record { cursor = none; waiting = []; state = [] }) in
    Covers (take (test_position ix.cursor) (test_event ∷ [])) ix.state
unfolding poll_step
run_events-Covers_example =
    run_events-Covers (test_event ∷ []) test_position overlapping_polls none []
      (
        tt,
        (
          tt,
          (
            λ asked others e. subst Answers e first-Answers,
            (λ asked others e. subst Answers e second-Answers, tt),
          ),
        ),
      )
      tt
