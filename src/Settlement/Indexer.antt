-- ===== src/Settlement/Indexer.antt =====
-- layer5/settlement/src: observability/suiEventIndexer.ts and workers/eventIndexerWorker.ts. The
-- node's answers to queries are from outside. Handlers of events are taken one after the other. The
-- timer starts a poll whether or not the one before has its answer.
pub mod Laws
pub mod Overlap
use creation_of_energy_token.Prelude.{
  take_out, ℕ, ◌+◌, Bool, true, false, ◌&&◌, List, [], ◌∷◌, ◌++◌, Option, none, some, Text, codes,
  take, if◌then◌else◌, or_else, replicate,
}
use creation_of_energy_token.Prelude.Int.{ℤ, pos}
use creation_of_energy_token.Prelude.Strings.{is_nonempty}
use creation_of_energy_token.Engine.Types.{ExecutionResult}
use creation_of_energy_token.Settlement.Types.{Attempt, done, threw}
use creation_of_energy_token.Settlement.Planner.{Site, zero_hex_32}
use creation_of_energy_token.Settlement.Service.{
  SettlementService, SettlementOutcome, SettlementProcessOptions, ProcessInputs, no_options,
  process,
}
use creation_of_energy_token.Settlement.BridgeWorker.{BridgeStateStore, track_bridge_message}
use creation_of_energy_token.Settlement.Backend.Bodies.{Fields, string_or, number_or}

pub record Cursor : Type 0 where
  pub tx_digest : Text
  pub event_seq : Text

-- `parsed` is the event's JSON, where it has one, with its values as texts.
pub record SuiEvent : Type 0 where
  pub tx_digest : Text
  pub timestamp_ms : Option ℕ
  pub parsed : Option Fields

pub record Page : Type 0 where
  pub events : List SuiEvent
  pub next_cursor : Option Cursor

abbrev pub Query : Type 0
Query = Option Cursor → Attempt Page

module _ {S : Type 0} (handler : SuiEvent → S → S) where
  -- `for (const ev of res.data) handler(ev)`
  unfoldable pub handle_all : List SuiEvent → S → S
  handle_all [] s = s
  handle_all (ev ∷ evs) s = handle_all evs (handler ev s)

  -- After the `await`: a poll that throws is only logged. An answer without a next cursor keeps
  -- the cursor.
  unfoldable pub take_answer : Attempt Page → Option Cursor × S → Option Cursor × S
  unfolding handle_all
  take_answer (threw e) (cursor, s) = (cursor, s)
  take_answer (done page) (cursor, s) =
      (elim page.next_cursor [ none ↦ cursor | some next ↦ some next ], handle_all page.events s)

  -- A poll that no other overlaps.
  unfoldable pub poll_once : Query → Option Cursor × S → Option Cursor × S
  unfolding take_answer
  poll_once query (cursor, s) = take_answer (query cursor) (cursor, s)

-- The indexer with the cursors of the polls that wait for an answer.
pub record Indexing (S : Type 0) : Type 0 where
  pub cursor : Option Cursor
  pub waiting : List (Option Cursor)
  pub state : S

-- The timer starts a poll, or the poll at a position among the waiting ones gets its answer.
pub data PollEvent : Type 0 where
  ticked : PollEvent
  answered : ℕ → Attempt Page → PollEvent

unfoldable pub poll_step : {S : Type 0} → (SuiEvent → S → S) → PollEvent → Indexing S → Indexing S
unfolding take_answer
poll_step handler ticked ix = record ix { waiting = ix.waiting ++ ix.cursor ∷ [] }
poll_step handler (answered n answer) ix = elim (take_out n ix.waiting) [
  | none ↦ ix
  | some (asked, others) ↦
      let (cursor, s) = take_answer handler answer (ix.cursor, ix.state) in
      record { cursor = cursor; waiting = others; state = s }
]

-- A field of the event's JSON, if it has one, or the other text.
abbrev pub field_or : Option Fields → Text → Text → Text
field_or none key d = d
field_or (some f) key d = string_or f key d

pub record MappedExecution : Type 0 where
  pub contract_id : Text
  pub execution_id : Text
  pub tx_hash : Text
  pub confirmation_block : ℕ

unfoldable pub event_to_execution : SuiEvent → Option MappedExecution
event_to_execution ev =
    let redemption_id =
      field_or ev.parsed (codes "redemption_id")
        (field_or ev.parsed (codes "redemptionId") (take 66 ev.tx_digest)) in
    if is_nonempty ev.tx_digest
    then some (record {
      contract_id = field_or ev.parsed (codes "contract_id") redemption_id;
      execution_id = redemption_id;
      tx_hash = ev.tx_digest;
      confirmation_block = or_else ev.timestamp_ms 0;
    })
    else none

-- What the handlers of events change.
pub record Indexed : Type 0 where
  pub service : SettlementService
  pub bridges : Option BridgeStateStore

abbrev pub execution_of : MappedExecution → ExecutionResult
execution_of mapped = record {
  contract_id = mapped.contract_id;
  execution_id = mapped.execution_id;
  tx_hash = mapped.tx_hash;
  execution_block = mapped.confirmation_block;
  confirmation_block = mapped.confirmation_block;
  settled = true;
  rollback_reason = zero_hex_32;
  proof_ids = [];
  regulatory_report_cid = zero_hex_32;
  gas_used = pos 0;
}

-- The message of the bridge that the event tells of, if it does.
unfoldable pub track_event :
    Option Fields → Text → ℕ → Option BridgeStateStore → Option BridgeStateStore
unfolding track_bridge_message
track_event none tx_hash now bridges = bridges
track_event (some f) tx_hash now bridges =
    if f.present (codes "bridge_sequence") && f.truthy (codes "emitter_address")
    then track_bridge_message (codes "wh-" ++ tx_hash) (number_or f (codes "emitter_chain") 21)
        (f.shown (codes "emitter_address")) (f.number (codes "bridge_sequence")) now bridges
    else bridges

-- What one event's handler reads from outside.
pub record EventInputs : Type 0 where
  pub now : ℕ
  pub big_int : Text → Attempt ℤ
  pub processing : ProcessInputs

-- An error of the handler is only logged; the bridge's message is tracked before.
unfoldable pub handle_event : Site → EventInputs → SuiEvent → Indexed → Indexed
unfolding event_to_execution track_event process
handle_event site inputs ev s = elim (event_to_execution ev) [
  | none ↦ s
  | some mapped ↦
      let bridges = track_event ev.parsed mapped.tx_hash inputs.now s.bridges in
      elim (inputs.big_int (field_or ev.parsed (codes "kwh") (codes "1"))) [
        | threw e ↦ record s { bridges = bridges }
        | done kwh ↦
            let consumer =
              field_or ev.parsed (codes "consumer_addr")
                (field_or ev.parsed (codes "consumer") (codes "0x0")) in
            record {
              service =
                  (process site inputs.processing (execution_of mapped)
                    (record no_options { consumer = some consumer; kwh_claim = some kwh })
                    s.service).1;
              bridges = bridges;
            }
      ]
]
