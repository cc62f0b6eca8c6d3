-- ===== src/Settlement/BridgeWorker.antt =====
-- layer5/settlement/src/workers: bridgeStateStore.ts and bridgeWatcherWorker.ts. The file of the
-- store holds its rows; without a data directory there is no store.
pub mod Laws
use creation_of_energy_token.Prelude.{
  ℕ, Bool, true, false, not, List, [], ◌∷◌, ◌++◌, Option, none, some, Text, text_Eq, ◌===◌, filter,
  if◌then◌else◌,
}
use creation_of_energy_token.Settlement.Types.{Attempt, done, threw}
use creation_of_energy_token.Settlement.Watcher.{BridgeWatcher, track, poll, confirm}
use creation_of_energy_token.Settlement.Wormhole.{VaaStatus, WormholeBridgeClient}

pub record BridgePendingRow : Type 0 where
  pub bridge_tx_id : Text
  pub emitter_chain : ℕ
  pub emitter_address : Text
  pub sequence : ℕ
  pub started_at : ℕ
  pub alerted : Bool

abbrev pub BridgeStateStore : Type 0
BridgeStateStore = List BridgePendingRow

-- The rows of other transactions.
abbrev pub rows_without : Text → BridgeStateStore → BridgeStateStore
rows_without id rows = filter (λ (r : BridgePendingRow). not (r.bridge_tx_id === id)) rows

unfoldable pub track_row : BridgePendingRow → BridgeStateStore → BridgeStateStore
track_row row rows = rows_without row.bridge_tx_id rows ++ record row { alerted = false } ∷ []

unfoldable pub confirm_row : Text → BridgeStateStore → BridgeStateStore
confirm_row id rows = rows_without id rows

-- The message is only put into the store, where there is one.
unfoldable pub track_bridge_message :
    Text → ℕ → Text → ℕ → ℕ → Option BridgeStateStore → Option BridgeStateStore
unfolding track_row
track_bridge_message id chain address sequence now none = none
track_bridge_message id chain address sequence now (some rows) = some (
    track_row
      (record {
        bridge_tx_id = id;
        emitter_chain = chain;
        emitter_address = address;
        sequence = sequence;
        started_at = now;
        alerted = false;
      })
      rows)

pub record BridgeWorker : Type 0 where
  pub store : Option BridgeStateStore
  pub watcher : BridgeWatcher
  pub wormhole : WormholeBridgeClient

-- The rows of the store, tracked from the time `now`.
unfoldable pub watch_rows : ℕ → BridgeStateStore → BridgeWatcher → BridgeWatcher
unfolding track
watch_rows now [] pending = pending
watch_rows now (row ∷ rows) pending = watch_rows now rows (track row.bridge_tx_id now pending)

unfoldable pub start_worker : ℕ → Option BridgeStateStore → BridgeWorker
unfolding watch_rows
start_worker now store = record {
  store = store;
  watcher = elim store [ none ↦ [] | some rows ↦ watch_rows now rows [] ];
  wormhole = 0;
}

-- The fetch of a row's VAA by the client.
abbrev pub Fetch : Type 0
Fetch = BridgePendingRow → WormholeBridgeClient → Attempt VaaStatus × WormholeBridgeClient

abbrev pub is_signed : Attempt VaaStatus → Bool
is_signed (done vaa) = vaa.signed
is_signed (threw e) = false

-- What the rounds of the inner loop change: the rows, the watcher and the client.
pub record Round : Type 0 where
  pub rows : BridgeStateStore
  pub watcher : BridgeWatcher
  pub wormhole : WormholeBridgeClient

unfoldable pub confirm_if : Bool → Text → Round → Round
unfolding confirm_row confirm
confirm_if signed id s = record s {
  rows = if signed then confirm_row id s.rows else s.rows;
  watcher = if signed then confirm id s.watcher else s.watcher;
}

-- The inner loop, over the rows as they were loaded.
unfoldable pub poll_rows : Fetch → List BridgePendingRow → Round → Round
unfolding confirm_if
poll_rows fetch [] s = s
poll_rows fetch (row ∷ rows) s =
    let (vaa, wormhole) = fetch row s.wormhole in
    poll_rows fetch rows
      (confirm_if (is_signed vaa) row.bridge_tx_id (record s { wormhole = wormhole }))

-- One round of the worker: what it reports as stalled, and its state after it.
unfoldable pub tick : Fetch → ℕ → BridgeWorker → List Text × BridgeWorker
unfolding poll poll_rows
tick fetch now s =
    let (stalled, watcher) = poll now s.watcher in
    elim s.store [
      | none ↦ (stalled, record s { watcher = watcher })
      | some rows ↦
          let after =
            poll_rows fetch rows
              (record { rows = rows; watcher = watcher; wormhole = s.wormhole }) in
          (
            stalled,
            record { store = some after.rows; watcher = after.watcher; wormhole = after.wormhole },
          )
    ]
