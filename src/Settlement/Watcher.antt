-- ===== src/Settlement/Watcher.antt =====
-- layer5/settlement/src/bridgeWatcher.ts. Times are in milliseconds; `Date.now()` is `now`.
pub mod Laws
use creation_of_energy_token.Prelude.{
  ℕ, ◌+◌, Bool, true, false, ◌&&◌, not, List, [], ◌∷◌, Text, text_Eq, ltb, if◌then◌else◌,
}
use creation_of_energy_token.Prelude.Dict.{Dict, set, delete}

pub record PendingBridge : Type 0 where
  pub started_at : ℕ
  pub alerted : Bool

abbrev pub BridgeWatcher : Type 0
BridgeWatcher = Dict Text PendingBridge

unfoldable pub track : Text → ℕ → BridgeWatcher → BridgeWatcher
track id now pending = set id (record { started_at = now; alerted = false }) pending

-- Stalled for more than an hour, and not yet reported.
abbrev pub is_stalled : ℕ → PendingBridge → Bool
is_stalled now row = ltb (row.started_at + 3_600_000) now && not row.alerted

unfoldable pub poll : ℕ → BridgeWatcher → List Text × BridgeWatcher
poll now [] = ([], [])
poll now ((id, row) ∷ pending) =
    let (stalled, rest) = poll now pending in
    if is_stalled now row
    then (id ∷ stalled, (id, record row { alerted = true }) ∷ rest)
    else (stalled, (id, row) ∷ rest)

unfoldable pub confirm : Text → BridgeWatcher → BridgeWatcher
confirm id pending = delete id pending
