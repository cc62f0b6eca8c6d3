-- ===== src/Settlement/Wormhole.antt =====
-- layer5/settlement/src/adapters/wormholeBridgeClient.ts. The answer of Wormholescan is from
-- outside.
pub mod Laws
use creation_of_energy_token.Prelude.{
  ℕ, ◌+◌, ◌-◌, Bool, true, false, ◌==◌, List, [], ◌∷◌, ◌++◌, Option, none, some, Text, codes, leb,
  ltb, if◌then◌else◌,
}
use creation_of_energy_token.Settlement.Manifest.{is_truthy}
use creation_of_energy_token.Settlement.Types.{Failure, callee, Attempt, done, threw}

abbrev pub bridge_timelock_ms : ℕ
bridge_timelock_ms = 86_400_000

pub record VaaStatus : Type 0 where
  pub sequence : ℕ
  pub emitted : Bool
  pub signed : Bool
  pub vaa_base64 : Option Text

-- The state of the client is the last sequence number.
abbrev pub WormholeBridgeClient : Type 0
WormholeBridgeClient = ℕ

pub record SequenceCheck : Type 0 where
  pub ok : Bool
  pub stale : Bool

-- The sequence number of the message, of which the transaction id is made.
unfoldable pub publish_message : WormholeBridgeClient → ℕ × WormholeBridgeClient
publish_message last = (last + 1, last + 1)

unfoldable pub check_vaa_sequence : ℕ → WormholeBridgeClient → SequenceCheck × WormholeBridgeClient
check_vaa_sequence incoming last =
    if leb incoming last
    then (record { ok = true; stale = true }, last)
    else (record { ok = true; stale = false }, incoming)

-- `elapsed` is negative where the start lies ahead.
unfoldable pub timelock_remaining_ms : ℕ → ℕ → ℕ
timelock_remaining_ms started_at now =
    if leb (started_at + bridge_timelock_ms) now then 0 else started_at + bridge_timelock_ms - now

-- What Wormholescan answers: its status, whether it is ok, and the text of the VAA.
pub record ScanAnswer : Type 0 where
  pub status : ℕ
  pub ok : Bool
  pub vaa : Option Text
  pub body : Text

unfoldable pub fetch_signed_vaa :
    (ℕ → Attempt ScanAnswer) → ℕ → WormholeBridgeClient → Attempt VaaStatus × WormholeBridgeClient
unfolding check_vaa_sequence
fetch_signed_vaa scan sequence last = elim (scan sequence) [
  | threw e ↦ (threw e, last)
  | done answer ↦
      if answer.status == 404
      then (
        done (record { sequence = sequence; emitted = false; signed = false; vaa_base64 = none }),
        last,
      )
      else if answer.ok
      then (
        done (record {
          sequence = sequence;
          emitted = true;
          signed = is_truthy answer.vaa;
          vaa_base64 = answer.vaa;
        }),
        if is_truthy answer.vaa then (check_vaa_sequence sequence last).1 else last,
      )
      else (threw (callee answer.body), last)
]

-- The failure that names the rule of the time lock.
abbrev pub timelock_active : Failure
timelock_active = callee (codes "Wormhole timelock active")

unfoldable pub await_vaa_with_timelock :
    (ℕ → Attempt ScanAnswer)
    → ℕ
    → ℕ
    → ℕ
    → WormholeBridgeClient
    → Attempt VaaStatus × WormholeBridgeClient
unfolding timelock_remaining_ms fetch_signed_vaa
await_vaa_with_timelock scan sequence started_at now last =
    if ltb 0 (timelock_remaining_ms started_at now)
    then (threw timelock_active, last)
    else fetch_signed_vaa scan sequence last
