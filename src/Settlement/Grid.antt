-- ===== src/Settlement/Grid.antt =====
-- layer5/settlement/src/adapters/gridOperatorClient.ts. The answer of the ERP to a post is from
-- outside; the abort after 15 seconds is one of the ways in which a post fails.
pub mod Laws
use creation_of_energy_token.Prelude.{
  take_out, ℕ, zero, suc, Bool, true, false, List, [], ◌∷◌, ◌++◌, Option, none, some, Text, text_Eq,
  codes, take, or_else, if◌then◌else◌,
}
use creation_of_energy_token.Prelude.Int.{ℤ}
use creation_of_energy_token.Prelude.Dict.{Dict, get, set}

pub record ErpCreditNotePayload : Type 0 where
  pub consumer : Text
  pub kwh : ℤ
  pub redemption_id : Text
  pub memo : Text

pub record ErpSyncResult : Type 0 where
  pub ok : Bool
  pub external_id : Text
  pub status_code : ℕ

-- What is sent: the URL without a slash at its end is made by the caller of `fetch`.
pub record ErpPost : Type 0 where
  pub api_url : Text
  pub idempotency_key : Text
  pub note : ErpCreditNotePayload

-- The ERP's answer, with the header x-request-id; a post that fails has none.
pub record ErpResponse : Type 0 where
  pub ok : Bool
  pub status : ℕ
  pub request_id : Option Text

-- `delivered` is the class's map; `posts` is no field of it: it records each post that was made,
-- in order.
pub record GridOperatorClient : Type 0 where
  pub delivered : Dict Text ErpSyncResult
  pub posts : List ErpPost

-- What a response leaves: it is remembered where it is ok.
unfoldable pub record_response :
    ErpPost → ErpResponse → GridOperatorClient → ErpSyncResult × GridOperatorClient
unfolding set
record_response post response s =
    let result : ErpSyncResult = record {
      ok = response.ok;
      external_id = or_else response.request_id (codes "erp-" ++ take 16 post.idempotency_key);
      status_code = response.status;
    } in
    (
      result,
      if response.ok
          then record s { delivered = set post.idempotency_key result s.delivered }
          else s,
    )

-- Up to the `await`: a result that is remembered, or none and the post is made.
unfoldable pub begin_sync : ErpPost → GridOperatorClient → Option ErpSyncResult × GridOperatorClient
unfolding get
begin_sync post s = elim (get post.idempotency_key s.delivered) [
  | some cached ↦ (some cached, s)
  | none ↦ (none, record s { posts = s.posts ++ post ∷ [] })
]

-- After the `await`, with the ERP's answer, or none where the post failed.
unfoldable pub finish_sync :
    Option ErpResponse → ErpPost → GridOperatorClient → ErpSyncResult × GridOperatorClient
unfolding record_response
finish_sync none post s = (record { ok = false; external_id = codes "error"; status_code = 0 }, s)
finish_sync (some response) post s = record_response post response s

-- A call that no other overlaps.
unfoldable pub sync_with_erp :
    Option ErpResponse → ErpPost → GridOperatorClient → ErpSyncResult × GridOperatorClient
unfolding begin_sync finish_sync
sync_with_erp answer post s =
    let (cached, t) = begin_sync post s in
    elim cached [ some result ↦ (result, t) | none ↦ finish_sync answer post t ]

-- The client with the posts of the calls that wait for an answer.
pub record Syncing : Type 0 where
  pub client : GridOperatorClient
  pub waiting : List ErpPost

-- A call begins, or the call at a position among the waiting ones is answered or fails.
pub data SyncEvent : Type 0 where
  called : ErpPost → SyncEvent
  answered : ℕ → Option ErpResponse → SyncEvent

unfoldable pub sync_step : SyncEvent → Syncing → Syncing
unfolding begin_sync finish_sync
sync_step (called post) s =
    let (cached, t) = begin_sync post s.client in
    record {
      client = t;
      waiting = elim cached [ some result ↦ s.waiting | none ↦ s.waiting ++ post ∷ [] ];
    }
sync_step (answered n answer) s = elim (take_out n s.waiting) [
  | none ↦ s
  | some (post, others) ↦ record { client = (finish_sync answer post s.client).1; waiting = others }
]
