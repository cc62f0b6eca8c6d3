-- ===== src/Settlement/BridgeWorker/Laws.antt =====
-- What the worker confirms, and the rows that stay.
use mathlib.Core.List.{map-append}
use creation_of_energy_token.Prelude.{
  Bool, true, false, not, ◌&&◌, List, [], ◌∷◌, none, Text, text_Eq, ◌===◌, filter, map, includes,
  ◌≡◌, refl, sym, ap, ◌∙◌, inl, inr, if◌then◌else◌, arith, Bool-cases, subst,
}
use creation_of_energy_token.Prelude.Dict.{get, delete, get-delete_self, get-delete_ne}
use creation_of_energy_token.Prelude.Sets.{Distinct, Distinct-append}
use creation_of_energy_token.Settlement.Watcher.{confirm}
use creation_of_energy_token.Settlement.Wormhole.{WormholeBridgeClient}
use creation_of_energy_token.Settlement.BridgeWorker.{
  BridgePendingRow, BridgeStateStore, Fetch, Round, rows_without, track_row, confirm_row, is_signed,
  confirm_if, poll_rows,
}

abbrev confirmed_first : Bool → Text → List Text → List Text
confirmed_first true id ids = id ∷ ids
confirmed_first false id ids = ids

-- The ids that the loop confirms, in order.
abbrev pub confirmed_ids : Fetch → List BridgePendingRow → WormholeBridgeClient → List Text
confirmed_ids fetch [] client = []
confirmed_ids fetch (row ∷ rows) client =
    let (vaa, client') = fetch row client in
    confirmed_first (is_signed vaa) row.bridge_tx_id (confirmed_ids fetch rows client')

abbrev pub not_in : List Text → BridgePendingRow → Bool
not_in ids row = not (includes ids row.bridge_tx_id)

filter-filter :
    (p q : BridgePendingRow → Bool) (rows : List BridgePendingRow)
    → filter p (filter q rows) ≡ filter (λ r. q r && p r) rows
filter-filter p q [] = refl
filter-filter p q (r ∷ rows) = ground (arith, filter-filter p q rows)

filter_ext :
    (p q : BridgePendingRow → Bool) (rows : List BridgePendingRow)
    → ((r : BridgePendingRow) → p r ≡ q r)
    → filter p rows ≡ filter q rows
filter_ext p q [] h = refl
filter_ext p q (r ∷ rows) h = ground (arith, h r, filter_ext p q rows h)

filter_all : (rows : List BridgePendingRow) → filter (λ r. true) rows ≡ rows
filter_all [] = refl
filter_all (r ∷ rows) = ap (λ rs. r ∷ rs) (filter_all rows)

confirm_if-rows :
    (signed : Bool) (id : Text) (ids : List Text) (s : Round)
    → filter (not_in ids) (confirm_if signed id s).rows
      ≡ filter (not_in (confirmed_first signed id ids)) s.rows
unfolding confirm_row confirm_if
confirm_if-rows true id ids s =
    filter-filter (not_in ids) (λ (r : BridgePendingRow). not (r.bridge_tx_id === id)) s.rows
    ∙ filter_ext _ _ s.rows
        (λ r. ground (arith, text_Eq.beq_iff r.bridge_tx_id id, text_Eq.beq_iff id r.bridge_tx_id))
confirm_if-rows false id ids s = refl

confirm_if-watcher :
    (signed : Bool) (id : Text) (ids : List Text) (s : Round) (k : Text)
    → (if includes ids k then none else get k (confirm_if signed id s).watcher)
      ≡ (if includes (confirmed_first signed id ids) k then none else get k s.watcher)
unfolding confirm confirm_if
confirm_if-watcher true id ids s k = elim (Bool-cases (id === k)) [
  | inl h ↦
      let same : id ≡ k = (text_Eq.beq_iff id k).0 h in
      let gone =
        subst (λ x. get x (delete id s.watcher) ≡ none) same (get-delete_self id s.watcher) in
      ground (arith, gone, h)
  | inr h ↦
      let kept = get-delete_ne id k s.watcher (λ same. ground (arith, text_Eq.beq_iff id k)) in
      ground (arith, kept, h)
]
confirm_if-watcher false id ids s k = refl

-- The loop keeps exactly the rows of transactions that it does not confirm, and the watcher
-- forgets exactly the confirmed ones.
pub poll_rows-keeps :
    (fetch : Fetch) (rows : List BridgePendingRow) (s : Round)
    → ((poll_rows fetch rows s).rows ≡ filter (not_in (confirmed_ids fetch rows s.wormhole)) s.rows)
      × ((id : Text)
          → get id (poll_rows fetch rows s).watcher ≡ (
              if includes (confirmed_ids fetch rows s.wormhole) id then none else get id s.watcher))
unfolding poll_rows confirm_if
poll_rows-keeps fetch [] s = (sym (filter_all s.rows), λ id. refl)
poll_rows-keeps fetch (row ∷ rows) s =
    let (vaa, client) = fetch row s.wormhole in
    let next = record s { wormhole = client } in
    let id = row.bridge_tx_id in
    let ids = confirmed_ids fetch rows client in
    let (kept, watched) = poll_rows-keeps fetch rows (confirm_if (is_signed vaa) id next) in
    (
      kept ∙ confirm_if-rows (is_signed vaa) id ids next,
      λ k. watched k ∙ confirm_if-watcher (is_signed vaa) id ids next k,
    )

includes_without :
    (id : Text) (rows : BridgeStateStore) (k : Text)
    → includes (map (λ (r : BridgePendingRow). r.bridge_tx_id) (rows_without id rows)) k
      ≡ (not (id === k) && includes (map (λ (r : BridgePendingRow). r.bridge_tx_id) rows) k)
includes_without id [] k = ground arith
includes_without id (r ∷ rows) k = ground (
  arith,
  includes_without id rows k,
  text_Eq.beq_iff r.bridge_tx_id id,
  text_Eq.beq_iff r.bridge_tx_id k,
  text_Eq.beq_iff id k,
)

-- A row that is put in front, or left out.
kept_if :
    (keep : Bool) (r : BridgePendingRow) (rows : List BridgePendingRow)
    → Distinct (map (λ (r : BridgePendingRow). r.bridge_tx_id) rows)
    → includes (map (λ (r : BridgePendingRow). r.bridge_tx_id) rows) r.bridge_tx_id ≡ false
    → Distinct (
        map
          (λ (r : BridgePendingRow). r.bridge_tx_id)
          (elim keep [ true ↦ r ∷ rows | false ↦ rows ]))
kept_if true r rows h fresh = (fresh, h)
kept_if false r rows h fresh = h

without-Distinct :
    (id : Text) (rows : BridgeStateStore)
    → Distinct (map (λ (r : BridgePendingRow). r.bridge_tx_id) rows)
    → Distinct (map (λ (r : BridgePendingRow). r.bridge_tx_id) (rows_without id rows))
without-Distinct id [] h = tt
without-Distinct id (r ∷ rows) (fresh, h) =
    kept_if (not (r.bridge_tx_id === id)) r (rows_without id rows) (without-Distinct id rows h)
      (ground (arith, includes_without id rows r.bridge_tx_id))

-- After a message is tracked, no two rows of the store have the same transaction, if that held
-- before.
pub track_row-Distinct :
    (row : BridgePendingRow) (rows : BridgeStateStore)
    → Distinct (map (λ (r : BridgePendingRow). r.bridge_tx_id) rows)
    → Distinct (map (λ (r : BridgePendingRow). r.bridge_tx_id) (track_row row rows))
unfolding track_row
track_row-Distinct row rows h =
    let ids = map (λ (r : BridgePendingRow). r.bridge_tx_id) (rows_without row.bridge_tx_id rows) in
    subst Distinct
      (sym (
        map-append (λ (r : BridgePendingRow). r.bridge_tx_id) (rows_without row.bridge_tx_id rows)
          _))
      (Distinct-append ids row.bridge_tx_id (without-Distinct row.bridge_tx_id rows h) (
        ground (
          arith,
          includes_without row.bridge_tx_id rows row.bridge_tx_id,
          text_Eq.beq_iff row.bridge_tx_id row.bridge_tx_id,
        )))
