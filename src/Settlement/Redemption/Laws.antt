-- ===== src/Settlement/Redemption/Laws.antt =====
-- A batch, and a redemption id, is redeemed once at most.
use creation_of_energy_token.Prelude.{
  ◌⊎◌, ◌≡◌, ◌↔◌, inl, inr, true, false, List, [], ◌∷◌, some, Text, text_Eq, text_eq_iff, includes,
  arith, ap,
}
use creation_of_energy_token.Prelude.Dict.{get, get-set}
use creation_of_energy_token.Prelude.Sets.{includes-add}
use creation_of_energy_token.Settlement.Types.{accepted}
use creation_of_energy_token.Settlement.Redemption.{
  RedemptionEvent, BatchRedemptionTracker, register_idempotency, is_redeemed, mark_redeemed,
}

-- A call of one of the two operations.
pub data Call : Type 0 where
  mark : RedemptionEvent → Call
  register : Text → Call

abbrev pub apply_call : Call → BatchRedemptionTracker → BatchRedemptionTracker
apply_call (mark event) s = (mark_redeemed event s).1
apply_call (register id) s = (register_idempotency id s).1

abbrev pub apply_calls : List Call → BatchRedemptionTracker → BatchRedemptionTracker
apply_calls [] s = s
apply_calls (c ∷ calls) s = apply_calls calls (apply_call c s)

-- A redemption is accepted exactly when neither its batch nor its id was used; a rejected one
-- changes nothing.
pub mark_redeemed_iff :
    (event : RedemptionEvent) (s : BatchRedemptionTracker)
    → (((mark_redeemed event s).0 ≡ accepted tt) ↔ (
        (is_redeemed event.batch_id s ≡ false) × (includes s.used_ids event.redemption_id ≡ false)))
      × (((mark_redeemed event s).0 ≡ accepted tt → ⊥) → (mark_redeemed event s).1 ≡ s)
unfolding mark_redeemed is_redeemed register_idempotency
mark_redeemed_iff event s = ground arith

-- Whether an id is used, and the event of a batch.
IsUsed : Text → BatchRedemptionTracker → Type 0
IsUsed id s = includes s.used_ids id ≡ true

apply_call-IsUsed :
    (c : Call) (id : Text) (s : BatchRedemptionTracker) → IsUsed id s → IsUsed id (apply_call c s)
unfolding IsUsed mark_redeemed register_idempotency
apply_call-IsUsed (mark event) id s h =
    ground (arith, includes-add s.used_ids event.redemption_id id)
apply_call-IsUsed (register other) id s h = ground (arith, includes-add s.used_ids other id)

apply_call-get :
    (c : Call) (batch : Text) (event : RedemptionEvent) (s : BatchRedemptionTracker)
    → get batch s.redeemed ≡ some event
    → get batch (apply_call c s).redeemed ≡ some event
unfolding mark_redeemed register_idempotency
apply_call-get (mark e) batch event s h =
    ground (arith, get-set e.batch_id batch e s.redeemed, text_eq_iff e.batch_id batch)
apply_call-get (register other) batch event s h = ground arith

apply_calls-kept :
    (calls : List Call) (event : RedemptionEvent) (s : BatchRedemptionTracker)
    → get event.batch_id s.redeemed ≡ some event
    → IsUsed event.redemption_id s
    → (get event.batch_id (apply_calls calls s).redeemed ≡ some event)
      × IsUsed event.redemption_id (apply_calls calls s)
apply_calls-kept [] event s g u = (g, u)
apply_calls-kept (c ∷ calls) event s g u =
    apply_calls-kept calls event (apply_call c s) (apply_call-get c event.batch_id event s g)
      (apply_call-IsUsed c event.redemption_id s u)

mark-kept :
    (event : RedemptionEvent) (s : BatchRedemptionTracker)
    → (mark_redeemed event s).0 ≡ accepted tt
    → let t = (mark_redeemed event s).1 in
      (get event.batch_id t.redeemed ≡ some event) × IsUsed event.redemption_id t
unfolding mark_redeemed register_idempotency IsUsed
mark-kept event s h = ground (
  arith,
  get-set event.batch_id event.batch_id event s.redeemed,
  text_eq_iff event.batch_id event.batch_id,
  text_eq_iff event.redemption_id event.redemption_id,
  includes-add s.used_ids event.redemption_id event.redemption_id,
)

-- After an accepted redemption, and whatever calls follow, the batch keeps that event, and no
-- redemption of the same batch, or with the same id, is accepted.
pub mark_redeemed_once :
    (event other : RedemptionEvent) (calls : List Call) (s : BatchRedemptionTracker)
    → (mark_redeemed event s).0 ≡ accepted tt
    → (other.batch_id ≡ event.batch_id) ⊎ (other.redemption_id ≡ event.redemption_id)
    → let t = apply_calls calls (mark_redeemed event s).1 in
      (get event.batch_id t.redeemed ≡ some event) × ((mark_redeemed other t).0 ≡ accepted tt → ⊥)
unfolding is_redeemed IsUsed
mark_redeemed_once event other calls s h same =
    let t = apply_calls calls (mark_redeemed event s).1 in
    let (g, u) = mark-kept event s h in
    let (g', u') = apply_calls-kept calls event (mark_redeemed event s).1 g u in
    (g', λ again. refuse t g' u' ((mark_redeemed_iff other t).0.0 again))
  where
    refuse :
        (t : BatchRedemptionTracker)
        → get event.batch_id t.redeemed ≡ some event
        → includes t.used_ids event.redemption_id ≡ true
        → (is_redeemed other.batch_id t ≡ false) × (includes t.used_ids other.redemption_id ≡ false)
        → ⊥
    refuse t g' u' (fresh, unused) = elim same [
      | inl batch ↦ absurd (ground (arith, ap (λ b. get b t.redeemed) batch))
      | inr id ↦ absurd (ground (arith, ap (includes t.used_ids) id))
    ]
