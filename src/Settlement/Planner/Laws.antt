-- ===== src/Settlement/Planner/Laws.antt =====
-- When a redemption can be planned, and what planning and acknowledging change.
use mathlib.Core.List.{map-append}
use creation_of_energy_token.Prelude.{
  Bool, true, false, ◌&&◌, some, Text, text_Eq, codes, ◌≡◌, refl, ◌↔◌, arith, map, ◌++◌, [], ◌∷◌,
  Option, none, if◌then◌else◌, append-nil, sym, ap, ◌∙◌,
}
use creation_of_energy_token.Prelude.Equality.{text_eq}
use creation_of_energy_token.Prelude.Int.{ℤ, pos, ◌*ℤ◌, ◌≤ℤ◌, ==ℤ_iff}
use creation_of_energy_token.Engine.Types.{Result, ok, err, ExecutionResult}
use creation_of_energy_token.Settlement.Types.{
  Checked, accepted, rejected, Attempt, done, threw, is_done,
}
use creation_of_energy_token.Settlement.Credit.{validate_credit, assert_credit_or_throw}
use creation_of_energy_token.Settlement.Burns.{BurnEvent, record_burn}
use creation_of_energy_token.Settlement.Grid.{ErpResponse}
use creation_of_energy_token.Settlement.Billing.{CreditNotePayload, credit_note, issue_credit_note}
use creation_of_energy_token.Settlement.Archive.{validate_settlement_event_v1}
use creation_of_energy_token.Settlement.Manifest.{NetworkManifest, load_network_manifest}
use creation_of_energy_token.Settlement.PtbClient.{RedemptionPlan, DryRunResult, dry_run}
use creation_of_energy_token.Settlement.Planner.{
  SettlementOrchestrator, Site, PlanInputs, redemption_keys, check_plan, note_input,
  issue_and_check, plan_redemption, sync_note, erp_url, process_l4_execution, acknowledge,
  OrchestratorOutcome,
}

abbrev is_ok {ℓ} : {A : Type ℓ} → Result A → Bool
is_ok (ok a) = true
is_ok (err e) = false

abbrev dry_ok : Attempt DryRunResult → Bool
dry_ok (done r) = r.success
dry_ok (threw e) = false

abbrev credit_ok : Checked ℤ → Bool
credit_ok (accepted c) = true
credit_ok (rejected e) = false

-- What a plan needs: credit, a date, a manifest, and a dry run that succeeds.
abbrev pub CanPlan : Site → RedemptionPlan → Type 0
CanPlan site plan =
    ((plan.batch_redeemed ≡ false)
      × (plan.batch_kwh ≡ plan.kwh_claim)
      × (plan.kwh_claim *ℤ pos 1_000_000 ≤ℤ plan.coin_balance_micro))
    × (is_ok (site.formats.iso_string plan.billing_period_end_ms) ≡ true)
    × (is_done (load_network_manifest site.read_manifest site.env (site.env (codes "SUI_NETWORK")))
        ≡ true)
    × (dry_ok (dry_run site.env site.config site.sui plan) ≡ true)

plan_schema_valid :
    (validate_settlement_event_v1
      (record { schema_version = some (codes "v1.0.0"); keys = redemption_keys })).valid
    ≡ true
unfolding validate_settlement_event_v1 text_eq
plan_schema_valid = refl

check_plan-is_done :
    (site : Site) (inputs : PlanInputs) (plan : RedemptionPlan) (note : CreditNotePayload)
    → is_done (check_plan site inputs plan note)
      ≡ dry_ok (dry_run site.env site.config site.sui plan)
unfolding check_plan
check_plan-is_done site inputs plan note = ground (arith, plan_schema_valid)

credit_ok_iff :
    (redeemed : Bool) (balance batch claim : ℤ)
    → (credit_ok (
          assert_credit_or_throw (record {
            coin_balance_micro = balance;
            batch_kwh = batch;
            batch_redeemed = redeemed;
            kwh_claim = claim;
          }))
        ≡ true)
      ↔ ((redeemed ≡ false) × (batch ≡ claim) × (claim *ℤ pos 1_000_000 ≤ℤ balance))
unfolding assert_credit_or_throw validate_credit
credit_ok_iff redeemed balance batch claim = ground (arith, ==ℤ_iff batch claim)

sync_note-burns :
    (url : Option Text) (answer : Option ErpResponse) (note : CreditNotePayload) (id : Text)
    (s : SettlementOrchestrator)
    → (sync_note url answer note id s).burns ≡ s.burns
unfolding sync_note
sync_note-burns none answer note id s = refl
sync_note-burns (some url) answer note id s = refl

-- What the abstract ledger sees of a burn.
abbrev pub seen_burn : BurnEvent → Text × ℤ
seen_burn b = (b.redemption_id, b.amount)

-- The burn of a plan, as far as the abstract ledger sees it.
abbrev pub burn_entry : RedemptionPlan → Text × ℤ
burn_entry plan = (plan.redemption_id, plan.kwh_claim *ℤ pos 1_000_000)

-- The conditions of `CanPlan`, as a test.
unfoldable pub can_plan : Site → RedemptionPlan → Bool
can_plan site plan =
    credit_ok (
      assert_credit_or_throw (record {
        coin_balance_micro = plan.coin_balance_micro;
        batch_kwh = plan.batch_kwh;
        batch_redeemed = plan.batch_redeemed;
        kwh_claim = plan.kwh_claim;
      }))
    && (is_ok (site.formats.iso_string plan.billing_period_end_ms)
        && (is_done
              (load_network_manifest site.read_manifest site.env (site.env (codes "SUI_NETWORK")))
            && dry_ok (dry_run site.env site.config site.sui plan)))

pub can_plan_iff :
    (site : Site) (plan : RedemptionPlan) → (can_plan site plan ≡ true) ↔ CanPlan site plan
unfolding can_plan
can_plan_iff site plan =
    ground (
      arith,
      credit_ok_iff plan.batch_redeemed plan.coin_balance_micro plan.batch_kwh plan.kwh_claim,
    )

module _ (site : Site) (inputs : PlanInputs) (plan : RedemptionPlan) where
  issue_and_check-is_done :
      (s : SettlementOrchestrator) (iso : Result Text) (manifest : Attempt NetworkManifest)
      → site.formats.iso_string plan.billing_period_end_ms ≡ iso
      → load_network_manifest site.read_manifest site.env (site.env (codes "SUI_NETWORK"))
        ≡ manifest
      → is_done (issue_and_check site inputs plan s).0
        ≡ (is_ok iso && (is_done manifest && dry_ok (dry_run site.env site.config site.sui plan)))
  unfolding issue_and_check issue_credit_note
  issue_and_check-is_done s (err e) manifest h k = rw (h, is_done, issue_and_check) refl
  issue_and_check-is_done s (ok iso) (threw e) h k = rw (h, k, is_done, issue_and_check) refl
  issue_and_check-is_done s (ok iso) (done m) h k =
      rw (h, k, is_done, issue_and_check)
        (check_plan-is_done site inputs plan
          (credit_note site.formats (note_input plan) iso inputs.issued_at))

  plan_redemption-is_done :
      (s : SettlementOrchestrator) (credit : Checked ℤ)
      → assert_credit_or_throw (record {
        coin_balance_micro = plan.coin_balance_micro;
        batch_kwh = plan.batch_kwh;
        batch_redeemed = plan.batch_redeemed;
        kwh_claim = plan.kwh_claim;
      })
        ≡ credit
      → is_done (plan_redemption site inputs plan s).0
        ≡ (credit_ok credit && is_done (issue_and_check site inputs plan s).0)
  unfolding plan_redemption
  plan_redemption-is_done s (accepted c) h = rw h refl
  plan_redemption-is_done s (rejected e) h = rw h refl

  pub plan_redemption-can_plan :
      (s : SettlementOrchestrator)
      → is_done (plan_redemption site inputs plan s).0 ≡ can_plan site plan
  unfolding can_plan
  plan_redemption-can_plan s =
      plan_redemption-is_done s _ refl
      ∙ ap
          (λ b.
            credit_ok (
              assert_credit_or_throw (record {
                coin_balance_micro = plan.coin_balance_micro;
                batch_kwh = plan.batch_kwh;
                batch_redeemed = plan.batch_redeemed;
                kwh_claim = plan.kwh_claim;
              }))
            && b)
          (issue_and_check-is_done s _ _ refl refl)

  -- A plan succeeds exactly for a batch that is not redeemed and claimed whole, a balance that
  -- covers the claim, a period end that the runtime can format, a manifest that loads, and a dry
  -- run that succeeds.
  pub plan_redemption-CanPlan_iff :
      (s : SettlementOrchestrator)
      → (is_done (plan_redemption site inputs plan s).0 ≡ true) ↔ CanPlan site plan
  plan_redemption-CanPlan_iff s = rw (plan_redemption-can_plan s) (can_plan_iff site plan)

  issue_and_check-burns :
      (s : SettlementOrchestrator) (iso : Result Text) (manifest : Attempt NetworkManifest)
      → site.formats.iso_string plan.billing_period_end_ms ≡ iso
      → load_network_manifest site.read_manifest site.env (site.env (codes "SUI_NETWORK"))
        ≡ manifest
      → (issue_and_check site inputs plan s).1.burns ≡ s.burns
  unfolding issue_and_check issue_credit_note
  issue_and_check-burns s (err e) manifest h k = rw (h, issue_and_check) refl
  issue_and_check-burns s (ok iso) (threw e) h k = rw (h, k, issue_and_check) refl
  issue_and_check-burns s (ok iso) (done m) h k =
      rw (h, k, issue_and_check)
        (sync_note-burns (erp_url site.env m) inputs.erp_answer
          (credit_note site.formats (note_input plan) iso inputs.issued_at) plan.redemption_id _)

  plan_redemption-burns :
      (s : SettlementOrchestrator) → (plan_redemption site inputs plan s).1.burns ≡ s.burns
  unfolding plan_redemption
  plan_redemption-burns s = ground (
    arith,
    issue_and_check-burns s (site.formats.iso_string plan.billing_period_end_ms)
        (load_network_manifest site.read_manifest site.env (site.env (codes "SUI_NETWORK"))) refl
        refl,
  )

  pub process_l4_execution-burns :
      (result : ExecutionResult) (s : SettlementOrchestrator)
      (planned : Attempt OrchestratorOutcome)
      → result.settled ≡ true
      → (plan_redemption site inputs plan s).0 ≡ planned
      → let r = process_l4_execution site inputs result plan s in
        (is_done r.0 ≡ is_done planned)
        × (map seen_burn r.1.burns
            ≡ map seen_burn s.burns ++ (if is_done planned then burn_entry plan ∷ [] else []))
  unfolding process_l4_execution acknowledge record_burn
  process_l4_execution-burns result s (threw e) h k =
      rw (h, k, process_l4_execution)
        (
          refl,
          ap (map seen_burn) (plan_redemption-burns s) ∙ sym (append-nil (map seen_burn s.burns)),
        )
  process_l4_execution-burns result s (done o) h k =
      rw (h, k, process_l4_execution)
        (
          refl,
          map-append seen_burn (plan_redemption site inputs plan s).1.burns _
              ∙ ap (λ bs. map seen_burn bs ++ burn_entry plan ∷ []) (plan_redemption-burns s),
        )
