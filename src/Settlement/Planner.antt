-- ===== src/Settlement/Planner.antt =====
-- layer5/settlement/src/settlementOrchestrator.ts. Prices that are fetched and only logged leave
-- no trace, and are left out.
pub mod Laws
use creation_of_energy_token.Prelude.{
  ℕ, ◌+◌, ◌*◌, ◌/◌, Bool, true, false, not, List, [], ◌∷◌, ◌++◌, Option, none, some, Text, text_Eq,
  ◌===◌, codes, take, drop, length, ltb, or_else, replicate, if◌then◌else◌,
}
use creation_of_energy_token.Prelude.Int.{ℤ, pos, ◌*ℤ◌}
use creation_of_energy_token.Prelude.Strings.{Env, is_nonempty}
use creation_of_energy_token.Engine.Types.{ExecutionResult, Result, ok, err}
use creation_of_energy_token.Settlement.Types.{
  kwh_scale, Checked, accepted, rejected, Failure, settlement, engine, simulation_failed,
  invalid_schema, too_many_calls, Attempt, done, threw, is_done,
}
use creation_of_energy_token.Settlement.Deployment.{SuiPtbConfig}
use creation_of_energy_token.Settlement.Manifest.{NetworkManifest, load_network_manifest}
use creation_of_energy_token.Settlement.PtbClient.{RedemptionPlan, Sui, dry_run}
use creation_of_energy_token.Settlement.Credit.{assert_credit_or_throw}
use creation_of_energy_token.Settlement.Burns.{BurnEngine, record_burn}
use creation_of_energy_token.Settlement.Billing.{
  UtilityBillingAdapter, Formats, CreditNoteInput, CreditNotePayload, issue_credit_note,
}
use creation_of_energy_token.Settlement.Reporting.{BridgeReportingAdapter, emit, l4_execution_ack}
use creation_of_energy_token.Settlement.Archive.{validate_settlement_event_v1}
use creation_of_energy_token.Settlement.Grid.{
  GridOperatorClient, ErpCreditNotePayload, ErpResponse, sync_with_erp,
}

abbrev pub max_ptb_move_calls : ℕ
max_ptb_move_calls = 10

abbrev pub gas_per_step_mist : ℕ
gas_per_step_mist = 2_000_000

abbrev pub gas_buffer_bps : ℕ
gas_buffer_bps = 2_000

abbrev pub zero_hex_32 : Text
zero_hex_32 = codes "0x" ++ replicate 64 b'0'

pub record OrchestratorOutcome : Type 0 where
  pub trace_id : Text
  pub redemption_id : Text
  pub gas_budget_mist : ℕ
  pub ptb_steps : List Text
  pub credit_note_memo : Text

-- The parts of the class that planning and acknowledging change.
pub record SettlementOrchestrator : Type 0 where
  pub burns : BurnEngine
  pub events : BridgeReportingAdapter
  pub billing : UtilityBillingAdapter
  pub grid_operator : GridOperatorClient

-- What stays the same for an orchestrator: the environment, the configuration of its PTB client,
-- the files, the formats of the runtime, and the chain.
pub record Site : Type 0 where
  pub env : Env
  pub config : SuiPtbConfig
  pub read_manifest : Text → Attempt NetworkManifest
  pub formats : Formats
  pub sui : Sui

-- What one plan reads from outside: the clock, the ERP's answer, and the random trace id.
pub record PlanInputs : Type 0 where
  pub issued_at : ℕ
  pub erp_answer : Option ErpResponse
  pub trace_id : Text
  pub emitted_at : ℕ
  pub burned_at : ℕ

abbrev pub planned_steps : List Text
planned_steps =
    codes "validate_credit"
    ∷ codes "assert_consumer_kyc"
    ∷ codes "mark_redeemed"
    ∷ codes "burn_energy"
    ∷ codes "emit_settlement_event"
    ∷ codes "record_grid_ledger"
    ∷ []

unfoldable pub gas_budget : List Text → ℕ
gas_budget steps =
    1_000_000 + length steps * gas_per_step_mist + 1_000_000 * gas_buffer_bps / 10_000

-- The URL of the ERP that the credit note is sent to, if any; an empty variable counts as unset.
unfoldable pub erp_url : Env → NetworkManifest → Option Text
erp_url env manifest =
    let local =
      if not (manifest.network === codes "mainnet")
      then some (codes "http://127.0.0.1:9999/erp")
      else none in
    elim (env (codes "GRID_OPERATOR_API")) [
      | none ↦ local
      | some url ↦ if is_nonempty url then some url else local
    ]

unfoldable pub sync_note :
    Option Text
    → Option ErpResponse
    → CreditNotePayload
    → Text
    → SettlementOrchestrator
    → SettlementOrchestrator
unfolding sync_with_erp
sync_note none answer note id s = s
sync_note (some url) answer note id s = record s {
  grid_operator =
      (sync_with_erp answer
        (record {
          api_url = url;
          idempotency_key = id;
          note = record {
            consumer = note.consumer;
            kwh = note.kwh;
            redemption_id = note.redemption_id;
            memo = note.memo;
          };
        })
        s.grid_operator).1;
}

-- The payload of the plan has every key.
abbrev pub redemption_keys : List Text
redemption_keys =
    codes "schema_version"
    ∷ codes "event_type"
    ∷ codes "redemption_id"
    ∷ codes "kwh"
    ∷ codes "consumer_addr"
    ∷ codes "producer_addr"
    ∷ codes "timestamp_ms"
    ∷ codes "block_height"
    ∷ []

-- The end of a plan: the dry run, and the check of the event's schema.
unfoldable pub check_plan :
    Site → PlanInputs → RedemptionPlan → CreditNotePayload → Attempt OrchestratorOutcome
unfolding dry_run validate_settlement_event_v1 gas_budget
check_plan site inputs plan note = elim (dry_run site.env site.config site.sui plan) [
  | threw e ↦ threw e
  | done dry ↦
      let schema =
        validate_settlement_event_v1
          (record { schema_version = some (codes "v1.0.0"); keys = redemption_keys }) in
      if not dry.success
      then threw simulation_failed
      else if not schema.valid
      then threw (invalid_schema schema.missing)
      else done (record {
        trace_id = inputs.trace_id;
        redemption_id = plan.redemption_id;
        gas_budget_mist = gas_budget planned_steps;
        ptb_steps = planned_steps;
        credit_note_memo = note.memo;
      })
]

-- The middle of a plan: the credit note is issued and sent to the ERP.
abbrev pub note_input : RedemptionPlan → CreditNoteInput
note_input plan = record {
  consumer = plan.consumer;
  kwh = plan.kwh_claim;
  redemption_id = plan.redemption_id;
  period_end_ms = plan.billing_period_end_ms;
}

unfoldable pub issue_and_check :
    Site
    → PlanInputs
    → RedemptionPlan
    → SettlementOrchestrator
    → Attempt OrchestratorOutcome × SettlementOrchestrator
unfolding issue_credit_note load_network_manifest erp_url sync_note check_plan
issue_and_check site inputs plan s =
    let (issued, billing) =
      issue_credit_note site.formats (note_input plan) inputs.issued_at s.billing in
    let noted = record s { billing = billing } in
    elim issued [
      | err e ↦ (threw (engine e), noted)
      | ok note ↦
          elim (load_network_manifest site.read_manifest site.env
            (site.env (codes "SUI_NETWORK"))) [
              | threw e ↦ (threw e, noted)
              | done manifest ↦
                  let url = erp_url site.env manifest in
                  (
                    check_plan site inputs plan note,
                    sync_note url inputs.erp_answer note plan.redemption_id noted,
                  )
            ]
    ]

unfoldable pub plan_redemption :
    Site
    → PlanInputs
    → RedemptionPlan
    → SettlementOrchestrator
    → Attempt OrchestratorOutcome × SettlementOrchestrator
unfolding assert_credit_or_throw issue_and_check
plan_redemption site inputs plan s =
    if ltb max_ptb_move_calls (length planned_steps)
    then (threw too_many_calls, s)
    else (elim (assert_credit_or_throw (record {
      coin_balance_micro = plan.coin_balance_micro;
      batch_kwh = plan.batch_kwh;
      batch_redeemed = plan.batch_redeemed;
      kwh_claim = plan.kwh_claim;
    })) [
      | rejected e ↦ (threw (settlement e), s)
      | accepted credit ↦ issue_and_check site inputs plan s
    ])

-- `executionId.slice(2, 34)`
abbrev pub default_redemption_id : Text → Text
default_redemption_id execution_id = take 32 (drop 2 execution_id)

-- The event and the burn of an acknowledged execution.
unfoldable pub acknowledge :
    PlanInputs → ExecutionResult → RedemptionPlan → SettlementOrchestrator → SettlementOrchestrator
unfolding emit record_burn ◌*ℤ◌
acknowledge inputs result plan s = record s {
  events =
      emit
        (record {
          event_type = l4_execution_ack;
          redemption_id = plan.redemption_id;
          kwh = plan.kwh_claim;
          consumer_addr = plan.consumer;
          producer_addr = plan.consumer;
          oracle_sig = zero_hex_32;
          timestamp_ms = inputs.emitted_at;
          block_height = result.confirmation_block;
        })
        s.events;
  burns =
      record_burn
        (record {
          amount = plan.kwh_claim *ℤ pos kwh_scale;
          redemption_id = plan.redemption_id;
          consumer = plan.consumer;
          timestamp_ms = inputs.burned_at;
        })
        s.burns;
}

-- The plan comes with its redemption id.
unfoldable pub process_l4_execution :
    Site
    → PlanInputs
    → ExecutionResult
    → RedemptionPlan
    → SettlementOrchestrator
    → Attempt (Option OrchestratorOutcome) × SettlementOrchestrator
unfolding plan_redemption acknowledge
process_l4_execution site inputs result plan s =
    if not result.settled
    then (done none, s)
    else (let (outcome, s') = plan_redemption site inputs plan s in
        elim outcome [
          | threw e ↦ (threw e, s')
          | done planned ↦ (done (some planned), acknowledge inputs result plan s')
        ])
