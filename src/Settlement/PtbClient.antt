-- ===== src/Settlement/PtbClient.antt =====
-- layer5/settlement/src/suiPtbClient.ts. The node and the signer are outside.
use creation_of_energy_token.Prelude.{
  ℕ, zero, suc, ◌+◌, ◌*◌, Bool, true, false, not, ◌||◌, List, [], ◌∷◌, ◌++◌, Option, none, some,
  Text, text_Eq, ◌===◌, codes, length, or_else, if◌then◌else◌,
}
use creation_of_energy_token.Prelude.Int.{ℤ, pos, ◌+ℤ◌}
use creation_of_energy_token.Prelude.Strings.{Env}
use creation_of_energy_token.Sdk.Transaction.{Transaction, new_transaction}
use creation_of_energy_token.Settlement.Types.{
  objects_required, dry_run_failed, Attempt, done, threw, ◌>>=◌,
}
use creation_of_energy_token.Settlement.Deployment.{
  Layer5PackageTargets, Layer5RedeemObjects, SuiPtbConfig, load_published_deployment_or_stub,
  is_stub_package_id,
}
use creation_of_energy_token.Settlement.Redeeming.{build_layer5_redeem_ptb, redemption_id_bytes}

pub record RedemptionPlan : Type 0 where
  pub redemption_id : Text
  pub consumer : Text
  pub kwh_claim : ℤ
  pub coin_balance_micro : ℤ
  pub batch_kwh : ℤ
  pub batch_redeemed : Bool
  pub billing_period_end_ms : ℕ

pub record DryRunResult : Type 0 where
  pub success : Bool
  pub gas_used : ℤ
  pub effects : List Text
  pub status : Option Text

-- What an inspection reports: the status, and the costs of computation and storage, where given.
pub record Inspection : Type 0 where
  pub status : Option Text
  pub gas : Option (ℤ × ℤ)

-- The node, the signer and the text encoder; a transaction that the SDK cannot build is one of
-- the ways in which `dev_inspect` and `sign_and_execute` throw.
pub record Sui : Type 0 where
  pub utf8 : Text → List ℕ
  pub dev_inspect : Transaction → Text → Attempt Inspection
  pub sign_and_execute : Transaction → Attempt Text

-- `"ab".repeat(n)`
abbrev pub ab_repeat : ℕ → Text
ab_repeat zero = []
ab_repeat (suc n) = codes "ab" ++ ab_repeat n

module _ (env : Env) (config : SuiPtbConfig) where
  unfoldable pub resolve_targets : Layer5PackageTargets
  unfolding load_published_deployment_or_stub
  resolve_targets = elim (load_published_deployment_or_stub env) [
    | some published ↦ published.targets
    | none ↦ record {
      l5_package_id = config.package_id;
      l3_grid_package_id = or_else config.l3_grid_package_id config.package_id;
    }
  ]

  unfoldable pub resolve_objects : Option Layer5RedeemObjects
  unfolding load_published_deployment_or_stub
  resolve_objects = elim config.objects [
    | some objects ↦ some objects
    | none ↦ elim (load_published_deployment_or_stub env) [
      | some published ↦ some published.objects
      | none ↦ none
    ]
  ]

  unfoldable pub use_stub : Bool
  unfolding resolve_objects
  use_stub = elim config.stub [
    | some b ↦ b
    | none ↦
        is_stub_package_id config.package_id
        || elim resolve_objects [ none ↦ true | some objects ↦ false ]
  ]

  unfoldable pub build_redeem_transaction : Sui → RedemptionPlan → Attempt Transaction
  unfolding resolve_targets resolve_objects
  build_redeem_transaction sui plan = elim resolve_objects [
    | none ↦ threw objects_required
    | some objects ↦ done (
        build_layer5_redeem_ptb new_transaction resolve_targets objects (record {
          redemption_id = redemption_id_bytes sui.utf8 plan.redemption_id;
          kwh = plan.kwh_claim;
          billing_period_end_ms = pos plan.billing_period_end_ms;
          billing_period_override = false;
          usdc_equiv = pos 0;
        }))
  ]

  unfoldable pub build_redeem_ptb_steps : List Text
  unfolding resolve_targets
  build_redeem_ptb_steps =
      (resolve_targets.l5_package_id ++ codes "::redemption_orchestrator::redeem_atomic") ∷ []

  -- The result of a stub run, and of an inspection.
  abbrev pub stub_result : DryRunResult
  stub_result = record {
    success = true;
    gas_used = pos (1_000_000 + length build_redeem_ptb_steps * 2_000_000);
    effects = build_redeem_ptb_steps;
    status = none;
  }

  abbrev pub inspected_result : Inspection → DryRunResult
  inspected_result r =
      let status = or_else r.status (codes "unknown") in
      record {
        success = status === codes "success";
        gas_used = elim r.gas [ none ↦ pos 1_000_000 | some costs ↦ costs.0 +ℤ costs.1 ];
        effects = build_redeem_ptb_steps;
        status = some status;
      }

  unfoldable pub dry_run : Sui → RedemptionPlan → Attempt DryRunResult
  unfolding use_stub build_redeem_transaction
  dry_run sui plan = if use_stub then done stub_result else (do
    tx ← build_redeem_transaction sui plan
    inspection ← sui.dev_inspect tx plan.consumer
    done (inspected_result inspection))

  -- The digest of the stub is 0x with "ab" 32 times.
  unfoldable pub submit : Sui → RedemptionPlan → Attempt Text
  unfolding dry_run use_stub build_redeem_transaction
  submit sui plan = do
    dry ← dry_run sui plan
    (if not dry.success
        then threw (dry_run_failed (or_else dry.status (codes "unknown")))
        else if use_stub
        then done (codes "0x" ++ ab_repeat 32)
        else (do tx ← build_redeem_transaction sui plan; sui.sign_and_execute tx))
