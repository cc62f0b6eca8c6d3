-- ===== src/Tests/Service.antt =====
-- The settlement service and its parts at concrete inputs.
use creation_of_energy_token.Prelude.{
  take_out, ◌≡◌, ◌↔◌, refl, true, false, [], ◌∷◌, map, some, codes,
}
use creation_of_energy_token.Prelude.Int.{pos}
use creation_of_energy_token.Settlement.Types.{is_done}
use creation_of_energy_token.Settlement.Planner.{plan_redemption}
use creation_of_energy_token.Settlement.Planner.Laws.{CanPlan, plan_redemption-CanPlan_iff}
use creation_of_energy_token.Settlement.PtbClient.{RedemptionPlan}
use creation_of_energy_token.Settlement.Grid.{ErpPost, ErpResponse}
use creation_of_energy_token.Settlement.Grid.Laws.{
  count_posts, Remembers, run_events, run_events-posts,
}
use creation_of_energy_token.Settlement.Grid.{Syncing, called, answered, sync_step}
use creation_of_energy_token.Settlement.Service.{process}
use creation_of_energy_token.Settlement.Service.Laws.{
  acknowledges, is_settled, step_of, apply_steps, view, plan_for, process_all, process_all-refines,
  process-acknowledges_iff,
}
use creation_of_energy_token.Pipeline.Full.{new_service, new_orchestrator}
use creation_of_energy_token.Tests.Site.{
  test_site, test_planning, test_inputs, test_result, test_process,
}

-- The same execution is processed twice.
process_all-refines_example :
    let t = process_all test_site (test_process ∷ test_process ∷ []) new_service in
    (map acknowledges t.0
      ≡ is_settled (step_of test_site test_process)
        ∷ is_settled (step_of test_site test_process)
        ∷ [])
    × (view t.1
        ≡ apply_steps
            (step_of test_site test_process ∷ step_of test_site test_process ∷ [])
            (view new_service))
process_all-refines_example =
    process_all-refines test_site (test_process ∷ test_process ∷ []) new_service

process-acknowledges_iff_example :
    (acknowledges (process test_site test_inputs test_result test_process.options new_service).0
      ≡ true)
    ↔ ((true ≡ true) × (true ≡ true) × CanPlan test_site (plan_for test_process))
process-acknowledges_iff_example = process-acknowledges_iff test_site test_process new_service

-- A balance that does not cover the claim.
abbrev poor_plan : RedemptionPlan
poor_plan = record {
  redemption_id = codes "r";
  consumer = codes "0x1";
  kwh_claim = pos 2;
  coin_balance_micro = pos 2;
  batch_kwh = pos 2;
  batch_redeemed = false;
  billing_period_end_ms = 1;
}

plan_redemption-CanPlan_iff_example :
    (is_done (plan_redemption test_site test_planning poor_plan new_orchestrator).0 ≡ true)
    ↔ CanPlan test_site poor_plan
plan_redemption-CanPlan_iff_example =
    plan_redemption-CanPlan_iff test_site test_planning poor_plan new_orchestrator

abbrev test_post : ErpPost
test_post = record {
  api_url = codes "u";
  idempotency_key = codes "k";
  note = record { consumer = codes "c"; kwh = pos 1; redemption_id = codes "k"; memo = codes "m" };
}

abbrev taken : ErpResponse
taken = record { ok = true; status = 200; request_id = some (codes "q") }

-- Two calls for one key overlap: the ERP takes both; a third call finds the key remembered.
abbrev overlapping : Syncing
overlapping = record {
  client = record { delivered = []; posts = test_post ∷ test_post ∷ [] };
  waiting = test_post ∷ test_post ∷ [];
}

second_waits : take_out 1 overlapping.waiting ≡ some (test_post, test_post ∷ [])
second_waits = refl

run_events-posts_example :
    let later =
      run_events
        (called test_post ∷ answered 0 (some taken) ∷ called test_post ∷ [])
        (sync_step (answered 1 (some taken)) overlapping) in
    (count_posts (test_post.idempotency_key) later.client.posts
      ≡ count_posts (test_post.idempotency_key) overlapping.client.posts)
    × Remembers (test_post.idempotency_key) later.client
run_events-posts_example =
    run_events-posts 1 test_post (test_post ∷ []) taken
      (called test_post ∷ answered 0 (some taken) ∷ called test_post ∷ []) overlapping second_waits
      refl
