-- ===== src/Settlement/Gates/Laws.antt =====
-- What a checklist that is ready says of the deployment.
use creation_of_energy_token.Prelude.Equality.{text_eq}
use creation_of_energy_token.Prelude.{
  ℕ, ◌+◌, Bool, true, false, not, List, [], ◌∷◌, ◌++◌, Text, text_Eq, codes, length, filter,
  or_else, All, ◌≡◌, refl, sym, ap, ◌∙◌, ◌==◌, arith, Option, subst,
}
use creation_of_energy_token.Prelude.Strings.{Env}
use creation_of_energy_token.Settlement.Types.{Attempt, done, threw, is_done}
use creation_of_energy_token.Settlement.Deployment.{load_published_deployment}
use creation_of_energy_token.Settlement.Deployment.Laws.{
  is_published, load_published_deployment-is_done,
}
use creation_of_energy_token.Settlement.Manifest.{is_empty}
use creation_of_energy_token.Settlement.Gates.{
  GateItem, GateChecklistResult, World, testnet_publish_keys, manifest_gates, rpc_gates,
  publish_gate, onchain_gates, settings_gates, is_fail, run_gate_checklist, status_or, fail,
  checklist_of, all_gates, asks_rpc, missing_keys,
}

abbrev fails : List GateItem → ℕ
fails gates = length (filter is_fail gates)

fails-append : (xs ys : List GateItem) → fails (xs ++ ys) ≡ fails xs + fails ys
fails-append [] ys = omega arith
fails-append (x ∷ xs) ys = ground (arith, fails-append xs ys)

none_missing :
    (p : Text → Bool) (keys : List Text)
    → is_empty (filter (λ k. not (p k)) keys) ≡ true
    → All (λ k. p k ≡ true) keys
none_missing p [] h = tt
none_missing p (k ∷ keys) h = ground (arith, none_missing p keys)

fail_unless :
    (gate : GateItem) (b : Bool) → gate.status ≡ status_or fail b → is_fail gate ≡ false → b ≡ true
fail_unless gate true same h = refl
fail_unless gate false same h = ground arith

done-injective : {A : Type 0} {a b : A} → done a ≡ done b → a ≡ b
done-injective h = cc

no_fails_in :
    (xs ys zs ws : List GateItem) (gate : GateItem)
    → (fails (((xs ++ ys) ++ gate ∷ zs) ++ ws) == 0) ≡ true
    → is_fail gate ≡ false
no_fails_in xs ys zs ws gate h = ground (
  arith,
  fails-append ((xs ++ ys) ++ gate ∷ zs) ws,
  fails-append (xs ++ ys) (gate ∷ zs),
  fails-append xs ys,
)

ready-publish_gate :
    (world : World) (env : Env) (with_rpc : Bool) (network : Text) (onchain : List GateItem)
    → (checklist_of network (all_gates world env with_rpc network onchain)).ready ≡ true
    → is_fail (publish_gate env network) ≡ false
unfolding checklist_of all_gates
ready-publish_gate world env with_rpc network onchain h =
    no_fails_in (manifest_gates world network) (rpc_gates world env with_rpc network) onchain
      (settings_gates env network) (publish_gate env network) h

run-done :
    (world : World) (env : Env) (asked : Option Bool) (onchain : List GateItem)
    → onchain_gates world env (asks_rpc env asked) ≡ done onchain
    → let network = or_else (env (codes "SUI_NETWORK")) (codes "testnet") in
      run_gate_checklist world env asked
      ≡ done (checklist_of network (all_gates world env (asks_rpc env asked) network onchain))
unfolding run_gate_checklist
run-done world env asked onchain o = rw (o, run_gate_checklist) refl

checklist_parts :
    (world : World) (env : Env) (asked : Option Bool) (r : GateChecklistResult)
    (onchain : Attempt (List GateItem))
    → onchain_gates world env (asks_rpc env asked) ≡ onchain
    → run_gate_checklist world env asked ≡ done r
    → r.ready ≡ true
    → is_fail (publish_gate env (or_else (env (codes "SUI_NETWORK")) (codes "testnet"))) ≡ false
unfolding run_gate_checklist
checklist_parts world env asked r (threw e) o h ready = ground arith
checklist_parts world env asked r (done onchain) o h ready =
    let network = or_else (env (codes "SUI_NETWORK")) (codes "testnet") in
    let same : checklist_of network (all_gates world env (asks_rpc env asked) network onchain) ≡ r =
      done-injective (sym (run-done world env asked onchain o) ∙ h) in
    ready-publish_gate world env (asks_rpc env asked) network onchain
      (ap (λ c. c.ready) same ∙ ready)

missing_keys-All :
    (env : Env)
    → is_empty (missing_keys env) ≡ true
    → All (λ key. is_published env key ≡ true) testnet_publish_keys
unfolding missing_keys
missing_keys-All env h = none_missing (is_published env) testnet_publish_keys h

publish_gate-All :
    (env : Env)
    → is_fail (publish_gate env (codes "testnet")) ≡ false
    → All (λ key. is_published env key ≡ true) testnet_publish_keys
unfolding publish_gate text_eq
publish_gate-All env h =
    missing_keys-All env
      (fail_unless (publish_gate env (codes "testnet")) (is_empty (missing_keys env)) refl h)

-- A checklist for testnet that is ready means that the published deployment loads.
pub run_gate_checklist-loads :
    (world : World) (env : Env) (asked : Option Bool) (r : GateChecklistResult)
    → run_gate_checklist world env asked ≡ done r
    → r.ready ≡ true
    → or_else (env (codes "SUI_NETWORK")) (codes "testnet") ≡ codes "testnet"
    → is_done (load_published_deployment env) ≡ true
run_gate_checklist-loads world env asked r h ready testnet = load_published_deployment-is_done env (
    publish_gate-All env (
      subst (λ n. is_fail (publish_gate env n) ≡ false) testnet
        (checklist_parts world env asked r (onchain_gates world env (asks_rpc env asked)) refl h
          ready)))
