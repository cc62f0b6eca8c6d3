-- ===== src/Settlement/Deployment/Laws.antt =====
-- When the deployment of the environment loads.
use creation_of_energy_token.Settlement.Gates.{testnet_publish_keys}
use creation_of_energy_token.Prelude.{
  Bool, true, false, Option, none, some, Text, ◌≡◌, refl, codes, arith, [], ◌∷◌, All,
}
use creation_of_energy_token.Prelude.Strings.{Env, trim, trimmed}
use creation_of_energy_token.Settlement.Types.{Attempt, done, threw, is_done, ◌>>=◌}
use creation_of_energy_token.Settlement.Deployment.{
  nonempty, env_value, required, load_objects, load_published_deployment,
}

abbrev pub has_value {ℓ} : {A : Type ℓ} → Option A → Bool
has_value none = false
has_value (some a) = true

-- A text that is not empty when trimmed is not empty.
pub nonempty_of_trimmed :
    (o : Option Text) → has_value (trimmed o) ≡ true → has_value (nonempty o) ≡ true
unfolding trimmed trim
nonempty_of_trimmed none h = h
nonempty_of_trimmed (some []) h = h
nonempty_of_trimmed (some (c ∷ s)) h = refl

required-is_done :
    (env : Env) (key : Text)
    → has_value (trimmed (env key)) ≡ true
    → is_done (required env key) ≡ true
unfolding required env_value
required-is_done env key h = ground (arith, nonempty_of_trimmed (env key) h)

bind-is_done :
    {A B : Type 0} (r : Attempt A) (f : A → Attempt B)
    → is_done r ≡ true
    → ((a : A) → is_done (f a) ≡ true)
    → is_done (r >>= f) ≡ true
bind-is_done (done a) f h k = k a
bind-is_done (threw e) f h k = h

-- Whether a variable is set to more than white space.
abbrev pub is_published : Env → Text → Bool
is_published env key = has_value (trimmed (env key))

step :
    {A : Type 0} (env : Env) (key : Text) (f : Text → Attempt A)
    → is_published env key ≡ true
    → ((v : Text) → is_done (f v) ≡ true)
    → is_done (required env key >>= f) ≡ true
step env key f h k = bind-is_done (required env key) f (required-is_done env key h) k

load_objects-is_done :
    (env : Env)
    → is_published env (codes "L5_TREASURY_GUARD_ID") ≡ true
    → is_published env (codes "L5_ENERGY_BATCH_ID") ≡ true
    → is_published env (codes "L5_ENERGY_COIN_ID") ≡ true
    → is_published env (codes "L5_ENERGY_METER_ID") ≡ true
    → is_published env (codes "L5_COMPLIANCE_REGISTRY_ID") ≡ true
    → is_published env (codes "L5_JURISDICTION_POLICY_ID") ≡ true
    → is_published env (codes "L5_REDEMPTION_REGISTRY_ID") ≡ true
    → is_published env (codes "L5_GRID_OPERATOR_CAP_ID") ≡ true
    → is_published env (codes "L5_BILLING_OPERATOR_CAP_ID") ≡ true
    → is_published env (codes "L5_GRID_SETTLEMENT_LEDGER_ID") ≡ true
    → is_done (load_objects env) ≡ true
unfolding load_objects
load_objects-is_done env a b c d e f g h i j = step env _ _ a λ _. step env _ _ b λ _.
    step env _ _ c λ _. step env _ _ d λ _. step env _ _ e λ _.
      step env _ _ f
        λ _. step env _ _ g λ _. step env _ _ h λ _. step env _ _ i λ _. step env _ _ j λ _. refl

-- With the twelve variables set, the deployment loads.
pub load_published_deployment-is_done :
    (env : Env)
    → All (λ key. is_published env key ≡ true) testnet_publish_keys
    → is_done (load_published_deployment env) ≡ true
unfolding load_published_deployment
load_published_deployment-is_done env
      (l5, (grid, (a, (b, (c, (d, (e, (f, (g, (h, (i, (j, _)))))))))))) =
    step env _ _ l5 λ _. step env _ _ grid λ _.
      bind-is_done (load_objects env) _ (load_objects-is_done env a b c d e f g h i j) λ _. refl
