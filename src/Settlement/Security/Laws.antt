-- ===== src/Settlement/Security/Laws.antt =====
-- How many calls the rate limiter lets through in a window.
use creation_of_energy_token.Prelude.{
  ℕ, ◌+◌, ◌-◌, ◌<◌, min, List, [], ◌∷◌, some, Text, text_Eq, ◌===◌, ◌≡◌, refl, sym, leb,
  if◌then◌else◌, All, arith, Bool-cases, inl, inr, subst, ◌∙◌,
}
use creation_of_energy_token.Prelude.Dict.{get, get-set_self, get-set_ne}
use creation_of_energy_token.Settlement.Security.{Bucket, Buckets, current_bucket, check_rate_limit}

-- Calls of `checkRateLimit`, each with its address and its time, under one limit; how many of
-- those from an address were let through.
abbrev pub accepted_calls : Text → ℕ → List (Text × ℕ) → Buckets → ℕ
accepted_calls ip limit [] buckets = 0
accepted_calls ip limit ((from, now) ∷ calls) buckets =
    let (accepted, buckets') = check_rate_limit from limit now buckets in
    (if from === ip then (if accepted then 1 else 0) else 0)
    + accepted_calls ip limit calls buckets'

abbrev pub calls_from : Text → List (Text × ℕ) → ℕ
calls_from ip [] = 0
calls_from ip ((from, now) ∷ calls) = (if from === ip then 1 else 0) + calls_from ip calls

-- Every call from the address comes before a time.
abbrev pub Before : Text → ℕ → List (Text × ℕ) → Type 0
Before ip reset_at calls = All (λ c. c.0 ≡ ip → c.1 < reset_at) calls

same_bucket : (now : ℕ) (b : Bucket) → now < b.reset_at → current_bucket now (some b) ≡ b
same_bucket now b h = ground arith

-- The bucket of an address after a call of its own in its window, and after another's.
bucket_own :
    (ip : Text) (limit now : ℕ) (b : Bucket) (buckets : Buckets)
    → get ip buckets ≡ some b
    → now < b.reset_at
    → let t = check_rate_limit ip limit now buckets in
      (t.0 ≡ leb (b.count + 1) limit) × (get ip t.1 ≡ some (record b { count = b.count + 1 }))
unfolding check_rate_limit
bucket_own ip limit now b buckets h before =
    rw (h, same_bucket now b before) (refl, get-set_self ip _ buckets)

bucket_other :
    (ip from : Text) (limit now : ℕ) (buckets : Buckets)
    → (from ≡ ip → ⊥)
    → get ip (check_rate_limit from limit now buckets).1 ≡ get ip buckets
unfolding check_rate_limit
bucket_other ip from limit now buckets ne = get-set_ne from ip _ buckets ne

-- Let an address have a bucket, and let calls of any addresses follow, its own all within the
-- bucket's window. Then as many of its calls are let through as the bucket still allows, or all of
-- them where they are fewer; calls of other addresses make no difference.
pub check_rate_limit-accepts :
    (ip : Text) (limit : ℕ) (calls : List (Text × ℕ)) (b : Bucket) (buckets : Buckets)
    → get ip buckets ≡ some b
    → Before ip b.reset_at calls
    → accepted_calls ip limit calls buckets ≡ min (calls_from ip calls) (limit - b.count)
check_rate_limit-accepts ip limit [] b buckets h before = omega arith
check_rate_limit-accepts ip limit ((from, now) ∷ calls) b buckets h (first, before) =
    elim (Bool-cases (from === ip)) [
      | inl e ↦
          let same : from ≡ ip = (text_Eq.beq_iff from ip).0 e in
          let (accepted, after) =
            bucket_own from limit now b buckets (subst (λ f. get f buckets ≡ some b) (sym same) h)
              (first same) in
          let rest =
            check_rate_limit-accepts ip limit calls (record b { count = b.count + 1 })
              (check_rate_limit from limit now buckets).1
              (subst
                (λ f.
                  get f (check_rate_limit from limit now buckets).1
                  ≡ some (record b { count = b.count + 1 }))
                same after)
              before in
          rw (e, accepted) (ground (arith, rest))
      | inr e ↦
          let rest =
            check_rate_limit-accepts ip limit calls b (check_rate_limit from limit now buckets).1
              (bucket_other ip from limit now buckets
                  (λ same. ground (arith, text_Eq.beq_iff from ip))
                ∙ h)
              before in
          rw e (omega (arith, rest))
    ]
