-- ===== src/Engine/Runner/Turns/Interleaved.antt =====
-- Where runs of one execution do not overlap, no execution is handed over twice, however the runs
-- of different executions interleave.
use creation_of_energy_token.Engine.Runner.{PipelineRunOutcome}
use mathlib.Core.Path.{ap₂}
use creation_of_energy_token.Prelude.{
  ℕ, zero, suc, ◌≡◌, ◌⊎◌, refl, sym, ap, ◌∙◌, subst, inl, inr, true, false, List, [], ◌∷◌, ◌++◌,
  Text, text_Eq, text_eq_iff, ◌===◌, ===_refl, ===_ne, Bool-cases, includes, arith, if◌then◌else◌,
}
use creation_of_energy_token.Prelude.Sets.{Distinct}
use creation_of_energy_token.Engine.External.{Viem}
use creation_of_energy_token.Engine.Idempotency.Laws.{status_of, blocks}
use creation_of_energy_token.Engine.Runner.State.{Setup, Runner}
use creation_of_energy_token.Engine.Runner.Guarding.{IsBlocked}
use creation_of_energy_token.Engine.Runner.Once.{handed_ids, HandedOnce, All-fresh}
use creation_of_energy_token.Engine.Runner.Turns.{Job, Wait, started, ended, turn}
use creation_of_energy_token.Engine.Runner.Turns.Preparing.{Stage, early, late, last, over, stage}
use creation_of_energy_token.Engine.Runner.Turns.Apart.{
  sees, Held, Keeps, started-Held, turn-Held, turn-Distinct, launch-Distinct, turn-Keeps,
}
use creation_of_energy_token.Engine.Runner.Turns.Pool.{
  Entry, System, is_over, active, resume_at, launch, resumed, Step, call, resume, Reach, here, next,
}

-- What holds of an execution, by what its runs wait for: one run of it at most is under way.
abbrev Fits : Text → List Wait → Runner → Type 0
Fits x [] s = Held over s x
Fits x (w ∷ []) s = Held (stage w) s x
Fits x (w ∷ v ∷ ws) s = ⊥

record IsApart (sys : System) : Type 0 where
  distinct : Distinct (handed_ids sys.runner)
  fits : (x : Text) → Fits x (active x sys.pool) sys.runner

Held-Keeps : (st : Stage) (s t : Runner) (x : Text) → Keeps x s t → Held st s x → Held st t x
Held-Keeps early s t x k h = k.seen ∙ h
Held-Keeps late s t x k h = (k.seen ∙ h.0, rw k.status h.1)
Held-Keeps last s t x k h = rw k.status h
Held-Keeps over s t x k h = rw (k.status, k.seen) h

Held-IsBlocked :
    (st : Stage) (s : Runner) (x : Text) → Held st s x → sees s x ≡ true → IsBlocked s.guard x
Held-IsBlocked early s x h seen = absurd (ground arith)
Held-IsBlocked late s x h seen = h.1
Held-IsBlocked last s x h seen = h
Held-IsBlocked over s x h seen = h seen

Fits-Keeps : (ws : List Wait) (s t : Runner) (x : Text) → Keeps x s t → Fits x ws s → Fits x ws t
Fits-Keeps [] s t x k h = Held-Keeps over s t x k h
Fits-Keeps (w ∷ []) s t x k h = Held-Keeps (stage w) s t x k h
Fits-Keeps (w ∷ v ∷ ws) s t x k h = h

active-append : (x : Text) (xs ys : List Entry) → active x (xs ++ ys) ≡ active x xs ++ active x ys
active-append x [] ys = refl
active-append x ((job, w) ∷ xs) ys = ground (arith, active-append x xs ys)

-- One run among others is all that is under way of its execution.
Fits-middle :
    (x : Text) (xs : List Wait) (w : Wait) (ys : List Wait) (s : Runner)
    → Fits x (xs ++ w ∷ ys) s
    → (xs ≡ []) × (ys ≡ []) × Held (stage w) s x
Fits-middle x [] w [] s h = (refl, refl, h)
Fits-middle x [] w (y ∷ ys) s h = absurd h
Fits-middle x (v ∷ []) w ys s h = absurd h
Fits-middle x (v ∷ u ∷ xs) w ys s h = absurd h

-- A run at the head of the others.
abbrev with_run : Wait → List Wait → List Wait
with_run w ws = if is_over w then ws else w ∷ ws

active-own :
    (job : Job) (w : Wait) (pool : List Entry)
    → active job.id ((job, w) ∷ pool) ≡ with_run w (active job.id pool)
active-own job w pool = ground (arith, ===_refl job.id)

active-other :
    (job : Job) (w : Wait) (pool : List Entry) (x : Text)
    → (job.id ≡ x → ⊥)
    → active x ((job, w) ∷ pool) ≡ active x pool
active-other job w pool x ne = ground (arith, ===_ne job.id x ne)

Fits-alone : (x : Text) (w : Wait) (s : Runner) → Held (stage w) s x → Fits x (with_run w []) s
Fits-alone x (ended outcome) s h = h
Fits-alone x w s h = h

module _ (viem : Viem) (setup : Setup) where
  -- A turn changes one entry of the pool, or there is none at the position.
  resume_at-cases :
      (k : ℕ) (pool : List Entry) (s : Runner)
      → (resume_at viem setup k pool s ≡ (pool, s))
        ⊎ ((before : List Entry) × (job : Job) × (w : Wait) × (rest : List Entry) × (pool
              ≡ before ++ (job, w) ∷ rest)
            × (resume_at viem setup k pool s ≡ (
              before ++ (job, (turn viem setup job w s).0) ∷ rest,
              (turn viem setup job w s).1,
            )))
  unfolding resume_at
  resume_at-cases k [] s = inl refl
  resume_at-cases zero ((job, w) ∷ pool) s = inr ([], job, w, pool, refl, refl)
  resume_at-cases (suc k) (e ∷ pool) s = elim (resume_at-cases k pool s) [
    | inl same ↦ inl (ap (λ r. (e ∷ r.0, r.1)) same)
    | inr (before, job, w, rest, at, moved) ↦
        inr (e ∷ before, job, w, rest, ap (λ l. e ∷ l) at, ap (λ r. (e ∷ r.0, r.1)) moved)
  ]

  module _ (before rest : List Entry) (job : Job) (s : Runner) where
    abbrev entries : Wait → List Entry
    entries w = before ++ (job, w) ∷ rest

    abbrev own_waits : Wait → List Wait
    own_waits w = active job.id before ++ with_run w (active job.id rest)

    entries-own : (w : Wait) → active job.id (entries w) ≡ own_waits w
    entries-own w =
        active-append job.id before ((job, w) ∷ rest)
        ∙ ap (λ l. active job.id before ++ l) (active-own job w rest)

    entries-other :
        (w v : Wait) (x : Text) → (job.id ≡ x → ⊥) → active x (entries w) ≡ active x (entries v)
    entries-other w v x ne =
        active-append x before ((job, w) ∷ rest)
        ∙ ap (λ l. active x before ++ l)
            (active-other job w rest x ne ∙ sym (active-other job v rest x ne))
        ∙ sym (active-append x before ((job, v) ∷ rest))

    -- A run that is under way is the only one of its execution.
    only_run :
        (w : Wait)
        → is_over w ≡ false
        → IsApart (record { runner = s; pool = entries w })
        → (active job.id before ≡ []) × (active job.id rest ≡ []) × Held (stage w) s job.id
    only_run w going h = Fits-middle job.id (active job.id before) w (active job.id rest) s (
        subst (λ l. Fits job.id l s)
          (entries-own w
            ∙ ap
                (λ b.
                  active job.id before
                  ++ (if b then active job.id rest else w ∷ active job.id rest))
                going)
          (h.fits job.id))

    Fits-own :
        (w v : Wait) (t : Runner)
        → (active job.id before ≡ []) × (active job.id rest ≡ [])
        → Held (stage v) t job.id
        → Fits job.id (active job.id (entries v)) t
    Fits-own w v t (none_before, none_after) held =
        subst (λ l. Fits job.id l t)
          (sym (entries-own v ∙ ap₂ (λ l r. l ++ with_run v r) none_before none_after))
          (Fits-alone job.id v t held)

    turn-IsApart :
        (w : Wait)
        → is_over w ≡ false
        → IsApart (record { runner = s; pool = entries w })
        → IsApart (record {
          runner = (turn viem setup job w s).1;
          pool = entries (turn viem setup job w s).0;
        })
    turn-IsApart w going h =
        let (none_before, none_after, held) = only_run w going h in
        let v = (turn viem setup job w s).0 in
        let t = (turn viem setup job w s).1 in
        record {
          distinct = turn-Distinct viem setup job s w held h.distinct;
          fits = λ x. elim (Bool-cases (job.id === x)) [
            | inl e ↦
                subst (λ y. Fits y (active y (entries v)) t) ((text_eq_iff job.id x).0 e)
                  (Fits-own w v t (none_before, none_after) (turn-Held viem setup job s w held))
            | inr e ↦
                let ne : job.id ≡ x → ⊥ = λ same. ground (arith, text_eq_iff job.id x) in
                subst (λ l. Fits x l t) (sym (entries-other v w x ne))
                  (Fits-Keeps (active x (entries w)) s t x (turn-Keeps viem setup job s w x ne)
                    (h.fits x))
          ];
        }

    ended-IsApart :
        (outcome : PipelineRunOutcome)
        → IsApart (record { runner = s; pool = entries (ended outcome) })
        → IsApart (record {
          runner = (turn viem setup job (ended outcome) s).1;
          pool = entries (turn viem setup job (ended outcome) s).0;
        })
    unfolding turn
    ended-IsApart outcome h = h

    any_turn-IsApart :
        (w : Wait)
        → IsApart (record { runner = s; pool = entries w })
        → IsApart (record {
          runner = (turn viem setup job w s).1;
          pool = entries (turn viem setup job w s).0;
        })
    any_turn-IsApart (ended outcome) h = ended-IsApart outcome h
    any_turn-IsApart w h = turn-IsApart w refl h

  resume-IsApart : (k : ℕ) (sys : System) → IsApart sys → IsApart (resumed viem setup k sys)
  resume-IsApart k sys h = elim (resume_at-cases k sys.pool sys.runner) [
    | inl same ↦ subst (λ r. IsApart (record { runner = r.1; pool = r.0 })) (sym same) h
    | inr (before, job, w, rest, at, moved) ↦
        subst (λ r. IsApart (record { runner = r.1; pool = r.0 })) (sym moved)
          (any_turn-IsApart before rest job sys.runner w
            (subst (λ l. IsApart (record { runner = sys.runner; pool = l })) at h))
  ]

  launch-IsApart :
      (job : Job) (sys : System)
      → active job.id sys.pool ≡ []
      → IsApart sys
      → IsApart (launch viem setup job sys)
  unfolding launch
  launch-IsApart job sys free h =
      let s = sys.runner in
      let w = (turn viem setup job started s).0 in
      let t = (turn viem setup job started s).1 in
      let held : Held over s job.id = subst (λ l. Fits job.id l s) free (h.fits job.id) in
      record {
        distinct = launch-Distinct viem setup job s h.distinct;
        fits = λ x. elim (Bool-cases (job.id === x)) [
          | inl e ↦
              subst (λ y. Fits y (active y ((job, w) ∷ sys.pool)) t) ((text_eq_iff job.id x).0 e)
                (subst (λ l. Fits job.id l t)
                  (sym (active-own job w sys.pool ∙ ap (with_run w) free))
                  (Fits-alone job.id w t (started-Held viem setup job s held)))
          | inr e ↦
              let ne : job.id ≡ x → ⊥ = λ same. ground (arith, text_eq_iff job.id x) in
              subst (λ l. Fits x l t) (sym (active-other job w sys.pool x ne))
                (Fits-Keeps (active x sys.pool) s t x (turn-Keeps viem setup job s started x ne)
                  (h.fits x))
        ];
      }

  Step-IsApart :
      {sys next_sys : System} → Step viem setup sys next_sys → IsApart sys → IsApart next_sys
  Step-IsApart {sys} (call job id free) h = launch-IsApart job sys free h
  Step-IsApart {sys} (resume k) h = resume-IsApart k sys h

  Reach-IsApart :
      {sys reached : System} → Reach viem setup sys reached → IsApart sys → IsApart reached
  Reach-IsApart here h = h
  Reach-IsApart (next r st) h = Step-IsApart st (Reach-IsApart r h)

  handed-IsBlocked : (s : Runner) (x : Text) → HandedOnce s → sees s x ≡ true → IsBlocked s.guard x
  handed-IsBlocked s x h seen = elim (Bool-cases (blocks (status_of s.guard x))) [
    | inl blocked ↦ blocked
    | inr open_to ↦
        let unseen =
          All-fresh (IsBlocked s.guard) (handed_ids s) x h.blocked (λ blocked. ground arith) in
        ground arith
  ]

  HandedOnce-IsApart : (s : Runner) → HandedOnce s → IsApart (record { runner = s; pool = [] })
  HandedOnce-IsApart s h = record {
    distinct = h.distinct;
    fits = λ x seen. handed-IsBlocked s x h seen;
  }

  Fits-IsBlocked :
      (x : Text) (ws : List Wait) (s : Runner) → Fits x ws s → sees s x ≡ true → IsBlocked s.guard x
  Fits-IsBlocked x [] s h seen = h seen
  Fits-IsBlocked x (w ∷ []) s h seen = Held-IsBlocked (stage w) s x h seen
  Fits-IsBlocked x (w ∷ v ∷ ws) s h seen = absurd h

  -- Let no run be under way, and let layer 5 have been handed no execution twice and those that it
  -- was handed be blocked. Whatever runs are then called and in whatever order they take their
  -- turns, if no run of an execution is called while another of it is under way, layer 5 is handed
  -- no execution twice, and those that it was handed are blocked.
  pub Reach-Distinct :
      {s : Runner} {reached : System}
      → HandedOnce s
      → Reach viem setup (record { runner = s; pool = [] }) reached
      → Distinct (handed_ids reached.runner)
        × ((x : Text)
            → includes (handed_ids reached.runner) x ≡ true
            → IsBlocked reached.runner.guard x)
  Reach-Distinct {s} {reached} h r =
      let apart = Reach-IsApart r (HandedOnce-IsApart s h) in
      (
        apart.distinct,
        λ x seen. Fits-IsBlocked x (active x reached.pool) reached.runner (apart.fits x) seen,
      )
