-- ===== src/Engine/Runner/Turns/Pool.antt =====
-- The runs of one runner, which take their turns in any order.
use creation_of_energy_token.Prelude.{
  ℕ, zero, suc, ◌≡◌, List, [], ◌∷◌, Text, text_Eq, ◌===◌, Bool, true, false, not, ◌&&◌,
  if◌then◌else◌,
}
use creation_of_energy_token.Prelude.Int.{pos}
use creation_of_energy_token.Engine.Types.{ok}
use creation_of_energy_token.Engine.External.{Viem}
use creation_of_energy_token.Engine.Handoff.{compute_execution_id}
use creation_of_energy_token.Engine.Runner.State.{Setup, Runner}
use creation_of_energy_token.Engine.Runner.Turns.{Job, Wait, started, ended, turn}

-- A run and what it waits for.
abbrev pub Entry : Type 0
Entry = Job × Wait

-- The runner, which all runs share, with its runs, ended ones included.
pub record System : Type 0 where
  pub runner : Runner
  pub pool : List Entry

abbrev pub is_over : Wait → Bool
is_over (ended outcome) = true
is_over _ = false

-- What the runs of an execution that have not ended wait for.
abbrev pub active : Text → List Entry → List Wait
active id [] = []
active id ((job, w) ∷ pool) =
    if job.id === id && not (is_over w) then w ∷ active id pool else active id pool

module _ (viem : Viem) (setup : Setup) where
  -- The run at a position takes a turn.
  unfoldable pub resume_at : ℕ → List Entry → Runner → List Entry × Runner
  unfolding turn
  resume_at k [] s = ([], s)
  resume_at zero ((job, w) ∷ pool) s =
      let (w', t) = turn viem setup job w s in ((job, w') ∷ pool, t)
  resume_at (suc k) (e ∷ pool) s = let (pool', t) = resume_at k pool s in (e ∷ pool', t)

  -- A call of `run` takes its first turn at once.
  unfoldable pub launch : Job → System → System
  unfolding turn
  launch job sys =
      let (w, t) = turn viem setup job started sys.runner in
      record { runner = t; pool = (job, w) ∷ sys.pool }

  abbrev pub resumed : ℕ → System → System
  resumed k sys =
      let (pool, t) = resume_at k sys.pool sys.runner in record { runner = t; pool = pool }

  -- Runs of different executions interleave in any way; a run is called only when no run of its
  -- execution is under way.
  pub data Step (sys : System) : System → Type 0 where
    call :
        (job : Job)
        → compute_execution_id viem job.request.contract_id job.request.obligation_hash (pos 0)
          ≡ ok job.id
        → active job.id sys.pool ≡ []
        → Step sys (launch job sys)
    resume : (k : ℕ) → Step sys (resumed k sys)

  pub data Reach (sys : System) : System → Type 0 where
    here : Reach sys sys
    next : {t u : System} → Reach sys t → Step t u → Reach sys u
