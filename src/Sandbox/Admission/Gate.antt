-- ===== src/Sandbox/Admission/Gate.antt =====
-- src/sandbox/admission.rs and src/sandbox/mod.rs: the runs of a judge before its memory budget.
-- tokio's semaphore is a parameter, and so are the times at which a run is given up or ends.
use akiro.Prelude.{ℕ, ◌+◌, ◌≤◌, ◌≡◌, Option, some, List, [], ◌∷◌, ◌++◌}
use akiro.Sandbox.Config.{SandboxConfig}
use akiro.Sandbox.Admission.{units_for}

-- `acquire_many` is what `acquire_many_owned` waits for: an answer for the first in line, whom
-- enough permits serve; and the drop of what it answered.
pub record Semaphore (S : Type 0) : Type 0 where
  pub with_permits : ℕ → S
  pub available : S → ℕ
  pub acquire_many : ℕ → S → Option S
  pub drop_permits : ℕ → S → S
  pub available-with_permits : (n : ℕ) → available (with_permits n) ≡ n
  pub acquire_many-takes :
      (n : ℕ) (s t : S) → acquire_many n s ≡ some t → available t + n ≡ available s
  pub acquire_many-serves :
      (n : ℕ) (s : S) → n ≤ available s → (t : S) × (acquire_many n s ≡ some t)
  pub available-drop_permits : (n : ℕ) (s : S) → available (drop_permits n s) ≡ available s + n

pub record Gate (S : Type 0) : Type 0 where
  pub permits : S
  -- The runs in line, the first one first, and those past their admission.
  pub waiting : List SandboxConfig
  pub running : List SandboxConfig

module _ {S : Type 0} where
  abbrev pub line_up : SandboxConfig → Gate S → Gate S
  line_up config g = record g { waiting = g.waiting ++ (config ∷ []) }

  abbrev pub give_up : List SandboxConfig → Gate S → Gate S
  give_up others g = record g { waiting = others }

  unfoldable pub let_in : SandboxConfig → List SandboxConfig → S → Gate S → Gate S
  let_in config others permits g = record g {
    permits = permits;
    waiting = others;
    running = config ∷ g.running;
  }

module _ {S : Type 0} (semaphore : Semaphore S) (total : ℕ) where
  -- `budget`, at its first use.
  unfoldable pub budget : Gate S
  budget = record { permits = semaphore.with_permits total; waiting = []; running = [] }

  abbrev pub units_of : SandboxConfig → ℕ
  units_of config = units_for total config.memory_limit_bytes

  unfoldable pub end_run : SandboxConfig → List SandboxConfig → Gate S → Gate S
  end_run config others g = record g {
    permits = semaphore.drop_permits (units_of config) g.permits;
    running = others;
  }

  -- The runs of a judge whose ceilings keep the memory of a run within `ceiling`.
  pub data Step (ceiling : ℕ) : Gate S → Gate S → Type 0 where
    asks :
        {g : Gate S} (config : SandboxConfig)
        → config.memory_limit_bytes ≤ ceiling
        → Step ceiling g (line_up config g)
    gives_up :
        {g : Gate S} (before after : List SandboxConfig) (config : SandboxConfig)
        → g.waiting ≡ before ++ (config ∷ after)
        → Step ceiling g (give_up (before ++ after) g)
    admits :
        {g : Gate S} (config : SandboxConfig) (others : List SandboxConfig) (permits : S)
        → g.waiting ≡ config ∷ others
        → semaphore.acquire_many (units_of config) g.permits ≡ some permits
        → Step ceiling g (let_in config others permits g)
    leaves :
        {g : Gate S} (before after : List SandboxConfig) (config : SandboxConfig)
        → g.running ≡ before ++ (config ∷ after)
        → Step ceiling g (end_run config (before ++ after) g)

  pub data Steps (ceiling : ℕ) : Gate S → Gate S → Type 0 where
    rest : {g : Gate S} → Steps ceiling g g
    then_one : {g h k : Gate S} → Steps ceiling g h → Step ceiling h k → Steps ceiling g k
