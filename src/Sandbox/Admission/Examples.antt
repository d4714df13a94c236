-- ===== src/Sandbox/Admission/Examples.antt =====
-- src/sandbox/admission.rs: a budget of three units, with a semaphore that is a number.
use akiro.Prelude.{
  ℕ, ◌+◌, ◌-◌, ◌*◌, ◌≤◌, ◌≡◌, refl, ◌⊎◌, Option, none, some, [], ◌∷◌, leb, if◌then◌else◌, length,
  arith,
}
use akiro.Prelude.Text.{codes}
use akiro.Sandbox.Config.{SandboxConfig}
use akiro.Sandbox.Config
use akiro.Sandbox.Admission.{base_unit_bytes, units_for}
use akiro.Sandbox.Admission.Gate.{
  Semaphore, Gate, budget, let_in, line_up, Steps, asks, admits, rest, then_one,
}
use akiro.Sandbox.Admission.Budget.{units, memory, budget_keeps}
use akiro.Sandbox.Admission.Line.{line_moves}

abbrev take_permits : ℕ → ℕ → Option ℕ
take_permits n free = if leb n free then some (free - n) else none

takes : (n s t : ℕ) → take_permits n s ≡ some t → t + n ≡ s
takes n s t h = ground arith

serves : (n s : ℕ) → n ≤ s → (t : ℕ) × (take_permits n s ≡ some t)
serves n s h = (s - n, ground arith)

abbrev counter : Semaphore ℕ
counter = record {
  with_permits = λ n. n;
  available = λ s. s;
  acquire_many = take_permits;
  drop_permits = λ n s. s + n;
  available-with_permits = λ n. refl;
  acquire_many-takes = takes;
  acquire_many-serves = serves;
  available-drop_permits = λ n s. refl;
}

-- 512 MiB, and more than the budget.
abbrev large : SandboxConfig
large = record (Config.new (codes "/bin/large")) { memory_limit_bytes = 536870912 }

abbrev huge : SandboxConfig
huge = record (Config.new (codes "/bin/huge")) { memory_limit_bytes = 1073741824 }

abbrev asked : Gate ℕ
asked = line_up huge (line_up large (budget counter 3))

abbrev one_runs : Gate ℕ
one_runs = let_in large (huge ∷ []) 1 asked

one_runs-Steps : Steps counter 3 1073741824 (budget counter 3) one_runs
unfolding budget units_for
one_runs-Steps =
    then_one (then_one (then_one rest (asks large (omega arith))) (asks huge (omega arith)))
      (admits large (huge ∷ []) 1 refl refl)

budget_keeps_example :
    (counter.available one_runs.permits + units 3 one_runs.running ≡ 3)
    × ((memory one_runs.running ≤ 3 * base_unit_bytes) ⊎ (length one_runs.running ≡ 1))
budget_keeps_example =
    budget_keeps counter 3 1073741824 (omega arith) (omega arith) (omega arith) one_runs-Steps

line_moves_example :
    (h : Gate ℕ) × Steps counter 3 1073741824 one_runs h
    × (h.waiting ≡ [])
    × (h.running ≡ huge ∷ [])
unfolding let_in
line_moves_example =
    line_moves counter 3 1073741824 huge [] (omega arith) (omega arith) (omega arith) one_runs-Steps
      refl
