-- ===== src/Sandbox/Admission/Line.antt =====
-- src/sandbox/admission.rs: the line before the budget moves on.
use akiro.Prelude.{ℕ, ◌+◌, ◌≤◌, ◌<◌, ◌≡◌, refl, subst, ◌∙◌, List, [], ◌∷◌, All, ap, arith}
use akiro.Prelude.Word.{u64_max}
use akiro.Sandbox.Config.{SandboxConfig}
use akiro.Sandbox.Admission.{base_unit_bytes}
use akiro.Sandbox.Admission.Units.{units_for_bounds}
use akiro.Sandbox.Admission.Gate.{
  Semaphore, Gate, budget, units_of, let_in, end_run, Step, Steps, admits, leaves, rest, then_one,
}
use akiro.Sandbox.Admission.Budget.{Within, units, Steps-Kept, budget-Kept}

module _ {S : Type 0} (semaphore : Semaphore S) (total : ℕ) where
  first_one :
      (ceiling : ℕ) {g h k : Gate S}
      → Step semaphore total ceiling g h
      → Steps semaphore total ceiling h k
      → Steps semaphore total ceiling g k
  first_one ceiling s rest = then_one rest s
  first_one ceiling s (then_one t last) = then_one (first_one ceiling s t) last

  Emptied : ℕ → Gate S → Type 0
  Emptied ceiling g =
      (h : Gate S) × Steps semaphore total ceiling g h × (h.running ≡ []) × (h.waiting ≡ g.waiting)

  running_ends :
      (ceiling : ℕ) (configs : List SandboxConfig) (g : Gate S)
      → g.running ≡ configs
      → Emptied ceiling g
  unfolding Emptied end_run
  running_ends ceiling [] g e = (g, rest, e, refl)
  running_ends ceiling (config ∷ configs) g e =
      let (h, steps, none_left, line) =
        running_ends ceiling configs (end_run semaphore total config configs g) refl in
      (h, first_one ceiling (leaves [] configs config e) steps, none_left, line)

  -- In whatever state the runs came to, the first in line is admitted once those that run have
  -- ended, even if it asks for more memory than the budget has, and the others move up.
  pub line_moves :
      (ceiling : ℕ) {g : Gate S} (config : SandboxConfig) (others : List SandboxConfig)
      → 1 ≤ total
      → total < 4294967296
      → ceiling + base_unit_bytes ≤ u64_max
      → Steps semaphore total ceiling (budget semaphore total) g
      → g.waiting ≡ config ∷ others
      → (h : Gate S) × Steps semaphore total ceiling g h
        × (h.waiting ≡ others)
        × (h.running ≡ config ∷ [])
  unfolding Emptied let_in
  line_moves ceiling {g} config others small k c steps e =
      let (h, ends, none_left, line) = running_ends ceiling g.running g refl in
      let (w, r, free) =
        Steps-Kept semaphore total ceiling ends
          (Steps-Kept semaphore total ceiling steps (budget-Kept semaphore total ceiling)) in
      let all_free =
        subst (λ l. semaphore.available h.permits + units total l ≡ total) none_left free in
      let (m, _) = subst (All (Within ceiling)) (line ∙ e) w in
      let (_, most, _, _) =
        units_for_bounds total config.memory_limit_bytes small k (omega arith) in
      let (permits, taken) =
        semaphore.acquire_many-serves (units_of semaphore total config) h.permits (omega arith) in
      (
        let_in config others permits h,
        then_one ends (admits config others permits (line ∙ e) taken),
        refl,
        ap (λ l. config ∷ l) none_left,
      )
