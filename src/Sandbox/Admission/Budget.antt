-- ===== src/Sandbox/Admission/Budget.antt =====
-- src/sandbox/admission.rs: what the budget ensures, whatever the order of the runs.
use akiro.Prelude.{
  ℕ, ◌+◌, ◌*◌, ◌≤◌, ◌<◌, ◌≡◌, subst, ◌⊎◌, inl, inr, List, [], ◌∷◌, ◌++◌, All, All-append,
  Bool-cases, ltb, length, arith,
}
use akiro.Prelude.Word.{u64_max}
use akiro.Sandbox.Config.{SandboxConfig}
use akiro.Sandbox.Admission.{base_unit_bytes, units_for}
use akiro.Sandbox.Admission.Units.{units_for_bounds}
use akiro.Sandbox.Admission.Gate.{
  Semaphore, Gate, budget, units_of, let_in, end_run, Step, Steps, asks, gives_up, admits, leaves,
  rest, then_one,
}

abbrev pub memory : List SandboxConfig → ℕ
memory [] = 0
memory (config ∷ configs) = config.memory_limit_bytes + memory configs

abbrev pub units : ℕ → List SandboxConfig → ℕ
units total [] = 0
units total (config ∷ configs) = units_for total config.memory_limit_bytes + units total configs

abbrev pub Within : ℕ → SandboxConfig → Type 0
Within ceiling config = config.memory_limit_bytes ≤ ceiling

units-append :
    (total : ℕ) (xs ys : List SandboxConfig)
    → units total (xs ++ ys) ≡ units total xs + units total ys
units-append total [] ys = omega arith
units-append total (x ∷ xs) ys = omega (arith, units-append total xs ys)

All-without :
    (P : SandboxConfig → Type 0) (before after : List SandboxConfig) (config : SandboxConfig)
    → All P (before ++ (config ∷ after))
    → All P (before ++ after)
All-without P [] after config (h, hs) = hs
All-without P (x ∷ before) after config (h, hs) = (h, All-without P before after config hs)

-- A run within the ceiling, under the budget of a semaphore.
one_run :
    (total ceiling mem : ℕ)
    → 1 ≤ total
    → total < 4294967296
    → ceiling + base_unit_bytes ≤ u64_max
    → mem ≤ ceiling
    → let u = units_for total mem in
      (1 ≤ u) × (u ≤ total) × ((mem ≤ u * base_unit_bytes) ⊎ (u ≡ total))
one_run total ceiling mem h k c m =
    let (a, b, covers, spare) = units_for_bounds total mem h k (omega arith) in
    (
      a,
      b,
      elim (Bool-cases (ltb (units_for total mem) total)) [
        | inl less ↦ inl (covers (ground arith))
        | inr full ↦ inr (ground arith)
      ],
    )

units_at_least :
    (total ceiling : ℕ) (configs : List SandboxConfig)
    → 1 ≤ total
    → total < 4294967296
    → ceiling + base_unit_bytes ≤ u64_max
    → All (Within ceiling) configs
    → length configs ≤ units total configs
units_at_least total ceiling [] h k c w = omega arith
units_at_least total ceiling (config ∷ configs) h k c (m, ms) = omega (
  arith,
  (one_run total ceiling config.memory_limit_bytes h k c m).0,
  units_at_least total ceiling configs h k c ms,
)

-- The runs fit in their units, or one run has the whole budget.
Fits : ℕ → List SandboxConfig → Type 0
Fits total configs =
    (memory configs ≤ units total configs * base_unit_bytes)
    ⊎ ((length configs ≡ 1) × (units total configs ≡ total))

units-Fits :
    (total ceiling : ℕ) (configs : List SandboxConfig)
    → 1 ≤ total
    → total < 4294967296
    → ceiling + base_unit_bytes ≤ u64_max
    → All (Within ceiling) configs
    → units total configs ≤ total
    → Fits total configs
unfolding Fits
units-Fits total ceiling [] h k c w b = inl (omega arith)
units-Fits total ceiling (config ∷ configs) h k c (m, ms) b =
    let (one, most, fits) = one_run total ceiling config.memory_limit_bytes h k c m in
    let count = units_at_least total ceiling configs h k c ms in
    elim fits [
      | inl covered ↦ elim (units-Fits total ceiling configs h k c ms (omega arith)) [
        | inl others ↦ inl (omega arith)
        | inr (_, full) ↦ absurd (omega arith)
      ]
      | inr full ↦ inr (omega arith, omega arith)
    ]

module _ {S : Type 0} (semaphore : Semaphore S) (total : ℕ) where
  abbrev pub Kept : ℕ → Gate S → Type 0
  Kept ceiling g =
      All (Within ceiling) g.waiting
      × All (Within ceiling) g.running
      × (semaphore.available g.permits + units total g.running ≡ total)

  Step-Kept :
      (ceiling : ℕ) {g h : Gate S}
      → Step semaphore total ceiling g h
      → Kept ceiling g
      → Kept ceiling h
  unfolding let_in end_run
  Step-Kept ceiling {g} (asks config m) (w, r, e) =
      (All-append _ g.waiting (config ∷ []) w (m, tt), r, e)
  Step-Kept ceiling {g} (gives_up before after config is) (w, r, e) =
      (All-without _ before after config (subst (All (Within ceiling)) is w), r, e)
  Step-Kept ceiling {g} (admits config others permits is taken) (w, r, e) =
      let (m, ms) = subst (All (Within ceiling)) is w in
      let took = semaphore.acquire_many-takes _ _ _ taken in (ms, (m, r), omega arith)
  Step-Kept ceiling {g} (leaves before after config is) (w, r, e) =
      let given = semaphore.available-drop_permits (units_of semaphore total config) g.permits in
      let counted = subst (λ l. semaphore.available g.permits + units total l ≡ total) is e in
      (
        w,
        All-without _ before after config (subst (All (Within ceiling)) is r),
        omega (arith, units-append total before after, units-append total before (config ∷ after)),
      )

  pub Steps-Kept :
      (ceiling : ℕ) {g h : Gate S}
      → Steps semaphore total ceiling g h
      → Kept ceiling g
      → Kept ceiling h
  Steps-Kept ceiling rest kept = kept
  Steps-Kept ceiling (then_one s last) kept = Step-Kept ceiling last (Steps-Kept ceiling s kept)

  pub budget-Kept : (ceiling : ℕ) → Kept ceiling (budget semaphore total)
  unfolding budget
  budget-Kept ceiling = (tt, tt, omega (arith, semaphore.available-with_permits total))

  -- Whatever the order in which runs ask for their units, are given up in the line, are admitted and
  -- end, the free permits and the units of the admitted runs make up the budget; and the limits on
  -- memory of the admitted runs add up to the budget at most, unless one run is alone. The budget
  -- has from 1 to 2 ^ 32 - 1 units, and no run asks for the last unit of memory of a u64 or more.
  pub budget_keeps :
      (ceiling : ℕ) {g : Gate S}
      → 1 ≤ total
      → total < 4294967296
      → ceiling + base_unit_bytes ≤ u64_max
      → Steps semaphore total ceiling (budget semaphore total) g
      → (semaphore.available g.permits + units total g.running ≡ total)
        × ((memory g.running ≤ total * base_unit_bytes) ⊎ (length g.running ≡ 1))
  unfolding Fits
  budget_keeps ceiling {g} h k c steps =
      let (w, r, e) = Steps-Kept ceiling steps (budget-Kept ceiling) in
      (
        e,
        elim (units-Fits total ceiling g.running h k c r (omega arith)) [
          | inl fits ↦ inl (omega arith)
          | inr (alone, _) ↦ inr alone
        ],
      )
