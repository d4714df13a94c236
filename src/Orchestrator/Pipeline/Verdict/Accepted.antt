-- ===== src/Orchestrator/Pipeline/Verdict/Accepted.antt =====
-- src/orchestrator/pipeline.rs: exactly which test runs are accepted.
use mathlib.Core.Option.{none-ne-some, some-injective}
use akiro.Prelude.{
  ltb, ◌*◌, ◌≤◌, sym, ◌≡◌, ◌≢◌, refl, ap, ◌∙◌, ◌↔◌, false, Option, none, some, List, ℕ, arith,
  Bool-cases, inl, inr,
}
use akiro.Prelude.Text.{Text, text_eq_sound, text_eq_refl, as_bytes}
use akiro.Sandbox.Result.{SandboxStatus, ExecutionResult}
use akiro.Orchestrator.Job.{JudgeVerdict, accepted}
use akiro.Orchestrator.Pipeline.Trim.{trim_bytes}
use akiro.Orchestrator.Pipeline.Trim.Ends.{trim_start, trim_end, trim_bytes-ends}
use akiro.Orchestrator.Pipeline.Verdict.{
  TestRun, over_memory, compare_output, failure_verdict, verdict_by_status, test_verdict,
}

-- What an accepted run did; white space at the ends of the output does not count.
pub record Passed (t : TestRun) (s : SandboxStatus) (r : ExecutionResult) : Type 0 where
  pub ran_well : s ≡ SandboxStatus.ok
  pub in_limit : 1024 ≤ t.memory_limit_bytes → r.memory_kb * 1024 ≤ t.memory_limit_bytes
  pub matches :
      (e : Text)
      → t.expected ≡ some e
      → trim_end (trim_start r.stdout) ≡ trim_end (trim_start (as_bytes e))

in_limit_iff :
    (limit used : ℕ) → (over_memory limit used ≡ false) ↔ (1024 ≤ limit → used * 1024 ≤ limit)
in_limit_iff limit used = (
  λ e h. ground arith,
  λ h. elim (Bool-cases (ltb 1023 limit)) [
    | inl some_limit ↦ let fits = h (ground arith) in ground arith
    | inr no_limit ↦ ground arith
  ],
)

same_ends :
    (x y : List ℕ)
    → (trim_bytes x ≡ trim_bytes y) ↔ (trim_end (trim_start x) ≡ trim_end (trim_start y))
same_ends x y = (
  λ e. sym (trim_bytes-ends x) ∙ (e ∙ trim_bytes-ends y),
  λ e. trim_bytes-ends x ∙ (e ∙ sym (trim_bytes-ends y)),
)

failure_verdict_fails : (t : TestRun) (r : ExecutionResult) → failure_verdict t r ≢ accepted
failure_verdict_fails t r e = ground arith

compare_output_sound :
    (o : Option Text) (out : List ℕ)
    → compare_output o out ≡ accepted
    → (e : Text) → o ≡ some e
    → trim_bytes out ≡ trim_bytes (as_bytes e)
compare_output_sound none out h e q = absurd (none-ne-some _ q)
compare_output_sound (some x) out h e q =
    text_eq_sound _ _ (ground arith) ∙ ap (λ y. trim_bytes (as_bytes y)) (some-injective _ _ q)

compare_output_complete :
    (o : Option Text) (out : List ℕ)
    → ((e : Text) → o ≡ some e → trim_bytes out ≡ trim_bytes (as_bytes e))
    → compare_output o out ≡ accepted
compare_output_complete none out h = refl
compare_output_complete (some x) out h = rw (h x refl, text_eq_refl (trim_bytes (as_bytes x))) refl

ok_iff :
    (t : TestRun) (r : ExecutionResult)
    → (verdict_by_status SandboxStatus.ok t r ≡ accepted) ↔ Passed t SandboxStatus.ok r
ok_iff t r = elim (Bool-cases (over_memory t.memory_limit_bytes r.memory_kb)) [
  | inl over ↦ (
    λ h. absurd (ground arith),
    λ p. absurd (ground (arith, (in_limit_iff t.memory_limit_bytes r.memory_kb).1 p.in_limit)),
  )
  | inr fits ↦ rw fits (
    (λ h. record {
      ran_well = refl;
      in_limit = (in_limit_iff t.memory_limit_bytes r.memory_kb).0 fits;
      matches = λ e q.
          (same_ends r.stdout (as_bytes e)).0 (compare_output_sound t.expected r.stdout h e q);
    }),
    λ p.
        compare_output_complete t.expected r.stdout
          (λ e q. (same_ends r.stdout (as_bytes e)).1 (p.matches e q)),
  )
]

fails_iff :
    (t : TestRun) (s : SandboxStatus) (r : ExecutionResult) (v : JudgeVerdict)
    → v ≢ accepted
    → s ≢ SandboxStatus.ok
    → (v ≡ accepted) ↔ Passed t s r
fails_iff t s r v h k = ((λ e. absurd (h e)), λ p. absurd (k p.ran_well))

verdict_by_status_iff :
    (s : SandboxStatus) (t : TestRun) (r : ExecutionResult)
    → (verdict_by_status s t r ≡ accepted) ↔ Passed t s r
verdict_by_status_iff SandboxStatus.ok t r = ok_iff t r
verdict_by_status_iff SandboxStatus.time_limit_exceeded t r =
    fails_iff t _ r _ (λ e. ground arith) (λ e. ground arith)
verdict_by_status_iff SandboxStatus.memory_limit_exceeded t r =
    fails_iff t _ r _ (λ e. ground arith) (λ e. ground arith)
verdict_by_status_iff SandboxStatus.output_limit_exceeded t r =
    fails_iff t _ r _ (failure_verdict_fails t r) (λ e. ground arith)
verdict_by_status_iff (SandboxStatus.runtime_error code) t r =
    fails_iff t _ r _ (failure_verdict_fails t r) (λ e. ground arith)
verdict_by_status_iff (SandboxStatus.signaled sig) t r =
    fails_iff t _ r _ (failure_verdict_fails t r) (λ e. ground arith)

-- A test run is accepted exactly if the sandbox ended it as Ok, its memory is within the limit where
-- that is 1 KiB or more, and its output is the expected one, where one is expected, up to white space at
-- the ends.
pub test_verdict-accepted_iff :
    (t : TestRun) (r : ExecutionResult) → (test_verdict t r ≡ accepted) ↔ Passed t r.status r
unfolding test_verdict
test_verdict-accepted_iff t r = verdict_by_status_iff r.status t r
