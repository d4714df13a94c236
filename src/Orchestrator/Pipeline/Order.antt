-- ===== src/Orchestrator/Pipeline/Order.antt =====
-- src/orchestrator/pipeline.rs: the runs may end in any order, and the result does not show it.
use mathlib.Core.List.{Permᴰ}
use mathlib.Core.List.Permᴰ
use akiro.Prelude.{
  ℕ, suc, ◌<◌, ◌≡◌, ◌≢◌, refl, sym, ap, subst, ◌∙◌, Bool, true, false, Option, none, some, List, [],
  ◌∷◌, map, All, arith,
}
use akiro.Prelude.Result.{Result, ok, err}
use akiro.Prelude.Text.{Text, Lowercase}
use akiro.Sandbox.Result.{ExecutionResult}
use akiro.Languages.Runner.{LanguageRunner}
use akiro.Metrics.{Metrics}
use akiro.Orchestrator.Job.{JobRequest, JobResult, TestCase, ProgressEvent}
use akiro.Orchestrator.Pipeline.Verdict.{TestRun, Completion}
use akiro.Orchestrator.Pipeline.Runs.{Env, test_futs, futs_of, Completes}
use akiro.Orchestrator.Pipeline.Collect.{
  RawResult, raw_of, drain, insert_by_idx, sort_by_idx, conclude, stop_on_fail_of, run_tests,
}

-- No two items have one key.
abbrev pub Distinct {ℓ} : {A : Type ℓ} → (A → ℕ) → List A → Type 0
Distinct key [] = Unit
Distinct key (x ∷ xs) = All (λ y. key x ≢ key y) xs × Distinct key xs

pub All-perm {ℓ κ} :
    {A : Type ℓ} (P : A → Type κ) {xs ys : List A} → Permᴰ xs ys → All P xs → All P ys
All-perm P Permᴰ.nil h = h
All-perm P (Permᴰ.cons e p) h = (subst P e h.0, All-perm P p h.1)
All-perm P (Permᴰ.swap e f) h = (subst P f h.1.0, (subst P e h.0, h.1.1))
All-perm P (Permᴰ.trans p q) h = All-perm P q (All-perm P p h)

pub Distinct-perm {ℓ} :
    {A : Type ℓ} (key : A → ℕ) {xs ys : List A} → Permᴰ xs ys → Distinct key xs → Distinct key ys
Distinct-perm key Permᴰ.nil h = h
Distinct-perm key (Permᴰ.cons {l₂ = ys} e p) h =
    (subst (λ a. All (λ y. key a ≢ key y) ys) e (All-perm _ p h.0), Distinct-perm key p h.1)
Distinct-perm key (Permᴰ.swap {l = l} e f) h = (
  (
    (λ q. h.0.0 (ap key e ∙ (sym q ∙ sym (ap key f)))),
    subst (λ a. All (λ y. key a ≢ key y) l) f h.1.0,
  ),
  (subst (λ a. All (λ y. key a ≢ key y) l) e h.0.1, h.1.1),
)
Distinct-perm key (Permᴰ.trans p q) h = Distinct-perm key q (Distinct-perm key p h)

insert_comm :
    (a b : RawResult) (l : List RawResult)
    → a.idx ≢ b.idx
    → insert_by_idx a (insert_by_idx b l) ≡ insert_by_idx b (insert_by_idx a l)
unfolding insert_by_idx
insert_comm a b [] h = ground arith
insert_comm a b (x ∷ l) h = ground (arith, insert_comm a b l h)

-- The results of the runs that the sandbox completed.
add_raw : TestRun → Result Text ExecutionResult → List RawResult → List RawResult
add_raw t (ok r) rs = raw_of t r ∷ rs
add_raw t (err e) rs = rs

unfoldable pub raws : List Completion → List RawResult
unfolding add_raw
raws [] = []
raws (c ∷ cs) = add_raw c.test_run c.exec_res (raws cs)

abbrev pub key_of : Completion → ℕ
key_of c = c.test_run.idx

insert_raw : TestRun → Result Text ExecutionResult → List RawResult → List RawResult
insert_raw t (ok r) rs = insert_by_idx (raw_of t r) rs
insert_raw t (err e) rs = rs

sort-add_raw :
    (t : TestRun) (o : Result Text ExecutionResult) (rs : List RawResult)
    → sort_by_idx (add_raw t o rs) ≡ insert_raw t o (sort_by_idx rs)
unfolding sort_by_idx add_raw insert_raw
sort-add_raw t (ok r) rs = refl
sort-add_raw t (err e) rs = refl

insert_raw_comm :
    (t u : TestRun) (o p : Result Text ExecutionResult) (rs : List RawResult)
    → t.idx ≢ u.idx
    → insert_raw t o (insert_raw u p rs) ≡ insert_raw u p (insert_raw t o rs)
unfolding insert_raw
insert_raw_comm t u (ok r) (ok q) rs h = insert_comm _ _ rs h
insert_raw_comm t u (ok r) (err e) rs h = refl
insert_raw_comm t u (err e) p rs h = refl

-- Sorting forgets the order of completion.
pub sort-perm :
    {cs ds : List Completion}
    → Permᴰ cs ds
    → Distinct key_of cs
    → sort_by_idx (raws cs) ≡ sort_by_idx (raws ds)
unfolding raws
sort-perm Permᴰ.nil h = refl
sort-perm (Permᴰ.cons {b = d} e p) h = rw e (simp (sort-add_raw, sort-perm p h.1))
sort-perm (Permᴰ.swap {a = a} {b = b} {l = l} e f) h =
    rw (← e, ← f) (simp sort-add_raw (insert_raw_comm _ _ a.exec_res b.exec_res _ h.0.0))
sort-perm (Permᴰ.trans p q) h = sort-perm p h ∙ sort-perm q (Distinct-perm key_of p h)

abbrev pub Succeeded : Completion → Type 0
Succeeded c = (r : ExecutionResult) × (c.exec_res ≡ ok r)

-- With no early stop and no error, every run is kept, in the order of completion.
pub drain-raws :
    (cs : List Completion) → All Succeeded cs → (drain false cs).raw_results ≡ ok (raws cs)
unfolding drain raws add_raw
drain-raws [] h = refl
drain-raws (c ∷ cs) ((r, e), hs) = rw e (rw (drain-raws cs hs))

test_futs-above :
    (cpu : Option ℕ) (runner : LanguageRunner) (dir : Text) (request : JobRequest) (k i : ℕ)
    (tcs : List TestCase)
    → k < i
    → All (λ (t : TestRun). k ≢ t.idx) (test_futs cpu runner dir request i tcs)
unfolding test_futs
test_futs-above cpu runner dir request k i [] h = tt
test_futs-above cpu runner dir request k i (tc ∷ tcs) h =
    (omega arith, test_futs-above cpu runner dir request k (suc i) tcs (omega arith))

pub test_futs-Distinct :
    (cpu : Option ℕ) (runner : LanguageRunner) (dir : Text) (request : JobRequest) (i : ℕ)
    (tcs : List TestCase)
    → Distinct (λ (t : TestRun). t.idx) (test_futs cpu runner dir request i tcs)
unfolding test_futs
test_futs-Distinct cpu runner dir request i [] = tt
test_futs-Distinct cpu runner dir request i (tc ∷ tcs) = (
  test_futs-above cpu runner dir request i (suc i) tcs (omega arith),
  test_futs-Distinct cpu runner dir request (suc i) tcs,
)

All-map :
    (P : TestRun → Type 0) (cs : List Completion)
    → All P (map (λ c. c.test_run) cs)
    → All (λ c. P c.test_run) cs
All-map P [] h = tt
All-map P (c ∷ cs) (h, hs) = (h, All-map P cs hs)

Distinct-map :
    (cs : List Completion)
    → Distinct (λ (t : TestRun). t.idx) (map (λ c. c.test_run) cs)
    → Distinct key_of cs
Distinct-map [] h = tt
Distinct-map (c ∷ cs) (h, hs) = (All-map _ cs h, Distinct-map cs hs)

-- Completed runs have distinct indices.
pub Completes-Distinct :
    (env : Env) (runner : LanguageRunner) (dir : Text) (request : JobRequest) (cs : List Completion)
    → Completes cs (futs_of env runner dir request)
    → Distinct key_of cs
Completes-Distinct env runner dir request cs p =
    Distinct-map cs (Distinct-perm _ (Permᴰ.symm p) (test_futs-Distinct _ runner dir request 0 _))

-- Only the order of the events can tell two orders of completion apart.
conclude_events :
    (l : Lowercase) (request : JobRequest) (result : JobResult) (m : Metrics)
    (xs ys : List ProgressEvent) (raw raw' : List RawResult)
    → sort_by_idx raw ≡ sort_by_idx raw'
    → let one = conclude l request result m xs (ok raw) in
      let other = conclude l request result m ys (ok raw') in
      (one.result ≡ other.result) × (one.metrics ≡ other.metrics)
unfolding conclude
conclude_events l request result m xs ys raw raw' e = rw e (refl, refl)

conclude_any_order :
    (l : Lowercase) (request : JobRequest) (result : JobResult) (m : Metrics)
    (cs ds : List Completion) (stop : Bool)
    → stop ≡ false
    → Permᴰ cs ds
    → Distinct key_of cs
    → All Succeeded cs
    → let one = conclude l request result m (drain stop cs).events (drain stop cs).raw_results in
      let other = conclude l request result m (drain stop ds).events (drain stop ds).raw_results in
      (one.result ≡ other.result) × (one.metrics ≡ other.metrics)
conclude_any_order l request result m cs ds stop go p d h =
    rw (go, drain-raws cs h, drain-raws ds (All-perm Succeeded p h))
      (conclude_events l request result m _ _ (raws cs) (raws ds) (sort-perm p d))

-- Unset and set to false are both no early stop.
pub no_stop : (o : Option Bool) → o ≢ some true → stop_on_fail_of o ≡ false
no_stop none h = refl
no_stop (some true) h = absurd (h refl)
no_stop (some false) h = refl

-- Two environments that differ only in the order in which the test runs complete, every run
-- completing once and none with a sandbox error, give a request with no early stop the same
-- result and leave the same counters.
pub run_tests_any_order :
    (env : Env) (complete : List TestRun → List Completion) (runner : LanguageRunner)
    (work_dir : Text) (request : JobRequest) (result : JobResult) (m : Metrics)
    → request.stop_on_first_fail ≢ some true
    → Completes
        (env.complete (futs_of env runner work_dir request))
        (futs_of env runner work_dir request)
    → Permᴰ
        (env.complete (futs_of env runner work_dir request))
        (complete (futs_of env runner work_dir request))
    → All Succeeded (env.complete (futs_of env runner work_dir request))
    → let one = run_tests env runner work_dir request result m in
      let other = run_tests (record env { complete = complete }) runner work_dir request result m in
      (one.result ≡ other.result) × (one.metrics ≡ other.metrics)
unfolding run_tests
run_tests_any_order env complete runner work_dir request result m go full p h =
    conclude_any_order env.lowercase request result m _ _ _ (no_stop request.stop_on_first_fail go)
      p (Completes-Distinct env runner work_dir request _ full) h
