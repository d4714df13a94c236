-- ===== src/Sandbox/Execute/Fork.antt =====
-- src/sandbox/mod.rs: the retries of `fork`.
use akiro.Prelude.{
  ℕ, zero, suc, ◌+◌, ◌*◌, ◌≤◌, ◌≡◌, refl, true, false, List, [], ◌∷◌, leb, take, arith,
}
use akiro.Sandbox.Execute.{ForkAnswer, forked, try_again, refused, Effect, slept, fork_loop}

-- The first answer that is not to try again, if there is one.
abbrev pub first_settled : List ForkAnswer → ForkAnswer
first_settled [] = try_again
first_settled (try_again ∷ more) = first_settled more
first_settled (forked pid ∷ more) = forked pid
first_settled (refused e ∷ more) = refused e

abbrev pub time_slept : List Effect → ℕ
time_slept [] = 0
time_slept (slept ms ∷ es) = ms + time_slept es
time_slept (_ ∷ es) = time_slept es

-- The waits after `k` retries with `n` left.
abbrev waits : ℕ → ℕ → ℕ
waits k zero = 0
waits k (suc n) = 20 * (k + 1) + waits (k + 1) n

last_try : (k : ℕ) → k + 0 ≡ 10 → leb 10 k ≡ true
last_try k h = ground arith

more_tries : (k n : ℕ) → k + suc n ≡ 10 → leb 10 k ≡ false
more_tries k n h = ground arith

next_try : (k n : ℕ) → k + suc n ≡ 10 → (k + 1) + n ≡ 10
next_try k n h = omega arith

fork_loop-settled :
    (k n : ℕ) (answer : ForkAnswer) (more : List ForkAnswer)
    → k + n ≡ 10
    → (fork_loop k answer more).1 ≡ first_settled (take (suc n) (answer ∷ more))
unfolding fork_loop
fork_loop-settled k n (forked pid) more h = refl
fork_loop-settled k n (refused e) more h = refl
fork_loop-settled k zero try_again [] h = refl
fork_loop-settled k (suc n) try_again [] h = refl
fork_loop-settled k zero try_again (answer ∷ more) h = rw (last_try k h) refl
fork_loop-settled k (suc n) try_again (answer ∷ more) h =
    rw (more_tries k n h) (fork_loop-settled (k + 1) n answer more (next_try k n h))

fork_loop-time_slept :
    (k n : ℕ) (answer : ForkAnswer) (more : List ForkAnswer)
    → k + n ≡ 10
    → time_slept (fork_loop k answer more).0 ≤ waits k n
unfolding fork_loop
fork_loop-time_slept k n (forked pid) more h = omega arith
fork_loop-time_slept k n (refused e) more h = omega arith
fork_loop-time_slept k n try_again [] h = omega arith
fork_loop-time_slept k zero try_again (answer ∷ more) h = rw (last_try k h) (omega arith)
fork_loop-time_slept k (suc n) try_again (answer ∷ more) h =
    rw (more_tries k n h)
      (let less = fork_loop-time_slept (k + 1) n answer more (next_try k n h) in omega arith)

-- A fork is tried eleven times at most: the answer is the first among them that is not to try
-- again, and no more than 1100 ms are waited.
pub fork_loop_tries :
    (answer : ForkAnswer) (more : List ForkAnswer)
    → ((fork_loop 0 answer more).1 ≡ first_settled (take 11 (answer ∷ more)))
      × (time_slept (fork_loop 0 answer more).0 ≤ 1100)
fork_loop_tries answer more =
    (fork_loop-settled 0 10 answer more refl, fork_loop-time_slept 0 10 answer more refl)
