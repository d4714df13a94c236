-- ===== src/Sandbox/Seccomp/Denied.antt =====
-- src/sandbox/seccomp.rs: which system calls the filter denies.
use akiro.Prelude.{
  ℕ, ◌≡◌, refl, ap, ◌∙◌, Bool, true, false, ◌||◌, List, [], ◌∷◌, ◌==◌, if◌then◌else◌, map, arith,
}
use akiro.Prelude.Text.{Text}
use akiro.Sandbox.Seccomp.{
  blocked_syscalls, blocked_syscall_numbers, SeccompAction, allow, errno, Filter, eperm,
  insert_rule, insert_rules, bpf_filter,
}

abbrev pub contains : ℕ → List ℕ → Bool
contains nr [] = false
contains nr (x ∷ xs) = nr == x || contains nr xs

contains-insert_rule :
    (nr x : ℕ) (rules : List ℕ) → contains nr (insert_rule x rules) ≡ (nr == x || contains nr rules)
contains-insert_rule nr x [] = refl
contains-insert_rule nr x (y ∷ ys) = let ih = contains-insert_rule nr x ys in ground arith

contains-insert_rules :
    (nr : ℕ) (nrs rules : List ℕ)
    → contains nr (insert_rules nrs rules) ≡ (contains nr nrs || contains nr rules)
unfolding insert_rules
contains-insert_rules nr [] rules = refl
contains-insert_rules nr (x ∷ xs) rules =
    let ih = contains-insert_rules nr xs (insert_rule x rules) in
    let one = contains-insert_rule nr x rules in ground arith

numbers_of_names : (sys : Text → ℕ) → blocked_syscall_numbers sys ≡ map sys blocked_syscalls
unfolding blocked_syscall_numbers blocked_syscalls
numbers_of_names sys = refl

or_false : (b : Bool) → (b || false) ≡ b
or_false true = refl
or_false false = refl

rules_of_names :
    (sys : Text → ℕ) (nr : ℕ)
    → contains nr (bpf_filter sys).rules ≡ contains nr (map sys blocked_syscalls)
unfolding bpf_filter
rules_of_names sys nr =
    contains-insert_rules nr (blocked_syscall_numbers sys) []
    ∙ (or_false (contains nr (blocked_syscall_numbers sys))
        ∙ ap (contains nr) (numbers_of_names sys))

module _ (decide : Filter → ℕ → SeccompAction)
    (decide_lem : (f : Filter) (nr : ℕ)
      → decide f nr ≡ (if contains nr f.rules then f.match_action else f.mismatch_action)) where
  -- Whatever numbers libc gives the names, the program's filter answers EPERM to the calls of the
  -- published list and allows all others, if `seccompiler` answers a listed number that has no
  -- rules with the match action and any other with the mismatch action.
  pub bpf_filter-denies :
      (sys : Text → ℕ) (nr : ℕ)
      → decide (bpf_filter sys) nr
        ≡ (if contains nr (map sys blocked_syscalls) then errno eperm else allow)
  unfolding bpf_filter
  bpf_filter-denies sys nr =
      decide_lem (bpf_filter sys) nr
      ∙ ap (λ b. if b then errno eperm else allow) (rules_of_names sys nr)
