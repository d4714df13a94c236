-- ===== src/Sandbox/Cgroup/Removed.antt =====
-- src/sandbox/cgroups.rs: what is left of a group.
use akiro.Prelude.{
  ℕ, ◌≤◌, ◌≡◌, refl, ap, sym, ◌∙◌, subst, Bool, true, false, Option, none, some, List, [], ◌∷◌,
  ◌++◌, map, All, ◌==◌, arith,
}
use akiro.Prelude.Int.{ℤ, pos}
use akiro.Prelude.Text.{Text, codes, parse_unsigned}
use akiro.Prelude.Decimal.{decimal}
use akiro.Prelude.Decimal.RoundTrip.{IsDigit, decimal-IsDigit, parse_unsigned-decimal}
use akiro.Prelude.Pieces.{lines}
use akiro.Prelude.Pieces.Fields.{lines-cons, word-InLine, digits-IsWord}
use akiro.Prelude.FilePath.{join}
use akiro.Sandbox.Kernel.{
  Call, Log, Kernel, Answer, done, stopped, Stop, ◌>>=◌, ◌>>◌, try_call, go_on, answered,
}
use akiro.Sandbox.Kernel.Call.{rmdir, write_file, kill}
use akiro.Sandbox.Cgroup.{Cgroup, CgroupError, cleanup_failed}
use akiro.Sandbox.Cgroup.Removal.{
  parse_i32, positive, kill_line, kill_listed, kill_procs, kill_all, remove_again, cleanup,
}

-- The call was made, whether it succeeded or not.
pub data Tried (c : Call) : Log → Type 0 where
  last : {b : Bool} {log : Log} → Tried c ((c, b) ∷ log)
  before : {e : Call × Bool} {log : Log} → Tried c log → Tried c (e ∷ log)

-- What cgroup.procs holds: a process on each line.
abbrev pub print_pids : List ℕ → Text
print_pids [] = []
print_pids (pid ∷ pids) = decimal pid ++ 0xa ∷ print_pids pids

lines-print_pids : (pids : List ℕ) → lines (print_pids pids) ≡ map decimal pids
lines-print_pids [] = refl
lines-print_pids (pid ∷ pids) =
    lines-cons (decimal pid) (print_pids pids)
      (word-InLine (decimal pid) (digits-IsWord (decimal pid) (decimal-IsDigit pid)))
    ∙ ap (λ l. decimal pid ∷ l) (lines-print_pids pids)

parse_i32-digits : (s : Text) → All IsDigit s → parse_i32 s ≡ positive (parse_unsigned 2147483647 s)
parse_i32-digits [] h = refl
parse_i32-digits (c ∷ []) h = refl
parse_i32-digits (c ∷ d ∷ s) (h, hs) =
    let no_sign : (c == b'-') ≡ false = ground arith in rw no_sign refl

parse_i32-decimal : (n : ℕ) → n ≤ 2147483647 → parse_i32 (decimal n) ≡ some (pos n)
parse_i32-decimal n h =
    parse_i32-digits (decimal n) (decimal-IsDigit n)
    ∙ ap positive (parse_unsigned-decimal 2147483647 n h (omega arith))

abbrev pub AllTried : List ℕ → Log → Type 0
AllTried pids log = All (λ pid. Tried (kill (pos pid)) log) pids

-- A computation goes on and forgets no call.
abbrev Extends : Cgroup → Type 0
Extends m =
    (k : Kernel) (log : Log)
    → (l : Log) × (m k log ≡ (done tt, l)) × ((c : Call) → Tried c log → Tried c l)

kill_line-Extends : (o : Option ℤ) → Extends (kill_line o)
kill_line-Extends none k log = (log, refl, λ c h. h)
kill_line-Extends (some pid) k log =
    ((kill pid, k.succeeds log (kill pid)) ∷ log, refl, λ c h. Tried.before h)

kill_listed-Kills :
    (pids : List ℕ) (k : Kernel) (log : Log)
    → All (λ pid. pid ≤ 2147483647) pids
    → (l : Log) × (kill_listed (map decimal pids) k log ≡ (done tt, l))
      × ((c : Call) → Tried c log → Tried c l)
      × AllTried pids l
unfolding kill_listed
kill_listed-Kills [] k log h = (log, refl, (λ c t. t), tt)
kill_listed-Kills (pid ∷ pids) k log (h, hs) =
    let log' : Log = (kill (pos pid), k.succeeds log (kill (pos pid))) ∷ log in
    let (l, e, keeps, tried) = kill_listed-Kills pids k log' hs in
    (
      l,
      ap (λ o. (kill_line o >> kill_listed (map decimal pids)) k log) (parse_i32-decimal pid h) ∙ e,
      λ c t. keeps c (Tried.before t),
      (keeps _ Tried.last, tried),
    )

AllTried-before :
    (pids : List ℕ) (e : Call × Bool) (log : Log) → AllTried pids log → AllTried pids (e ∷ log)
AllTried-before [] e log h = tt
AllTried-before (pid ∷ pids) e log (h, hs) = (Tried.before h, AllTried-before pids e log hs)

-- The directory is gone, and each of the processes had been sent SIGKILL before.
abbrev pub Removed : Text → List ℕ → Log → Type 0
Removed group pids log =
    (earlier : Log) × (log ≡ (rmdir group, true) ∷ earlier) × AllTried pids earlier

never_done :
    {s : Stop CgroupError} → ◌≡◌ {A = Answer CgroupError (Unit {0})} (stopped s) (done tt) → ⊥
never_done e = cc

abbrev pub EndsAt : Answer CgroupError (Unit {0}) × Log → Log → Type 0
EndsAt r log = r ≡ (done tt, log)

module _ (group : Text) (pids : List ℕ) where
  second_try :
      (b : Bool) (l log : Log)
      → AllTried pids l
      → EndsAt (answered b (cleanup_failed group), (rmdir group, b) ∷ l) log
      → Removed group pids log
  second_try true l log h e = (l, sym (ap (λ r. r.1) e), h)
  second_try false l log h e = absurd (never_done (ap (λ r. r.0) e))

  removal :
      (busy b : Bool) (k : Kernel) (l log : Log)
      → AllTried pids l
      → EndsAt (remove_again group busy b k ((rmdir group, b) ∷ l)) log
      → Removed group pids log
  removal busy true k l log h e = (l, sym (ap (λ r. r.1) e), h)
  removal true false k l log h e =
      second_try (k.succeeds ((rmdir group, false) ∷ l) (rmdir group)) ((rmdir group, false) ∷ l)
        log (AllTried-before pids (rmdir group, false) l h) e
  removal false false k l log h e = absurd (never_done (ap (λ r. r.0) e))

-- If the processes of a group are those that cgroup.procs lists, a removal that succeeds ends with
-- the removal of the group's directory, after each of them was sent SIGKILL.
pub cleanup-Removed :
    (group : Text) (pids : List ℕ) (busy : Bool) (k : Kernel) (log after : Log)
    → All (λ pid. pid ≤ 2147483647) pids
    → cleanup group (some (print_pids pids)) busy k log ≡ (done tt, after)
    → Removed group pids after
unfolding cleanup kill_all
cleanup-Removed group pids busy k log after h e =
    let asked : Log =
      (
        write_file (join group (codes "cgroup.kill")) (codes "1\n"),
        k.succeeds log (write_file (join group (codes "cgroup.kill")) (codes "1\n")),
      )
      ∷ log in
    let (l, kills, _, tried) = kill_listed-Kills pids k asked h in
    removal group pids busy (k.succeeds l (rmdir group)) k l after tried (
      ap (go_on k (λ _. try_call (rmdir group) >>= λ b. remove_again group busy b))
        (sym (ap (λ ls. kill_listed ls k asked) (lines-print_pids pids) ∙ kills))
      ∙ e)

-- Whatever cgroup.procs holds.
kill_listed-Extends : (ls : List Text) → Extends (kill_listed ls)
unfolding kill_listed
kill_listed-Extends [] k log = (log, refl, λ c h. h)
kill_listed-Extends (line ∷ ls) k log =
    let (l, e, keeps) = kill_line-Extends (parse_i32 line) k log in
    let (l', e', keeps') = kill_listed-Extends ls k l in
    (l', ap (go_on k (λ _. kill_listed ls)) e ∙ e', λ c t. keeps' c (keeps c t))

kill_procs-Extends : (procs : Option Text) → Extends (kill_procs procs)
kill_procs-Extends none k log = (log, refl, λ c h. h)
kill_procs-Extends (some contents) k log = kill_listed-Extends (lines contents) k log

remove_again-Tried :
    (group : Text) (busy b : Bool) (k : Kernel) (c : Call) (log : Log)
    → Tried c log
    → Tried c (remove_again group busy b k log).1
remove_again-Tried group busy true k c log t = t
remove_again-Tried group true false k c log t = Tried.before t
remove_again-Tried group false false k c log t = t

pub cleanup-Tried :
    (group : Text) (procs : Option Text) (busy : Bool) (k : Kernel) (log : Log)
    → Tried (rmdir group) (cleanup group procs busy k log).1
unfolding cleanup kill_all
cleanup-Tried group procs busy k log =
    let asked : Log =
      (
        write_file (join group (codes "cgroup.kill")) (codes "1\n"),
        k.succeeds log (write_file (join group (codes "cgroup.kill")) (codes "1\n")),
      )
      ∷ log in
    let (l, e, _) = kill_procs-Extends procs k asked in
    subst
      (λ r.
        Tried (rmdir group)
          (go_on k (λ _. try_call (rmdir group) >>= λ b. remove_again group busy b) r).1)
      (sym e)
      (remove_again-Tried group busy (k.succeeds l (rmdir group)) k (rmdir group)
        ((rmdir group, k.succeeds l (rmdir group)) ∷ l) Tried.last)
