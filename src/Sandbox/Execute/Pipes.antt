-- ===== src/Sandbox/Execute/Pipes.antt =====
-- src/sandbox/child.rs and mod.rs: the parent's ends of a run's pipes, from their making to the end
-- of the run. Each end is held or not; its number does not matter. Nothing closes them on a drop.
use akiro.Prelude.{ℕ, ◌≡◌, refl, ap, sym, ◌∙◌, ◌↔◌, ◌≢◌, ◌⊎◌, inl, inr, Bool, true, false, arith}
use akiro.Prelude.Result.{Result, ok, err}
use akiro.Prelude.Text.{Text}
use akiro.Sandbox.Execute.{
  ForkAnswer, forked, try_again, refused, CgroupAnswer, made, panicked, not_made, Host, fork_loop,
}

-- Which ends the parent holds open.
pub record Held : Type 0 where
  pub stdin_read : Bool
  pub stdin_write : Bool
  pub stdout_read : Bool
  pub stdout_write : Bool
  pub stderr_read : Bool
  pub stderr_write : Bool

abbrev pub nothing_held : Held
nothing_held = record {
  stdin_read = false;
  stdin_write = false;
  stdout_read = false;
  stdout_write = false;
  stderr_read = false;
  stderr_write = false;
}

-- What the kernel answers to `pipe` and then to the two F_SETFD.
pub data PipeAnswer : Type 0 where
  no_pipe unmarked opened : PipeAnswer

pub data PipeFault : Type 0 where
  pipe_error namespace_error : PipeFault

abbrev pub make_pipe :
    PipeAnswer
    → Held
    → (Held → Result PipeFault (Unit {0}) × Held)
    → Held
    → Result PipeFault (Unit {0}) × Held
make_pipe no_pipe with_pipe k h = (err pipe_error, h)
make_pipe unmarked with_pipe k h = (err namespace_error, with_pipe)
make_pipe opened with_pipe k h = k with_pipe

-- `ChildProcessPipes::new`.
unfoldable pub new_pipes : PipeAnswer → PipeAnswer → PipeAnswer → Result PipeFault (Unit {0}) × Held
new_pipes stdin stdout stderr =
    let one = record nothing_held { stdin_read = true; stdin_write = true } in
    let two = record one { stdout_read = true; stdout_write = true } in
    let three = record two { stderr_read = true; stderr_write = true } in
    make_pipe stdin one (make_pipe stdout two (make_pipe stderr three (λ h. (ok tt, h))))
      nothing_held

unfoldable pub close_parent_ends : Held → Held
close_parent_ends h = record h { stdin_read = false; stdout_write = false; stderr_write = false }

-- The writer of stdin and the two readers each close their end when they are done; the ends that
-- `held_after` tells are those once these tasks are done, which after a drain or a write that timed
-- out is later than the return.
unfoldable pub feed_and_drain : Held → Held
feed_and_drain h = record h { stdin_write = false; stdout_read = false; stderr_read = false }

abbrev pub held_attached : Held → Result Text (Unit {0}) → Held
held_attached h (ok v) = feed_and_drain (close_parent_ends h)
held_attached h (err e) = close_parent_ends h

abbrev pub held_forked : (ℕ → Result Text (Unit {0})) → Held → ForkAnswer → Held
held_forked attach h (forked pid) = held_attached h (attach pid)
held_forked attach h try_again = h
held_forked attach h (refused e) = h

abbrev pub held_grouped : Host → Held → CgroupAnswer → Held
held_grouped host h made = held_forked host.attach h (fork_loop 0 host.fork host.fork_again).1
held_grouped host h panicked = h
held_grouped host h (not_made e) = h

abbrev pub held_after : Host → Result PipeFault (Unit {0}) × Held → Held
held_after host (ok v, h) = held_grouped host h host.cgroup
held_after host (err e, h) = h

-- The child was forked and is in its group.
abbrev pub Attached : Host → Type 0
Attached host =
    (pid : ℕ) × ((fork_loop 0 host.fork host.fork_again).1 ≡ forked pid) × (host.attach pid ≡ ok tt)

abbrev pub Supervised : Host → Type 0
Supervised host = (host.cgroup ≡ made) × Attached host

-- The three pipes were made, as `new` hands them out.
abbrev all_held : Held
all_held = record {
  stdin_read = true;
  stdin_write = true;
  stdout_read = true;
  stdout_write = true;
  stderr_read = true;
  stderr_write = true;
}

true_not_false : true ≡ false → ⊥
true_not_false e = ground arith

-- The end for writing is still held.
still : (h : Held) → h.stdin_write ≡ true → h ≡ nothing_held → ⊥
still h kept e = true_not_false (sym kept ∙ ap (λ (g : Held). g.stdin_write) e)

attached_iff :
    (r : Result Text (Unit {0})) → (held_attached all_held r ≡ nothing_held) ↔ (r ≡ ok tt)
unfolding close_parent_ends feed_and_drain
attached_iff (ok v) = ((λ _. refl), λ _. refl)
attached_iff (err e) = ((λ h. absurd (still _ refl h)), λ h. cc)

pid_of : ℕ → ForkAnswer → ℕ
pid_of other (forked pid) = pid
pid_of other try_again = other
pid_of other (refused e) = other

forked_iff :
    (attach : ℕ → Result Text (Unit {0})) (f : ForkAnswer)
    → (held_forked attach all_held f ≡ nothing_held)
      ↔ ((pid : ℕ) × (f ≡ forked pid) × (attach pid ≡ ok tt))
unfolding pid_of
forked_iff attach (forked pid) =
    let both = attached_iff (attach pid) in
    ((λ h. (pid, refl, both.0 h)), λ (child, e, a). both.1 (ap attach (ap (pid_of 0) e) ∙ a))
forked_iff attach try_again = ((λ h. absurd (still _ refl h)), λ (child, e, a). cc)
forked_iff attach (refused error) = ((λ h. absurd (still _ refl h)), λ (child, e, a). cc)

grouped_iff :
    (host : Host) (g : CgroupAnswer)
    → (held_grouped host all_held g ≡ nothing_held) ↔ ((g ≡ made) × Attached host)
grouped_iff host made =
    let both = forked_iff host.attach (fork_loop 0 host.fork host.fork_again).1 in
    ((λ h. (refl, both.0 h)), λ (_, a). both.1 a)
grouped_iff host panicked = ((λ h. absurd (still _ refl h)), λ (e, a). cc)
grouped_iff host (not_made error) = ((λ h. absurd (still _ refl h)), λ (e, a). cc)

abbrev pub Released : Host → PipeAnswer → PipeAnswer → PipeAnswer → Type 0
Released host stdin stdout stderr =
    (stdin ≡ no_pipe) ⊎ ((stdin ≡ opened) × (stdout ≡ opened) × (stderr ≡ opened) × Supervised host)

kept :
    (host : Host) (h : Held) (a b c : PipeAnswer)
    → h.stdin_write ≡ true
    → (Released host a b c → ⊥)
    → (h ≡ nothing_held) ↔ Released host a b c
kept host h a b c open_end never = ((λ e. absurd (still h open_end e)), λ r. absurd (never r))

unmade :
    (host : Host) (a b c : PipeAnswer)
    → a ≢ no_pipe
    → ((a ≡ opened) → (b ≡ opened) → c ≢ opened)
    → Released host a b c
    → ⊥
unmade host a b c some_pipe not_all (inl e) = some_pipe e
unmade host a b c some_pipe not_all (inr (x, y, z, s)) = not_all x y z

-- Once a run is over and the writer of its stdin and the readers of its output are done, the parent
-- has let go of all the ends of its pipes exactly if it never made
-- one, or made all three, and its control group, and forked the child and attached it. In every
-- other case, a group that is refused, a fork that is, or a child that cannot be attached, some of
-- the six descriptors stay open in the judge.
pub held_after_iff :
    (host : Host) (stdin stdout stderr : PipeAnswer)
    → (held_after host (new_pipes stdin stdout stderr) ≡ nothing_held)
      ↔ Released host stdin stdout stderr
unfolding new_pipes
held_after_iff host no_pipe b c = ((λ _. inl refl), λ _. refl)
held_after_iff host unmarked b c =
    kept host _ unmarked b c refl (unmade host _ b c (λ e. cc) (λ e _ _. cc))
held_after_iff host opened no_pipe c =
    kept host _ opened no_pipe c refl (unmade host _ _ c (λ e. cc) (λ _ e _. cc))
held_after_iff host opened unmarked c =
    kept host _ opened unmarked c refl (unmade host _ _ c (λ e. cc) (λ _ e _. cc))
held_after_iff host opened opened no_pipe =
    kept host _ opened opened no_pipe refl (unmade host _ _ _ (λ e. cc) (λ _ _ e. cc))
held_after_iff host opened opened unmarked =
    kept host _ opened opened unmarked refl (unmade host _ _ _ (λ e. cc) (λ _ _ e. cc))
held_after_iff host opened opened opened =
    let both = grouped_iff host host.cgroup in
    (
      (λ e. inr (refl, refl, refl, both.0 e)),
      λ r. elim r [ inl e ↦ cc | inr (_, _, _, s) ↦ both.1 s ],
    )
