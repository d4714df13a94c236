-- ===== src/Sandbox/Fs/Scope.antt =====
-- src/sandbox/fs.rs: dropping the jail changes neither how a computation ends nor what holds when it
-- goes on.
use akiro.Prelude.{Bool, true, false}
use akiro.Prelude.Text.{Text}
use akiro.Sandbox.Kernel.{
  Log, Kernel, failed, exits, panicked, replaced, Answer, done, stopped, Sys,
}
use akiro.Sandbox.Kernel.Logic.{Keeps, Replaces}
use akiro.Sandbox.Fs.{leave_scope, in_scope}

leave_scope-Keeps :
    {E A : Type 0} (root : Text) (Q : A → Log → Type 0) (k : Kernel) (r : Answer E A × Log)
    → Keeps Q r
    → Keeps Q (leave_scope root k r)
leave_scope-Keeps root Q k (done a, l) q = q
leave_scope-Keeps root Q k (stopped (failed e), l) q = tt
leave_scope-Keeps root Q k (stopped (exits n), l) q = q
leave_scope-Keeps root Q k (stopped panicked, l) q = tt
leave_scope-Keeps root Q k (stopped replaced, l) q = q

pub in_scope-Keeps :
    {E A : Type 0} (b : Bool) (root : Text) (m : Sys E A) (Q : A → Log → Type 0) (k : Kernel)
    (log : Log)
    → Keeps Q (m k log)
    → Keeps Q (in_scope b root m k log)
in_scope-Keeps true root m Q k log h = leave_scope-Keeps root Q k (m k log) h
in_scope-Keeps false root m Q k log h = h

leave_scope-Replaces :
    {E A : Type 0} (root : Text) (R : Log → Type 0) (k : Kernel) (r : Answer E A × Log)
    → Replaces R r
    → Replaces R (leave_scope root k r)
leave_scope-Replaces root R k (done a, l) q = tt
leave_scope-Replaces root R k (stopped (failed e), l) q = tt
leave_scope-Replaces root R k (stopped (exits n), l) q = q
leave_scope-Replaces root R k (stopped panicked, l) q = tt
leave_scope-Replaces root R k (stopped replaced, l) q = q

pub in_scope-Replaces :
    {E A : Type 0} (b : Bool) (root : Text) (m : Sys E A) (R : Log → Type 0) (k : Kernel)
    (log : Log)
    → Replaces R (m k log)
    → Replaces R (in_scope b root m k log)
in_scope-Replaces true root m R k log h = leave_scope-Replaces root R k (m k log) h
in_scope-Replaces false root m R k log h = h
