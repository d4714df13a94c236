-- ===== src/Sandbox/Kernel/Logic.antt =====
-- src/sandbox/: reasoning about the calls that must have succeeded.
use akiro.Prelude.{◌≢◌, Bool, true, false, List, [], ◌∷◌}
use akiro.Sandbox.Kernel.{
  Call, Log, Kernel, Stop, failed, exits, panicked, replaced, Answer, done, stopped, Sys, go_on,
  answered, must, convert,
}

-- The calls succeeded in the reverse of this order, others between them.
pub data Seen : List Call → Log → Type 0 where
  start : {log : Log} → Seen [] log
  between : {cs : List Call} {e : Call × Bool} {log : Log} → Seen cs log → Seen cs (e ∷ log)
  here : {cs : List Call} {c : Call} {log : Log} → Seen cs log → Seen (c ∷ cs) ((c, true) ∷ log)

pub Seen-tail : {c : Call} {cs : List Call} {log : Log} → Seen (c ∷ cs) log → Seen cs log
Seen-tail (Seen.between s) = Seen.between (Seen-tail s)
Seen-tail (Seen.here s) = Seen.between s

module _ {E : Type 0} where
  -- The process image is kept, and an exit has a code other than 0.
  abbrev pub Fails : Stop E → Type 0
  Fails replaced = ⊥
  Fails (failed e) = Unit
  Fails (exits n) = n ≢ 0
  Fails panicked = Unit

  -- A computation that stops does so as a failure, and one that goes on has `Q`.
  abbrev pub Keeps : {A : Type 0} → (A → Log → Type 0) → Answer E A × Log → Type 0
  Keeps Q (done a, log) = Q a log
  Keeps Q (stopped s, log) = Fails s

  pub Keeps-weaken :
      {A : Type 0} (P Q : A → Log → Type 0) (r : Answer E A × Log)
      → Keeps P r
      → ((a : A) (log : Log) → P a log → Q a log)
      → Keeps Q r
  Keeps-weaken P Q (done a, log) h f = f a log h
  Keeps-weaken P Q (stopped s, log) h f = h

  pub Keeps-go_on :
      {A B : Type 0} (k : Kernel) (f : A → Sys E B) (P : A → Log → Type 0) (Q : B → Log → Type 0)
      (r : Answer E A × Log)
      → Keeps P r
      → ((a : A) (log : Log) → P a log → Keeps Q (f a k log))
      → Keeps Q (go_on k f r)
  Keeps-go_on k f P Q (done a, log) h g = g a log h
  Keeps-go_on k f P Q (stopped s, log) h g = h

  Keeps-answered :
      (b : Bool) (e : E) (c : Call) (cs : List Call) (log : Log)
      → Seen cs log
      → Keeps (λ _ l. Seen (c ∷ cs) l) (answered b e, (c, b) ∷ log)
  Keeps-answered true e c cs log h = Seen.here h
  Keeps-answered false e c cs log h = tt

  pub Keeps-must :
      (k : Kernel) (e : E) (c : Call) (cs : List Call) (log : Log)
      → Seen cs log
      → Keeps (λ _ l. Seen (c ∷ cs) l) (must e c k log)
  Keeps-must k e c cs log h = Keeps-answered (k.succeeds log c) e c cs log h

pub Keeps-convert :
    {E F A : Type 0} (f : E → F) (Q : A → Log → Type 0) (r : Answer E A × Log)
    → Keeps Q r
    → Keeps Q (convert f r)
Keeps-convert f Q (done a, log) h = h
Keeps-convert f Q (stopped (failed e), log) h = tt
Keeps-convert f Q (stopped (exits n), log) h = h
Keeps-convert f Q (stopped panicked, log) h = tt
Keeps-convert f Q (stopped replaced, log) h = h

-- As `Keeps`, of a computation that may also replace the image, and then has `R`.
abbrev pub Replaces : {E A : Type 0} → (Log → Type 0) → Answer E A × Log → Type 0
Replaces R (done a, log) = Unit
Replaces R (stopped replaced, log) = R log
Replaces R (stopped (failed e), log) = Unit
Replaces R (stopped (exits n), log) = n ≢ 0
Replaces R (stopped panicked, log) = Unit

pub Replaces-go_on :
    {E A B : Type 0} (k : Kernel) (f : A → Sys E B) (P : A → Log → Type 0) (R : Log → Type 0)
    (r : Answer E A × Log)
    → Keeps P r
    → ((a : A) (log : Log) → P a log → Replaces R (f a k log))
    → Replaces R (go_on k f r)
Replaces-go_on k f P R (done a, log) h g = g a log h
Replaces-go_on k f P R (stopped (failed e), log) h g = tt
Replaces-go_on k f P R (stopped (exits n), log) h g = h
Replaces-go_on k f P R (stopped panicked, log) h g = tt
Replaces-go_on k f P R (stopped replaced, log) h g = elim h [ ]
