-- ===== src/Sandbox/Kernel/Adds.antt =====
-- src/sandbox/: computations after which what had succeeded before has still succeeded.
use akiro.Prelude.{Bool, true, false, List, [], ◌∷◌, ◌++◌}
use akiro.Prelude.Text.{Text}
use akiro.Sandbox.Kernel.{
  Call, Sys, Kernel, Log, pure, ◌>>=◌, may, must, stop_if, when, panicked, has_nul, Stop,
  unwrap_c_string,
}
use akiro.Sandbox.Kernel.Logic.{
  Seen, Fails, Keeps, Keeps-go_on, Keeps-must, Keeps-weaken, Seen-tail, Replaces, Replaces-go_on,
}

-- What succeeded before has still succeeded after, with some calls more.
abbrev pub Adds : {E : Type 0} → List Call → Sys E (Unit {0}) → Type 0
Adds new m =
    (k : Kernel) (cs : List Call) (log : Log)
    → Seen cs log
    → Keeps (λ _ l. Seen (new ++ cs) l) (m k log)

pub Adds-may : (E : Type 0) (c : Call) → Adds {E = E} [] (may c)
Adds-may E c k cs log h = Seen.between h

pub Adds-pure : (E : Type 0) → Adds {E = E} [] (pure tt)
Adds-pure E k cs log h = h

module _ {E : Type 0} where
  pub Adds-then :
      (new more : List Call) (m n : Sys E (Unit {0}))
      → Adds new m
      → Adds more n
      → (k : Kernel) (cs : List Call) (log : Log) → Seen cs log
      → Keeps (λ _ l. Seen (more ++ (new ++ cs)) l) ((m >>= (λ _. n)) k log)
  Adds-then new more m n a b k cs log h =
      Keeps-go_on k (λ _. n) (λ _ l. Seen (new ++ cs) l) _ (m k log) (a k cs log h)
        (λ _ l s. b k (new ++ cs) l s)

  -- What is replaced after such a computation is replaced with its calls made.
  pub Replaces-Adds :
      (R : Log → Type 0) (new : List Call) (m n : Sys E (Unit {0})) (k : Kernel) (cs : List Call)
      → Adds new m
      → ((l : Log) → Seen (new ++ cs) l → Replaces R (n k l))
      → (log : Log) → Seen cs log
      → Replaces R ((m >>= (λ _. n)) k log)
  Replaces-Adds R new m n k cs a f log h =
      Replaces-go_on k (λ _. n) (λ _ l. Seen (new ++ cs) l) R (m k log) (a k cs log h)
        (λ _ l s. f l s)

  pub Adds-must : (e : E) (c : Call) → Adds (c ∷ []) (must e c)
  Adds-must e c k cs log h = Keeps-must k e c cs log h

  pub Adds-stop_if : (b : Bool) (s : Stop E) → Fails s → Adds [] (stop_if b s)
  Adds-stop_if true s q k cs log h = q
  Adds-stop_if false s q k cs log h = h

  pub Adds-seq : (m n : Sys E (Unit {0})) → Adds [] m → Adds [] n → Adds [] (m >>= (λ _. n))
  Adds-seq m n a b = Adds-then [] [] m n a b

  -- A call that must succeed, of which no more is asked.
  pub Adds-weak : (e : E) (c : Call) → Adds [] (must e c)
  Adds-weak e c k cs log h =
      Keeps-weaken _ _ (must e c k log) (Keeps-must k e c cs log h) (λ _ _ s. Seen-tail s)

  pub Adds-when : (b : Bool) (m : Sys E (Unit {0})) → Adds [] m → Adds [] (when b m)
  Adds-when true m a = a
  Adds-when false m a = Adds-pure E

pub Adds-unwrap : (E : Type 0) (s : Text) → Adds {E = E} [] (unwrap_c_string s)
Adds-unwrap E s = Adds-stop_if (has_nul s) panicked tt
