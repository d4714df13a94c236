-- ===== src/Sandbox/Reaper/Reuse.antt =====
-- src/sandbox/reaper.rs: a pid that is used again before its first handle is dropped.
use akiro.Prelude.{ℕ, ◌≡◌, refl, ap, ◌∙◌, Option, none, List, [], ◌∷◌, All}
use akiro.Sandbox.Reaper.{ChildExit, Reaper, register_child, try_take, drop_child, stash, reap_all}
use akiro.Sandbox.Reaper.Routing.{set_same}

-- Every exit is of one pid.
abbrev pub AllOf : ℕ → List (ℕ × ChildExit) → Type 0
AllOf pid exits = All (λ e. e.0 ≡ pid) exits

stash-none : (o : Option ℕ) (exit : ChildExit) (s : Reaper) → o ≡ none → stash o exit s ≡ s
stash-none o exit s h = ap (λ o'. stash o' exit s) h

reap_all-unregistered :
    (pid : ℕ) (exits : List (ℕ × ChildExit)) (s : Reaper)
    → AllOf pid exits
    → s.registry pid ≡ none
    → reap_all exits s ≡ s
unfolding reap_all
reap_all-unregistered pid [] s a h = refl
reap_all-unregistered pid ((p, exit) ∷ exits) s (e, a) h =
    ap (reap_all exits) (stash-none (s.registry p) exit s (ap s.registry e ∙ h))
    ∙ reap_all-unregistered pid exits s a h

-- When a pid is used again while the handle of its first child lives, and that handle is dropped
-- then, the new child's handle takes nothing, whatever exits `wait4` returns for the pid.
pub drop_child-loses :
    (pid : ℕ) (s : Reaper) (exits : List (ℕ × ChildExit))
    → AllOf pid exits
    → let (old, s1) = register_child pid s in
      let (new, s2) = register_child pid s1 in
      (try_take new (reap_all exits (drop_child old s2))).0 ≡ none
unfolding register_child try_take drop_child
drop_child-loses pid s exits a =
    let s1 = (register_child pid s).1 in
    let s2 = (register_child pid s1).1 in
    ap (λ (r : Reaper). r.slots s1.next)
      (reap_all-unregistered pid exits (drop_child (register_child pid s).0 s2) a
        (set_same pid pid none s2.registry refl))
    ∙ set_same s1.next s1.next none s1.slots refl
