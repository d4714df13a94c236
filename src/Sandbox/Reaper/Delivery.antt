-- ===== src/Sandbox/Reaper/Delivery.antt =====
-- src/sandbox/reaper.rs: what a handle takes in any run of the program.
use mathlib.Core.Option.{none-ne-some, some-injective}
use akiro.Prelude.{
  ℕ, ◌<◌, ◌≡◌, refl, sym, ap, subst, ◌∙◌, none, some, List, [], ◌∷◌, arith, All, inl, inr,
}
use akiro.Sandbox.Reaper.{ChildExit, Reaper, register_child, try_take, drop_child, stash, reap_all}
use akiro.Sandbox.Reaper.Routing.{
  Operation, registers, takes, drops, reaps, perform, perform_all, Spares, last_exit, exits_of,
  Made, set_same, set_image, Owns-new, stash-registry, stash-next, perform_all-slots,
}

-- No child registered and no slot made.
abbrev pub empty : Reaper
empty = record { registry = λ pid. none; slots = λ slot. none; next = 0 }

Made-same : (s s' : Reaper) → s'.registry ≡ s.registry → s'.next ≡ s.next → Made s → Made s'
Made-same s s' e n m pid slot h =
    subst (λ k. slot < k) (sym n) (m pid slot (sym (ap (λ f. f pid) e) ∙ h))

reap_all-Made : (exits : List (ℕ × ChildExit)) (s : Reaper) → Made s → Made (reap_all exits s)
unfolding reap_all
reap_all-Made [] s m = m
reap_all-Made ((pid, exit) ∷ exits) s m = reap_all-Made exits (stash (s.registry pid) exit s) (
    Made-same s (stash (s.registry pid) exit s) (stash-registry (s.registry pid) exit s)
      (stash-next (s.registry pid) exit s) m)

perform-Made : (op : Operation) (s : Reaper) → Made s → Made (perform op s)
unfolding register_child try_take drop_child
perform-Made (registers pid) s m = λ q slot e.
    elim (set_image pid q slot (some s.next) s.registry e) [
      | inl (_, new) ↦ let here = some-injective _ _ new in omega arith
      | inr old ↦ let early = m q slot old in omega arith
    ]
perform-Made (takes child) s m = m
perform-Made (drops child) s m = λ q slot e. elim (set_image child.pid q slot none s.registry e) [
  | inl (_, gone) ↦ absurd (none-ne-some _ gone)
  | inr old ↦ m q slot old
]
perform-Made (reaps exits) s m = reap_all-Made exits s m

perform_all-Made : (os : List Operation) (s : Reaper) → Made s → Made (perform_all os s)
unfolding perform_all
perform_all-Made [] s m = m
perform_all-Made (op ∷ os) s m = perform_all-Made os (perform op s) (perform-Made op s m)

-- A child registered at any point of a run takes exactly the last exit that `wait4` returned for
-- its pid since, whatever else is registered, taken, dropped and reaped before and meanwhile, as
-- long as meanwhile nobody else registers or drops its pid or takes from its slot.
pub register_child-try_take :
    (pid : ℕ) (before os : List Operation)
    → let (child, s) = register_child pid (perform_all before empty) in
      All (Spares child) os
      → (try_take child (perform_all os s)).0 ≡ last_exit pid (exits_of os) none
unfolding register_child try_take
register_child-try_take pid before os h =
    let s = perform_all before empty in
    let m = perform_all-Made before empty (λ q slot e. absurd (none-ne-some _ e)) in
    perform_all-slots os (register_child pid s).1 h (Owns-new pid s m)
    ∙ ap (last_exit pid (exits_of os)) (set_same s.next s.next none s.slots refl)
