-- ===== src/Sandbox/Reaper/Examples.antt =====
-- src/sandbox/reaper.rs: the theorems at two children.
use akiro.Prelude.{◌≡◌, refl, none, List, [], ◌∷◌, All, arith}
use akiro.Sandbox.Supervisor.{zeroed}
use akiro.Sandbox.Reaper.{register_child, try_take, drop_child, reap_all}
use akiro.Sandbox.Reaper.Routing.{
  Operation, registers, reaps, drops, perform_all, Spares, last_exit, exits_of,
}
use akiro.Sandbox.Reaper.Delivery.{empty, register_child-try_take}
use akiro.Sandbox.Reaper.Reuse.{drop_child-loses}

-- Another child comes and goes while child 7 is waited for; 9 is an orphan.
abbrev busy : List Operation
busy =
    registers 8
    ∷ reaps ((9, (0, zeroed)) ∷ (8, (0, zeroed)) ∷ (7, (256, zeroed)) ∷ [])
    ∷ drops (record { pid = 8; slot = 1 })
    ∷ []

spared : All (Spares (register_child 7 (perform_all (registers 6 ∷ []) empty)).0) busy
unfolding register_child
spared = ((omega arith), ((tt), ((omega arith), tt)))

register_child-try_take_example :
    (try_take
      (register_child 7 (perform_all (registers 6 ∷ []) empty)).0
      (perform_all busy (register_child 7 (perform_all (registers 6 ∷ []) empty)).1)).0
    ≡ last_exit 7 (exits_of busy) none
register_child-try_take_example = register_child-try_take 7 (registers 6 ∷ []) busy spared

drop_child-loses_example :
    (try_take (register_child 7 (register_child 7 empty).1).0 (
      reap_all
        ((7, (0, zeroed)) ∷ [])
        (drop_child (register_child 7 empty).0 (register_child 7 (register_child 7 empty).1).1))).0
    ≡ none
drop_child-loses_example = drop_child-loses 7 empty ((7, (0, zeroed)) ∷ []) (refl, tt)
