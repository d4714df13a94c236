-- ===== src/Api/ResultBus/Examples.antt =====
-- src/api/result_bus.rs: the theorems on a store that obeys the laws of Redis.
use akiro.Prelude.{
  ℕ, ◌≡◌, refl, true, false, Option, none, some, [], ◌∷◌, ◌++◌, All, ◌==◌, if◌then◌else◌, arith,
}
use mathlib.Core.List.{Mem}
use akiro.Prelude.Text.{Text, codes}
use akiro.Queue.Publish.{Attempt, cut_after, answered, publish_result}
use akiro.Queue.Examples.{Store, store, delivered}
use akiro.Api.ResultBus.{
  replied, enqueue, duplicate, try_result, is_pending, bell, polled, Round, wait_for, answers,
  Registry, at,
}
use akiro.Api.ResultBus.Enqueue.{
  Means, retried, enqueue-Means, enqueue-loses, try_result-publish_result,
}
use akiro.Api.ResultBus.Listener.{refused, subscribed, wakes, run_listener, run_listener-wakes}
use akiro.Api.ResultBus.Waiting.{Waits, Decides, wait_for-Decides}
use akiro.Queue.Redis.{result_key, pending_key}

enqueue-Means_example :
    let r =
      enqueue store (codes "a") (some (codes "{}")) 660 10000 answered replied true delivered in
    Means store (codes "a") (codes "{}") true delivered r.0 r.1
enqueue-Means_example =
    enqueue-Means store (codes "a") (codes "{}") 660 10000 replied true delivered

-- Every key has a value.
abbrev marked : Store
marked = record delivered { values = λ k. some (codes "1") }

enqueue-loses_example :
    let r =
      retried store
        (codes "a")
        (codes "s")
        (codes "g")
        (codes "1-0")
        (codes "{}")
        (codes "{}")
        60
        660
        10000
        replied
        true
        marked in
    (r.0 ≡ duplicate)
    × (store.get r.1 (result_key (codes "a")) ≡ none)
    × (store.get r.1 (pending_key (codes "a")) ≡ none)
    × (store.owed r.1 (codes "s") (codes "g") (codes "1-0") ≡ false)
enqueue-loses_example =
    enqueue-loses store (codes "a") (codes "s") (codes "g") (codes "1-0") (codes "{}") (codes "{}")
      60 660 10000 replied true marked refl

-- A result is its own JSON.
abbrev itself : Text → Option Text
itself json = some json

-- The fourth attempt is the first to be answered.
abbrev fourth : ℕ → Attempt
fourth n = if n == 4 then answered else cut_after 2

try_result-publish_result_example :
    let r =
      publish_result store
        (codes "s")
        (codes "g")
        (codes "1-0")
        (codes "a")
        (codes "{}")
        60
        fourth
        delivered in
    (r.ok ≡ true)
    × (try_result store itself true (codes "a") r.store ≡ some (codes "{}"))
    × (is_pending store true (codes "a") r.store ≡ false)
    × (store.owed r.store (codes "s") (codes "g") (codes "1-0") ≡ false)
try_result-publish_result_example =
    try_result-publish_result store (codes "a") (codes "s") (codes "g") (codes "1-0") itself
      (codes "{}") (codes "{}") 60 fourth 4 delivered refl (omega arith) (omega arith) refl

abbrev quiet : Round ℕ
quiet = record { now = 10; wake = polled; found = none }

abbrev rung : Round ℕ
rung = record { now = 20; wake = bell; found = some 7 }

quiet-Waits : All (Waits 100) (quiet ∷ [])
quiet-Waits = ((omega arith, refl), tt)

rung-Decides : Decides 100 rung (some 7)
rung-Decides = (omega arith, refl)

wait_for-Decides_example : wait_for none 100 ((quiet ∷ []) ++ rung ∷ []) ≡ answers (some 7)
wait_for-Decides_example =
    wait_for-Decides 100 (quiet ∷ []) [] rung (some 7) quiet-Waits rung-Decides

abbrev nobody : Registry
nobody job_id = none

abbrev waited_for : Registry
waited_for = at (codes "a") (some 1) nobody

run_listener-wakes_example : Mem (wakes (codes "a")) (
    run_listener (
      refused
      ∷ subscribed (
          record { channel = codes "judge:done:b"; map = waited_for }
          ∷ record { channel = codes "judge:done:a"; map = waited_for }
          ∷ [])
      ∷ []))
run_listener-wakes_example =
    run_listener-wakes (refused ∷ []) []
      (record { channel = codes "judge:done:b"; map = waited_for } ∷ []) [] (codes "a") waited_for 1
      refl
