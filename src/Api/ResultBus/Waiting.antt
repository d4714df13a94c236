-- ===== src/Api/ResultBus/Waiting.antt =====
-- src/api/result_bus.rs: when a waiter answers, and what it leaves in the registry.
use akiro.Prelude.{
  ℕ, ◌≤◌, ◌<◌, ◌≡◌, refl, ap, ◌∙◌, true, false, leb, Option, none, some, List, [], ◌∷◌, ◌++◌,
  if◌then◌else◌, All, arith,
}
use akiro.Prelude.Text.{Text, text_eq_refl}
use akiro.Queue.Report.{if_same}
use akiro.Api.ResultBus.{
  Wake, bell, gone, polled, Round, Waited, answers, poll_round, poll_until, wake_round, wait_rounds,
  wait_for, Registry, at, one_more, register, reaped, drop_guard, one_less, drop_receiver, leave,
}

leb-false : (a b : ℕ) → b < a → leb a b ≡ false
leb-false a b h = ground arith

leb-true : (a b : ℕ) → a ≤ b → leb a b ≡ true
leb-true a b h = ground arith

module _ {R : Type 0} where
  -- A round before the deadline that finds nothing.
  abbrev pub Waits : ℕ → Round R → Type 0
  Waits deadline round = (round.now < deadline) × (round.found ≡ none)

  -- A round that ends the wait: it finds a result in time, or none when it is late.
  abbrev pub Decides : ℕ → Round R → Option R → Type 0
  Decides deadline round (some r) = (round.now < deadline) × (round.found ≡ some r)
  Decides deadline round none = (deadline ≤ round.now) × (round.found ≡ none)

  poll_until-Decides :
      (deadline : ℕ) (before rest : List (Round R)) (round : Round R) (o : Option R)
      → All (Waits deadline) before
      → Decides deadline round o
      → poll_until deadline (before ++ round ∷ rest) ≡ answers o
  unfolding poll_until
  poll_until-Decides deadline [] rest round (some r) w (time, found) =
      ap (λ f. poll_round f (leb deadline round.now) (poll_until deadline rest)) found
  poll_until-Decides deadline [] rest round none w (late, found) =
      ap (λ f. poll_round f (leb deadline round.now) (poll_until deadline rest)) found
      ∙ ap (λ b. if b then answers none else poll_until deadline rest)
          (leb-true deadline round.now late)
  poll_until-Decides deadline (x ∷ before) rest round o ((time, found), w) d =
      let later = poll_until deadline (before ++ round ∷ rest) in
      ap (λ f. poll_round f (leb deadline x.now) later) found
      ∙ (ap (λ b. if b then answers none else later) (leb-false deadline x.now time)
          ∙ poll_until-Decides deadline before rest round o w d)

  wake_round_same :
      (wake : Wake) (degraded rest end : Waited R)
      → degraded ≡ end
      → rest ≡ end
      → wake_round none wake degraded rest ≡ end
  wake_round_same bell degraded rest end h k = k
  wake_round_same gone degraded rest end h k = h
  wake_round_same polled degraded rest end h k = k

  in_time :
      (deadline now : ℕ) (found : Option R) (wake : Wake) (degraded rest : Waited R) (f : Option R)
      → now < deadline
      → found ≡ f
      → (if leb deadline now then answers none else wake_round found wake degraded rest)
        ≡ wake_round f wake degraded rest
  in_time deadline now found wake degraded rest f time e =
      ap (λ b. if b then answers none else wake_round found wake degraded rest)
        (leb-false deadline now time)
      ∙ ap (λ o. wake_round o wake degraded rest) e

  wait_rounds-Decides :
      (deadline : ℕ) (before rest : List (Round R)) (round : Round R) (o : Option R)
      → All (Waits deadline) before
      → Decides deadline round o
      → wait_rounds deadline (before ++ round ∷ rest) ≡ answers o
  unfolding wait_rounds
  wait_rounds-Decides deadline [] rest round (some r) w (time, found) =
      in_time deadline round.now round.found round.wake (poll_until deadline rest)
        (wait_rounds deadline rest) (some r) time found
  wait_rounds-Decides deadline [] rest round none w (late, found) =
      ap
        (λ b.
          if b
          then answers none
          else wake_round round.found round.wake (poll_until deadline rest)
              (wait_rounds deadline rest))
        (leb-true deadline round.now late)
  wait_rounds-Decides deadline (x ∷ before) rest round o ((time, found), w) d =
      let polled_later = poll_until deadline (before ++ round ∷ rest) in
      let later = wait_rounds deadline (before ++ round ∷ rest) in
      in_time deadline x.now x.found x.wake polled_later later none time found
      ∙ wake_round_same x.wake polled_later later (answers o)
          (poll_until-Decides deadline before rest round o w d)
          (wait_rounds-Decides deadline before rest round o w d)

  -- A waiter whose first GET finds nothing ends in the first round that finds a result before the
  -- deadline, with that result, or else in the first that is late, with none, however it was woken
  -- before, by the bell, by its poll or by the loss of the sender.
  pub wait_for-Decides :
      (deadline : ℕ) (before rest : List (Round R)) (round : Round R) (o : Option R)
      → All (Waits deadline) before
      → Decides deadline round o
      → wait_for none deadline (before ++ round ∷ rest) ≡ answers o
  unfolding wait_for
  wait_for-Decides = wait_rounds-Decides

abbrev pub receivers : Option ℕ → ℕ
receivers none = 0
receivers (some n) = n

at_same : (job_id : Text) (entry : Option ℕ) (map : Registry) → at job_id entry map job_id ≡ entry
at_same job_id entry map = if_same (map job_id) (text_eq_refl job_id)

more_then_less : (o : Option ℕ) → one_less (reaped (one_more o)) ≡ some (receivers o)
more_then_less none = refl
more_then_less (some n) = ground arith

-- A waiter that has come and gone leaves an entry of its job in the registry, whether or not there
-- was one before, with as many receivers as there were.
pub leave-register :
    (map : Registry) (job_id : Text)
    → leave job_id (register job_id map) job_id ≡ some (receivers (map job_id))
unfolding leave drop_receiver drop_guard register
leave-register map job_id = rw (text_eq_refl job_id) (more_then_less (map job_id))
