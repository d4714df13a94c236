-- ===== src/Api/ResultBus/Listener.antt =====
-- src/api/result_bus.rs: `run_listener`, over its connections to Redis.
use akiro.Prelude.{ℕ, ◌≡◌, refl, sym, subst, Option, none, some, List, [], ◌∷◌, ◌++◌}
use mathlib.Core.List.{Mem, mem-cons_self, mem-append_left, mem-append_right}
use akiro.Prelude.Text.{Text, codes, strip_prefix}
use akiro.Queue.Redis.{done_channel}
use akiro.Api.ResultBus.{Registry}

-- A message on a channel, and the registry at the time.
pub record Heard : Type 0 where
  pub channel : Text
  pub map : Registry

-- A connection that fails, one whose PSUBSCRIBE fails, or a stream of messages up to its end.
pub data Connection : Type 0 where
  refused unsubscribed : Connection
  subscribed : List Heard → Connection

-- What the listener does: it wakes the waiters of a job, or it sleeps.
pub data Ringing : Type 0 where
  wakes : Text → Ringing
  sleeps : ℕ → Ringing

abbrev send_to : Option ℕ → Text → List Ringing
send_to none job_id = []
send_to (some receivers) job_id = wakes job_id ∷ []

abbrev pub route_job : Registry → Option Text → List Ringing
route_job map none = []
route_job map (some job_id) = send_to (map job_id) job_id

unfoldable pub route : Heard → List Ringing
route msg = route_job msg.map (strip_prefix (codes "judge:done:") msg.channel)

unfoldable pub route_all : List Heard → List Ringing
unfolding route
route_all [] = []
route_all (msg ∷ stream) = route msg ++ route_all stream

abbrev pub listen : Connection → List Ringing
listen refused = []
listen unsubscribed = []
listen (subscribed stream) = route_all stream

-- Each connection ends in a sleep of half a second.
unfoldable pub run_listener : List Connection → List Ringing
run_listener [] = []
run_listener (connection ∷ rest) = listen connection ++ (sleeps 500 ∷ run_listener rest)

-- The report of a job, on the channel that a worker publishes on.
abbrev done : Text → Registry → Heard
done job_id map = record { channel = done_channel job_id; map = map }

route-done_channel :
    (job_id : Text) (map : Registry) (n : ℕ)
    → map job_id ≡ some n
    → route (done job_id map) ≡ wakes job_id ∷ []
unfolding route
route-done_channel job_id map n h = rw h refl

heard-wakes :
    (before after : List Heard) (msg : Heard) (job_id : Text)
    → Mem (wakes job_id) (route msg)
    → Mem (wakes job_id) (route_all (before ++ (msg ∷ after)))
unfolding route_all
heard-wakes [] after msg job_id h = mem-append_left (route_all after) h
heard-wakes (m ∷ before) after msg job_id h =
    mem-append_right (route m) (heard-wakes before after msg job_id h)

connection-wakes :
    (before after : List Connection) (c : Connection) (job_id : Text)
    → Mem (wakes job_id) (listen c)
    → Mem (wakes job_id) (run_listener (before ++ (c ∷ after)))
unfolding run_listener
connection-wakes [] after c job_id h = mem-append_left (sleeps 500 ∷ run_listener after) h
connection-wakes (b ∷ before) after c job_id h =
    mem-append_right (listen b)
      (mem-append_right (sleeps 500 ∷ []) (connection-wakes before after c job_id h))

-- Whatever connections failed before, and whatever was heard before, a report of a job that arrives
-- on the job's channel while the registry has a sender for it wakes the job's waiters.
pub run_listener-wakes :
    (before after : List Connection) (earlier later : List Heard)
    → (job_id : Text) (map : Registry) (n : ℕ) → map job_id ≡ some n
    → Mem
        (wakes job_id)
        (run_listener (before ++ (subscribed (earlier ++ (done job_id map ∷ later)) ∷ after)))
run_listener-wakes before after earlier later job_id map n h =
    let woken =
      subst (λ l. Mem (wakes job_id) l) (sym (route-done_channel job_id map n h)) mem-cons_self in
    connection-wakes before after (subscribed (earlier ++ (done job_id map ∷ later))) job_id
      (heard-wakes earlier later (done job_id map) job_id woken)
