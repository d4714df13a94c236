-- ===== src/Queue/Examples.antt =====
-- src/queue/redis.rs: a store that obeys the laws of Redis, and the theorems on it.
use akiro.Prelude.{ℕ, ◌≡◌, refl, ◌⊎◌, Bool, true, false, Option, none, some, List, [], ◌∷◌}
use akiro.Prelude.Text.{Text, codes}
use akiro.Orchestrator.Job.{JobRequest}
use akiro.Queue.Redis.{
  Command, Redis, value_after, owed_after, newest_after, result_key, pending_key,
}
use akiro.Queue.Publish.{Attempt, cut_after, answered, refuses, run_pipe_with_retry, publish_result}
use akiro.Queue.Report.{publish_result-forgets}
use akiro.Queue.Waits.{EndsWithin, run_pipe_with_retry-EndsWithin}
use akiro.Queue.Reclaim.{Value, Line, Sweep, reclaim_all}
use akiro.Queue.Delivery.{entry_of}
use akiro.Queue.Orphans.{Any, IsSettled, reclaim_all-Accounted}

pub record Store : Type 0 where
  pub values : Text → Option Text
  pub pending : Text → Text → Text → Bool
  pub last : Text → Option Text

abbrev pub store : Redis Store
store = record {
  perform = λ c d. record {
    values = λ k. value_after c k (d.values k);
    pending = λ s g i. owed_after c s g i (d.pending s g i);
    last = λ s. newest_after c s (d.last s);
  };
  get = λ d k. d.values k;
  owed = λ d s g i. d.pending s g i;
  newest = λ d s. d.last s;
  get-perform = λ c d k. refl;
  owed-perform = λ c d s g i. refl;
  newest-perform = λ c d s. refl;
}

-- Every entry is delivered and pending, and no key has a value.
abbrev pub delivered : Store
delivered = record { values = λ k. none; pending = λ s g i. true; last = λ s. none }

abbrev after_one : ℕ → Attempt
after_one n = cut_after 1

abbrev pipe : List Command
pipe = Command.del (codes "k") ∷ []

run_pipe_with_retry-EndsWithin_example :
    EndsWithin store 13000 (run_pipe_with_retry store pipe after_one delivered)
run_pipe_with_retry-EndsWithin_example =
    run_pipe_with_retry-EndsWithin store pipe after_one delivered

publish_result-forgets_example :
    let after =
      (publish_result store
        (codes "s")
        (codes "g")
        (codes "1-0")
        (codes "a")
        (codes "{}")
        60
        (λ n. refuses (false ∷ true ∷ true ∷ true ∷ []))
        delivered).store in
    (store.get after (result_key (codes "a")) ≡ none)
    × (store.get after (pending_key (codes "a")) ≡ none)
    × (store.owed after (codes "s") (codes "g") (codes "1-0") ≡ false)
publish_result-forgets_example =
    publish_result-forgets store (codes "s") (codes "g") (codes "1-0") (codes "a") (codes "{}") 60
      (λ n. refuses (false ∷ true ∷ true ∷ true ∷ [])) delivered (λ n. refl) refl

abbrev pub request : JobRequest
request = record {
  job_id = codes "a";
  language = codes "c";
  source_code = codes "main(){}";
  time_limit_ms = 1000;
  memory_limit_bytes = 1000000;
  test_cases = [];
  stop_on_first_fail = none;
}

-- Bytes are ASCII, and any JSON but the empty is that of the request.
abbrev pub ascii : List ℕ → Text
ascii bytes = bytes

abbrev pub from_str : Text → Option JobRequest
from_str [] = none
from_str (c ∷ s) = some request

abbrev pub entries : List (List ℕ × List ℕ)
entries = (codes "1-0", codes "{}") ∷ (codes "2-0", []) ∷ []

abbrev line : Line
line = record { xack_lands = true; get_lands = true; attempts = λ n. answered; permit = true }

-- An entry whose job has to be run again, and one without a job.
abbrev claimed : List (Line × Value)
claimed =
    (line, entry_of (codes "job") (codes "1-0", codes "{}"))
    ∷ (line, entry_of (codes "job") (codes "2-0", []))
    ∷ []

abbrev begun : Sweep Store
begun = record { store = delivered; rerun = []; reclaimed = 0; goes_on = true }

reclaim_all-Accounted_example :
    let after = (reclaim_all store ascii from_str (codes "s") (codes "g") claimed begun).store in
    (store.owed after (codes "s") (codes "g") (codes "2-0") ≡ true)
    ⊎ Any (IsSettled store ascii from_str (codes "s") (codes "g") after (codes "2-0")) claimed
reclaim_all-Accounted_example =
    reclaim_all-Accounted store ascii from_str (codes "s") (codes "g") claimed begun (codes "2-0")
      refl
