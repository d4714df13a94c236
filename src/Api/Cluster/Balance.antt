-- ===== src/Api/Cluster/Balance.antt =====
-- src/api/handlers.rs: the health figures add up.
use akiro.Prelude.{ℕ, ◌+◌, ◌<◌, ◌≡◌, Option, none, some, List, Bool-cases, inl, inr, arith}
use akiro.Prelude.Text.{Text}
use akiro.Queue.Reclaim.{Value, nil, other, int, bulk_string, array, elements}
use akiro.Orchestrator.Pool.{Pool, Steps, new}
use akiro.Orchestrator.Pool.Counters.{pool_counters}
use akiro.Api.Cluster.{
  Totals, Answers, Stats, count_consumers, counted_or, consumer_stats, heartbeat_or,
  heartbeat_workers, or_no_keys, get_cluster_stats, local_stats, stats, HealthResponse, health,
}

abbrev IsBalanced : Stats → Type 0
IsBalanced s = s.idle + s.busy ≡ s.total_workers

counted_or-IsBalanced : (s : Stats) (t : Totals) → IsBalanced s → IsBalanced (counted_or s t)
counted_or-IsBalanced s t h = ground arith

heartbeat_or-IsBalanced : (n : ℕ) (s : Stats) → IsBalanced s → IsBalanced (heartbeat_or n s)
heartbeat_or-IsBalanced n s h = ground arith

consumer_stats-IsBalanced :
    (lossy : List ℕ → Text) (s : Stats) (v : Option Value)
    → IsBalanced s
    → IsBalanced (consumer_stats lossy s v)
unfolding consumer_stats
consumer_stats-IsBalanced lossy s none h = h
consumer_stats-IsBalanced lossy s (some (array consumers)) h =
    counted_or-IsBalanced s
      (count_consumers lossy (elements consumers) (record { total = 0; total_pending = 0 })) h
consumer_stats-IsBalanced lossy s (some nil) h = h
consumer_stats-IsBalanced lossy s (some other) h = h
consumer_stats-IsBalanced lossy s (some (int n)) h = h
consumer_stats-IsBalanced lossy s (some (bulk_string b)) h = h

get_cluster_stats-IsBalanced :
    (lossy : List ℕ → Text) (answers : Answers) (s : Stats)
    → IsBalanced s
    → IsBalanced (get_cluster_stats lossy answers s)
unfolding get_cluster_stats
get_cluster_stats-IsBalanced lossy answers s h = elim (Bool-cases answers.connects) [
  | inl yes_ ↦ rw yes_ (
      heartbeat_or-IsBalanced (heartbeat_workers answers.get 0 (or_no_keys answers.keys))
        (consumer_stats lossy s answers.consumers)
        (consumer_stats-IsBalanced lossy s answers.consumers h))
  | inr not_ ↦ rw not_ h
]

stats-IsBalanced :
    (lossy : List ℕ → Text) (redis : Option Answers) (s : Stats)
    → IsBalanced s
    → IsBalanced (stats lossy redis s)
stats-IsBalanced lossy none s h = h
stats-IsBalanced lossy (some answers) s h = get_cluster_stats-IsBalanced lossy answers s h

-- Whatever steps the pool has taken and whatever Redis answers, the idle and the busy workers of
-- the health endpoint are its total together, if the pool does not move between the two reads.
pub health_balance :
    (lossy : List ℕ → Text) (redis : Option Answers)
    (max_mem submitters workers max_queue uptime : ℕ) (last : Pool) {p : Pool}
    → max_queue + submitters < 18446744073709551616
    → workers < 18446744073709551616
    → Steps max_mem submitters (new workers max_queue) p
    → let answer : HealthResponse = health lossy redis p p last uptime in
      answer.idle_workers + answer.busy_workers ≡ answer.total_workers
unfolding health
health_balance lossy redis max_mem submitters workers max_queue uptime last {p} narrow few steps =
    let counters = pool_counters max_mem submitters workers max_queue narrow few steps in
    stats-IsBalanced lossy redis (local_stats p p)
      (ground (arith, counters.0.busy, counters.0.slots))
