-- ===== src/Api/Cluster.antt =====
-- src/api/handlers.rs: the figures of the cluster and the health endpoint. What Redis answers and the
-- decoding of bytes are parameters; counts are a `usize` of 64 bits.
pub mod Registered
pub mod Balance
pub mod Fleet
pub mod Heartbeats
pub mod Examples
use akiro.Prelude.{ℕ, Bool, true, false, Option, none, some, List, [], ◌∷◌, min, ltb, if◌then◌else◌}
use akiro.Prelude.Int.{ℤ, pos, negsuc}
use akiro.Prelude.Text.{Text, codes, text_eq, strip_prefix, parse_unsigned}
use akiro.Prelude.Word.{u64_max, add64, saturating_sub}
use akiro.Prelude.Pieces.{split}
use akiro.Queue.Reclaim.{Value, Values, nil, other, int, bulk_string, array, end, item, elements}
use akiro.Metrics.{Metrics}
use akiro.Metrics.Prometheus.{render_prometheus}
use akiro.Orchestrator.Pool.{Pool, idle_workers}

pub record Consumer : Type 0 where
  pub name : Text
  pub idle_ms : ℤ
  pub pending : ℕ

abbrev pub unread : Consumer
unread = record { name = []; idle_ms = pos 0; pending = 0 }

-- `v.max(0) as usize`.
abbrev pub at_least_zero : ℤ → ℕ
at_least_zero (pos n) = n
at_least_zero (negsuc n) = 0

abbrev pub set_idle : Value → Consumer → Consumer
set_idle (int n) c = record c { idle_ms = n }
set_idle nil c = c
set_idle other c = c
set_idle (bulk_string b) c = c
set_idle (array xs) c = c

abbrev pub set_pending : Value → Consumer → Consumer
set_pending (int n) c = record c { pending = at_least_zero n }
set_pending nil c = c
set_pending other c = c
set_pending (bulk_string b) c = c
set_pending (array xs) c = c

-- `find` and the slice after what was found.
unfoldable pub after : Text → Text → Option Text
after pattern [] = strip_prefix pattern []
after pattern (c ∷ s) =
    let rest = after pattern s in
    elim (strip_prefix pattern (c ∷ s)) [ none ↦ rest | some found ↦ some found ]

abbrev pub first : List Text → Option Text
first [] = none
first (piece ∷ pieces) = some piece

abbrev pub parse_usize : Option Text → Option ℕ
parse_usize none = none
parse_usize (some s) = parse_unsigned u64_max s

abbrev pub or_two : Option ℕ → ℕ
or_two none = 2
or_two (some n) = n

abbrev pub count_after : Option Text → ℕ
count_after none = 2
count_after (some rest) = or_two (parse_usize (first (split b'-' rest)))

unfoldable pub worker_count : Text → ℕ
unfolding after
worker_count name = count_after (after (codes "-w") name)

abbrev pub is_recent : ℤ → Bool
is_recent (pos n) = ltb n 120000
is_recent (negsuc n) = true

pub record Totals : Type 0 where
  pub total : ℕ
  pub total_pending : ℕ

unfoldable pub tally : Consumer → Totals → Totals
unfolding worker_count
tally c t =
    if is_recent c.idle_ms
    then record {
      total = add64 t.total (worker_count c.name);
      total_pending = add64 t.total_pending c.pending;
    }
    else t

module _ (from_utf8_lossy : List ℕ → Text) where
  abbrev pub set_name : Value → Consumer → Consumer
  set_name (bulk_string b) c = record c { name = from_utf8_lossy b }
  set_name nil c = c
  set_name other c = c
  set_name (int n) c = c
  set_name (array xs) c = c

  -- The `match` on the name of a field.
  abbrev pub set_field : Text → Value → Consumer → Consumer
  set_field k v c =
      if text_eq k (codes "name")
      then set_name v c
      else if text_eq k (codes "idle")
      then set_idle v c
      else if text_eq k (codes "pending")
      then set_pending v c
      else c

  abbrev pub read_field : Value → Value → Consumer → Consumer
  read_field (bulk_string b) v c = set_field (from_utf8_lossy b) v c
  read_field nil v c = c
  read_field other v c = c
  read_field (int n) v c = c
  read_field (array xs) v c = c

  unfoldable pub read_fields : Values → Consumer → Consumer
  read_fields end c = c
  read_fields (item k end) c = c
  read_fields (item k (item v rest)) c = read_fields rest (read_field k v c)

  abbrev pub count_consumer : Value → Totals → Totals
  count_consumer (array fields) t = tally (read_fields fields unread) t
  count_consumer nil t = t
  count_consumer other t = t
  count_consumer (int n) t = t
  count_consumer (bulk_string b) t = t

  unfoldable pub count_consumers : List Value → Totals → Totals
  unfolding read_fields tally
  count_consumers [] t = t
  count_consumers (v ∷ vs) t = count_consumers vs (count_consumer v t)

-- What Redis answers; without a connection the rest is not asked.
pub record Answers : Type 0 where
  pub connects : Bool
  pub keys : Option (List Text)
  pub get : Text → Option Text
  pub consumers : Option Value

abbrev pub add_parsed : ℕ → Option ℕ → ℕ
add_parsed total none = total
add_parsed total (some count) = add64 total count

unfoldable pub heartbeat_workers : (Text → Option Text) → ℕ → List Text → ℕ
heartbeat_workers get total [] = total
heartbeat_workers get total (key ∷ keys) =
    heartbeat_workers get (add_parsed total (parse_usize (get key))) keys

abbrev pub or_no_keys : Option (List Text) → List Text
or_no_keys none = []
or_no_keys (some keys) = keys

-- The workers, the idle ones and the busy ones.
pub record Stats : Type 0 where
  pub total_workers : ℕ
  pub idle : ℕ
  pub busy : ℕ

abbrev pub stats_of : Totals → Stats
stats_of t =
    let busy = min t.total_pending t.total in
    record { total_workers = t.total; idle = saturating_sub t.total busy; busy = busy }

abbrev pub counted_or : Stats → Totals → Stats
counted_or default t = if ltb 0 t.total then stats_of t else default

unfoldable pub consumer_stats : (List ℕ → Text) → Stats → Option Value → Stats
unfolding count_consumers
consumer_stats lossy default none = default
consumer_stats lossy default (some (array consumers)) =
    counted_or default
      (count_consumers lossy (elements consumers) (record { total = 0; total_pending = 0 }))
consumer_stats lossy default (some nil) = default
consumer_stats lossy default (some other) = default
consumer_stats lossy default (some (int n)) = default
consumer_stats lossy default (some (bulk_string b)) = default

abbrev pub heartbeat_or : ℕ → Stats → Stats
heartbeat_or total rest =
    if ltb 0 total then record { total_workers = total; idle = total; busy = 0 } else rest

unfoldable pub get_cluster_stats : (List ℕ → Text) → Answers → Stats → Stats
unfolding heartbeat_workers consumer_stats
get_cluster_stats lossy answers default =
    if answers.connects
    then heartbeat_or (heartbeat_workers answers.get 0 (or_no_keys answers.keys))
        (consumer_stats lossy default answers.consumers)
    else default

pub record HealthResponse : Type 0 where
  pub idle_workers : ℕ
  pub busy_workers : ℕ
  pub queued_jobs : ℕ
  pub total_workers : ℕ
  pub uptime_secs : ℕ

-- From the pool as it is when its idle workers are read, and then when its busy ones are.
abbrev pub local_stats : Pool → Pool → Stats
local_stats pool later = record {
  total_workers = pool.num_workers;
  idle = idle_workers pool;
  busy = later.busy_workers;
}

-- Without a URL of Redis there is no cluster to ask.
abbrev pub stats : (List ℕ → Text) → Option Answers → Stats → Stats
stats lossy none own = own
stats lossy (some answers) own = get_cluster_stats lossy answers own

-- From the pool at its three reads.
unfoldable pub health : (List ℕ → Text) → Option Answers → Pool → Pool → Pool → ℕ → HealthResponse
unfolding get_cluster_stats
health lossy redis pool later last uptime =
    let s = stats lossy redis (local_stats pool later) in
    record {
      idle_workers = s.idle;
      busy_workers = s.busy;
      queued_jobs = last.queued_jobs;
      total_workers = s.total_workers;
      uptime_secs = uptime;
    }

-- The body of the metrics endpoint, from the counters and what /proc/self/statm holds.
unfoldable pub metrics :
    (List ℕ → Text) → Option Answers → Pool → Pool → Pool → ℕ → Option Text → Metrics → Text
unfolding get_cluster_stats
metrics lossy redis pool later last uptime statm m =
    let s = stats lossy redis (local_stats pool later) in
    render_prometheus statm m (record {
      total_workers = s.total_workers;
      idle_workers = s.idle;
      busy_workers = s.busy;
      queued_jobs = last.queued_jobs;
      uptime_secs = uptime;
    })
