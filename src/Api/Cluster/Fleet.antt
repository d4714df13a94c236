-- ===== src/Api/Cluster/Fleet.antt =====
-- src/api/handlers.rs: the figures that come of the consumers of the group.
use akiro.Prelude.{
  ℕ, ◌+◌, ◌-◌, ◌≤◌, ◌<◌, ◌≡◌, refl, ap, ◌∙◌, true, Option, some, List, [], ◌∷◌, ◌++◌, min, ltb,
  if◌then◌else◌, All, All-append, Bool-cases, inl, inr, arith,
}
use akiro.Prelude.Int.{pos}
use akiro.Prelude.Text.{Text, codes, IsAscii}
use akiro.Prelude.Word.{u64_max}
use akiro.Prelude.Decimal.{decimal}
use akiro.Prelude.Decimal.RoundTrip.{IsDigit, decimal-IsDigit}
use akiro.Queue.Consumer.{consumer_name}
use akiro.Queue.Reclaim.{Value, Values, int, bulk_string, array, end, item, elements}
use akiro.Api.Cluster.{
  Consumer, Totals, Stats, unread, read_fields, tally, count_consumers, consumer_stats,
  get_cluster_stats, heartbeat_workers,
}
use akiro.Api.Cluster.Registered.{worker_count-consumer_name}

-- A worker node: its workers, the identifier in its consumer's name, how long ago the consumer last
-- read, and its entries that are not acknowledged.
pub record Node : Type 0 where
  pub workers : ℕ
  pub uuid : Text
  pub idle_ms : ℕ
  pub pending : ℕ

-- What XINFO CONSUMERS answers of a node. An ASCII text is its own bytes.
abbrev pub entry : Node → Value
entry n = array (
    item (bulk_string (codes "name")) (
      item (bulk_string (consumer_name n.workers n.uuid)) (
        item (bulk_string (codes "pending")) (
          item (int (pos n.pending))
            (item (bulk_string (codes "idle")) (item (int (pos n.idle_ms)) end))))))

abbrev pub entries : List Node → Values
entries [] = end
entries (n ∷ ns) = item (entry n) (entries ns)

-- The workers, and the entries that are pending, of the nodes seen in the last two minutes.
abbrev pub live_workers : List Node → ℕ
live_workers [] = 0
live_workers (n ∷ ns) = (if ltb n.idle_ms 120000 then n.workers else 0) + live_workers ns

abbrev pub live_pending : List Node → ℕ
live_pending [] = 0
live_pending (n ∷ ns) = (if ltb n.idle_ms 120000 then n.pending else 0) + live_pending ns

digits-IsAscii : (s : Text) → All IsDigit s → IsAscii s
digits-IsAscii [] h = tt
digits-IsAscii (c ∷ s) (h, hs) = (ground arith, digits-IsAscii s hs)

consumer_name-IsAscii : (n : ℕ) (uuid : Text) → IsAscii uuid → IsAscii (consumer_name n uuid)
unfolding consumer_name
consumer_name-IsAscii n uuid h =
    All-append (λ c. c < 0x80) (codes "worker-w") (decimal n ++ (codes "-" ++ uuid)) (omega arith)
      (All-append (λ c. c < 0x80) (decimal n) (codes "-" ++ uuid)
        (digits-IsAscii (decimal n) (decimal-IsDigit n)) (omega arith, h))

module _ (lossy : List ℕ → Text) (on_ascii : (s : Text) → IsAscii s → lossy s ≡ s) where
  abbrev named : Node → Consumer
  named n = record {
    name = consumer_name n.workers n.uuid;
    idle_ms = pos n.idle_ms;
    pending = n.pending;
  }

  read_entry :
      (n : Node)
      → IsAscii n.uuid
      → read_fields lossy
          (item (bulk_string (codes "name")) (
            item (bulk_string (consumer_name n.workers n.uuid)) (
              item (bulk_string (codes "pending")) (
                item
                  (int (pos n.pending))
                  (item (bulk_string (codes "idle")) (item (int (pos n.idle_ms)) end))))))
          unread
        ≡ named n
  unfolding read_fields
  read_entry n h =
      rw
        (
          on_ascii (codes "name") (omega arith),
          on_ascii (codes "pending") (omega arith),
          on_ascii (codes "idle") (omega arith),
          on_ascii (consumer_name n.workers n.uuid) (consumer_name-IsAscii n.workers n.uuid h),
        )
        refl

  tally-named :
      (n : Node) (t : Totals)
      → t.total + (if ltb n.idle_ms 120000 then n.workers else 0) ≤ u64_max
      → t.total_pending + (if ltb n.idle_ms 120000 then n.pending else 0) ≤ u64_max
      → tally (named n) t ≡ record {
        total = t.total + (if ltb n.idle_ms 120000 then n.workers else 0);
        total_pending = t.total_pending + (if ltb n.idle_ms 120000 then n.pending else 0);
      }
  unfolding tally
  tally-named n t h k = elim (Bool-cases (ltb n.idle_ms 120000)) [
    | inl recent ↦
        let fits : n.workers ≤ u64_max = ground arith in
        ground (arith, worker_count-consumer_name n.workers n.uuid fits)
    | inr old ↦ ground arith
  ]

  count_consumers-entries :
      (ns : List Node) (t : Totals)
      → All (λ n. IsAscii n.uuid) ns
      → t.total + live_workers ns ≤ u64_max
      → t.total_pending + live_pending ns ≤ u64_max
      → count_consumers lossy (elements (entries ns)) t ≡ record {
        total = t.total + live_workers ns;
        total_pending = t.total_pending + live_pending ns;
      }
  unfolding count_consumers
  count_consumers-entries [] t a h k = ground arith
  count_consumers-entries (n ∷ ns) t (a, as_) h k =
      let step =
        ap (λ c. tally c t) (read_entry n a) ∙ tally-named n t (omega arith) (omega arith) in
      ap (count_consumers lossy (elements (entries ns))) step
      ∙ (count_consumers-entries ns
            (record {
              total = t.total + (if ltb n.idle_ms 120000 then n.workers else 0);
              total_pending = t.total_pending + (if ltb n.idle_ms 120000 then n.pending else 0);
            })
            as_ (omega arith) (omega arith)
          ∙ ground arith)

  -- Where bytes of ASCII text are read as they are and the sums fit a `usize`, a cluster without a
  -- heartbeat key whose nodes registered by `RedisConsumer::new` shows as its workers those of the
  -- nodes that were active in the last two minutes, if there are any, and as many of them busy as
  -- they have pending entries, at most all.
  pub get_cluster_stats-entries :
      (ns : List Node) (get : Text → Option Text) (default : Stats)
      → All (λ n. IsAscii n.uuid) ns
      → live_workers ns ≤ u64_max
      → live_pending ns ≤ u64_max
      → 0 < live_workers ns
      → get_cluster_stats lossy
          (record {
            connects = true;
            keys = some [];
            get = get;
            consumers = some (array (entries ns));
          })
          default
        ≡ record {
          total_workers = live_workers ns;
          idle = live_workers ns - min (live_pending ns) (live_workers ns);
          busy = min (live_pending ns) (live_workers ns);
        }
  unfolding get_cluster_stats heartbeat_workers consumer_stats
  get_cluster_stats-entries ns get default a h k some_live = ground (
    arith,
    count_consumers-entries ns (record { total = 0; total_pending = 0 }) a (omega arith)
        (omega arith),
  )
