-- ===== src/Api/Cluster/Heartbeats.antt =====
-- src/queue/redis.rs and src/api/handlers.rs: the figures that come of heartbeats, which go from the
-- nodes to the gateway through the store.
use akiro.Prelude.{
  ℕ, ◌+◌, ◌≤◌, ◌<◌, ◌≡◌, refl, ap, ◌∙◌, true, false, Option, none, some, List, [], ◌∷◌, map, All,
  if◌then◌else◌, arith,
}
use akiro.Prelude.Text.{Text, text_eq, text_eq_refl}
use akiro.Prelude.Word.{u64_max}
use akiro.Prelude.Decimal.{decimal}
use akiro.Prelude.Decimal.RoundTrip.{parse_unsigned-decimal}
use akiro.Queue.Redis.{Redis}
use akiro.Queue.Consumer.{new, heartbeat_key, heartbeat}
use akiro.Queue.Reclaim.{Value}
use akiro.Api.Cluster.{Stats, parse_usize, add_parsed, heartbeat_workers, get_cluster_stats}

-- A node's workers, and the identifier that its consumer drew.
pub record Beat : Type 0 where
  pub workers : ℕ
  pub uuid : Text

abbrev pub key_of : Beat → Text
key_of b = heartbeat_key (new b.workers none none b.uuid)

abbrev pub all_workers : List Beat → ℕ
all_workers [] = 0
all_workers (b ∷ bs) = b.workers + all_workers bs

-- No two nodes have one key.
abbrev pub Distinct : List Beat → Type 0
Distinct [] = Unit
Distinct (b ∷ bs) = All (λ c. text_eq (key_of c) (key_of b) ≡ false) bs × Distinct bs

abbrev Shows : (Text → Option Text) → Beat → Type 0
Shows get b = get (key_of b) ≡ some (decimal b.workers)

heartbeat_workers-Shows :
    (get : Text → Option Text) (bs : List Beat) (total : ℕ)
    → All (Shows get) bs
    → total + all_workers bs ≤ u64_max
    → heartbeat_workers get total (map key_of bs) ≡ total + all_workers bs
unfolding heartbeat_workers
heartbeat_workers-Shows get [] total s h = omega arith
heartbeat_workers-Shows get (b ∷ bs) total (s, ss) h =
    let parsed : parse_usize (get (key_of b)) ≡ some b.workers =
      ap parse_usize s ∙ parse_unsigned-decimal u64_max b.workers (omega arith) (omega arith) in
    let added : add_parsed total (parse_usize (get (key_of b))) ≡ total + b.workers =
      ap (add_parsed total) parsed ∙ omega arith in
    ap (λ n. heartbeat_workers get n (map key_of bs)) added
    ∙ (heartbeat_workers-Shows get bs (total + b.workers) ss (omega arith) ∙ omega arith)

module _ {Db : Type 0} (redis : Redis Db) where
  -- The nodes beat, one after the other.
  abbrev pub beats : List Beat → Db → Db
  beats [] d = d
  beats (b ∷ bs) d =
      beats bs (redis.perform (heartbeat (new b.workers none none b.uuid) b.workers) d)

  get-heartbeat :
      (b : Beat) (k : Text) (d : Db)
      → redis.get (redis.perform (heartbeat (new b.workers none none b.uuid) b.workers) d) k
        ≡ (if text_eq (key_of b) k then some (decimal b.workers) else redis.get d k)
  unfolding heartbeat
  get-heartbeat b k d = redis.get-perform (heartbeat (new b.workers none none b.uuid) b.workers) d k

  get-beats :
      (bs : List Beat) (k : Text) (d : Db)
      → All (λ c. text_eq (key_of c) k ≡ false) bs
      → redis.get (beats bs d) k ≡ redis.get d k
  get-beats [] k d h = refl
  get-beats (b ∷ bs) k d (h, hs) =
      get-beats bs k (redis.perform (heartbeat (new b.workers none none b.uuid) b.workers) d) hs
      ∙ (get-heartbeat b k d ∙ ap (λ t. if t then some (decimal b.workers) else redis.get d k) h)

  beats-Shows : (bs : List Beat) (d : Db) → Distinct bs → All (Shows (redis.get (beats bs d))) bs
  beats-Shows [] d h = tt
  beats-Shows (b ∷ bs) d (h, hs) =
      let d' = redis.perform (heartbeat (new b.workers none none b.uuid) b.workers) d in
      (
        get-beats bs (key_of b) d' h
            ∙ (get-heartbeat b (key_of b) d
                ∙ ap (λ t. if t then some (decimal b.workers) else redis.get d (key_of b))
                    (text_eq_refl (key_of b))),
        beats-Shows bs d' hs,
      )

  -- After nodes with distinct keys beat, and before a key expires, the gateway that finds their
  -- keys, in that order, shows all their workers, if there are any and the sum fits a `usize`, and every
  -- one of them as idle, whatever XINFO would answer.
  pub get_cluster_stats-beats :
      (lossy : List ℕ → Text) (bs : List Beat) (d : Db) (consumers : Option Value) (default : Stats)
      → Distinct bs
      → all_workers bs ≤ u64_max
      → 0 < all_workers bs
      → get_cluster_stats lossy
          (record {
            connects = true;
            keys = some (map key_of bs);
            get = redis.get (beats bs d);
            consumers = consumers;
          })
          default
        ≡ record { total_workers = all_workers bs; idle = all_workers bs; busy = 0 }
  unfolding get_cluster_stats
  get_cluster_stats-beats lossy bs d consumers default apart fits some_live =
      let sum =
        heartbeat_workers-Shows (redis.get (beats bs d)) bs 0 (beats-Shows bs d apart)
          (omega arith) in
      ground (arith, sum)
