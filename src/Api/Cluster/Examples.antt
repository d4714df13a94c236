-- ===== src/Api/Cluster/Examples.antt =====
-- src/api/handlers.rs: the figures of a cluster of two nodes.
use akiro.Prelude.{ℕ, ◌≡◌, refl, true, none, some, List, [], ◌∷◌, map, arith}
use akiro.Prelude.Text.{Text, codes}
use akiro.Queue.Consumer.{consumer_name, new, heartbeat_key}
use akiro.Prelude.Decimal.{decimal}
use akiro.Queue.Examples.{store, delivered}
use akiro.Queue.Reclaim.{array}
use akiro.Api.Cluster.{get_cluster_stats, Stats}
use akiro.Api.Cluster.Fleet.{Node, entries, get_cluster_stats-entries}
use akiro.Api.Cluster.Heartbeats.{Beat, key_of, beats, get_cluster_stats-beats}

abbrev as_ascii : List ℕ → Text
as_ascii bytes = bytes

abbrev nobody : Stats
nobody = record { total_workers = 0; idle = 0; busy = 0 }

-- The second node has been silent for three minutes.
abbrev nodes : List Node
nodes =
    record { workers = 8; uuid = codes "f81d"; idle_ms = 40; pending = 3 }
    ∷ record { workers = 4; uuid = codes "0a7c"; idle_ms = 180000; pending = 1 }
    ∷ []

get_cluster_stats-entries_example :
    get_cluster_stats as_ascii
      (record {
        connects = true;
        keys = some [];
        get = λ k. none;
        consumers = some (array (entries nodes));
      })
      nobody
    ≡ record { total_workers = 8; idle = 5; busy = 3 }
get_cluster_stats-entries_example =
    get_cluster_stats-entries as_ascii (λ s h. refl) nodes (λ k. none) nobody (omega arith)
      (omega arith) (omega arith) (omega arith)

abbrev two_beats : List Beat
two_beats =
    record { workers = 8; uuid = codes "f81d" } ∷ record { workers = 4; uuid = codes "0a7c" } ∷ []

get_cluster_stats-beats_example :
    get_cluster_stats as_ascii
      (record {
        connects = true;
        keys = some (map key_of two_beats);
        get = store.get (beats store two_beats delivered);
        consumers = none;
      })
      nobody
    ≡ record { total_workers = 12; idle = 12; busy = 0 }
unfolding heartbeat_key new consumer_name decimal
get_cluster_stats-beats_example =
    get_cluster_stats-beats store as_ascii two_beats delivered none nobody ((refl, tt), (tt, tt))
      (omega arith) (omega arith)
