-- ===== src/Api/Cluster/Registered.antt =====
-- src/queue/redis.rs and src/api/handlers.rs: the name under which a consumer registers, and what
-- the health figures read from it.
use akiro.Prelude.{ℕ, ◌≤◌, ◌≡◌, refl, ap, ◌∙◌, false, some, List, [], ◌∷◌, ◌++◌, ◌==◌, All, arith}
use akiro.Prelude.Text.{Text, codes}
use akiro.Prelude.Word.{u64_max}
use akiro.Prelude.Decimal.{decimal}
use akiro.Prelude.Decimal.RoundTrip.{IsDigit, decimal-IsDigit, parse_unsigned-decimal}
use akiro.Prelude.Pieces.{split, cons_piece}
use akiro.Queue.Consumer.{consumer_name}
use akiro.Api.Cluster.{after, first, parse_usize, or_two, count_after, worker_count}

first-cons_piece :
    (x : ℕ) (s : Text) (pieces : List Text)
    → first pieces ≡ some s
    → first (cons_piece x pieces) ≡ some (x ∷ s)
first-cons_piece x s [] h = cc
first-cons_piece x s (piece ∷ pieces) h = cc

first-split : (s t : Text) → All IsDigit s → first (split b'-' (s ++ (codes "-" ++ t))) ≡ some s
first-split [] t h = refl
first-split (c ∷ s) t (h, hs) =
    let no_dash : (c == b'-') ≡ false = ground arith in
    rw no_dash (first-cons_piece c s (split b'-' (s ++ (codes "-" ++ t))) (first-split s t hs))

after-consumer_name :
    (n : ℕ) (uuid : Text)
    → after (codes "-w") (consumer_name n uuid) ≡ some (decimal n ++ (codes "-" ++ uuid))
unfolding after consumer_name
after-consumer_name n uuid = refl

-- The number of workers with which a consumer registers, in the name that `RedisConsumer::new` gives
-- it, is the number that the health figures read from that name, whatever the identifier in it.
pub worker_count-consumer_name :
    (n : ℕ) (uuid : Text) → n ≤ u64_max → worker_count (consumer_name n uuid) ≡ n
unfolding worker_count
worker_count-consumer_name n uuid h =
    ap count_after (after-consumer_name n uuid)
    ∙ (ap (λ piece. or_two (parse_usize piece)) (first-split (decimal n) uuid (decimal-IsDigit n))
        ∙ ap or_two (parse_unsigned-decimal u64_max n h h))
