-- ===== src/Queue/Rounds.antt =====
-- src/queue/redis.rs: connecting, and the rounds of the main loop.
use akiro.Prelude.{ℕ, zero, suc, min, max, Bool, true, false, Option, none, some, List, [], ◌∷◌}
use akiro.Prelude.Text.{Text, codes, parse_unsigned}
use akiro.Prelude.Word.{u64_max, mul64}
use akiro.Orchestrator.Job.{JobRequest}
use akiro.Queue.Redis.{Command}
use akiro.Queue.Consumer.{RedisConsumer, heartbeat}
use akiro.Queue.Reclaim.{Value, first_two, text_of, messages_of, accept_reply}

-- What the loop asks of Redis and the clock. The groups and consumers of a stream are not part of
-- the store, so creating them is no command of Queue.Redis.
pub data LoopAction : Type 0 where
  connects : LoopAction
  sleeps : ℕ → LoopAction
  -- XGROUP CREATE and XGROUP CREATECONSUMER.
  creates_group : (stream group : Text) → LoopAction
  creates_consumer : (stream group consumer : Text) → LoopAction
  sets : Command → LoopAction
  -- XREADGROUP: the block in milliseconds and the count.
  reads : (stream group consumer : Text) (block count : ℕ) → LoopAction

-- The connection at the start: `answers` says which of the attempts succeed. The result says
-- whether there is a connection; an attempt is followed by a pause if it fails and is not the last.
pub record Connected : Type 0 where
  pub is_connected : Bool
  pub actions : List LoopAction

abbrev pub after_connect : Bool → ℕ → Connected → Connected
after_connect true left rest = record { is_connected = true; actions = connects ∷ [] }
after_connect false zero rest = record { is_connected = false; actions = connects ∷ [] }
after_connect false (suc left) rest = record {
  is_connected = rest.is_connected;
  actions = connects ∷ sleeps 500 ∷ rest.actions;
}

-- `left` attempts may still fail without ending the loop.
unfoldable pub connect_from : ℕ → (ℕ → Bool) → Connected
connect_from zero answers =
    after_connect (answers 0) 0 (record { is_connected = false; actions = [] })
connect_from (suc left) answers =
    let rest = connect_from left (λ n. answers (suc n)) in after_connect (answers 0) (suc left) rest

unfoldable pub connect : (ℕ → Bool) → Connected
unfolding connect_from
connect answers = connect_from 10 answers

unfoldable pub capacity : ℕ → ℕ
capacity num_workers = max (mul64 num_workers 2) 4

unfoldable pub batch_size : ℕ → ℕ → ℕ
batch_size num_workers available_permits = min (max available_permits 1) (max num_workers 4)

abbrev pub or_seconds : Option ℕ → ℕ
or_seconds none = 1800
or_seconds (some n) = n

-- From `JUDGE_RESULT_TTL_SECS`.
unfoldable pub result_ttl : Option Text → ℕ
result_ttl none = 1800
result_ttl (some s) = or_seconds (parse_unsigned u64_max s)

unfoldable pub prologue : RedisConsumer → List LoopAction
prologue c =
    creates_group c.stream_key c.consumer_group
    ∷ creates_consumer c.stream_key c.consumer_group c.consumer_name
    ∷ []

-- The reply of XREADGROUP, or its failure and whether the connection is made again.
pub data ReadReply : Type 0 where
  replied : Value → ReadReply
  failed : Bool → ReadReply

abbrev pub reconnects : RedisConsumer → Bool → List LoopAction
reconnects c false = []
reconnects c true = creates_group c.stream_key c.consumer_group ∷ []

abbrev pub after_read : RedisConsumer → ReadReply → List LoopAction
after_read c (replied reply) = []
after_read c (failed again) = sleeps 1000 ∷ connects ∷ reconnects c again

unfoldable pub round_actions : RedisConsumer → ℕ → ℕ → ReadReply → List LoopAction
unfolding batch_size
round_actions c num_workers available answer =
    sets (heartbeat c num_workers)
    ∷ creates_consumer c.stream_key c.consumer_group c.consumer_name
    ∷ reads c.stream_key c.consumer_group c.consumer_name 2000 (batch_size num_workers available)
    ∷ after_read c answer

-- The jobs that the round starts, in the order of their permits.
unfoldable pub round_jobs :
    (List ℕ → Text) → (Text → Option JobRequest) → ReadReply → List (Text × JobRequest)
round_jobs from_utf8_lossy from_str (replied reply) = accept_reply from_utf8_lossy from_str reply
round_jobs from_utf8_lossy from_str (failed again) = []

-- What XAUTOCLAIM answers: a reply, or a failure.
pub data ClaimAnswer : Type 0 where
  claimed : Value → ClaimAnswer
  unanswered : ClaimAnswer

abbrev pub first_cursor : Text
first_cursor = codes "0-0"

abbrev pub or_first : Option Text → Text
or_first none = first_cursor
or_first (some cursor) = cursor

abbrev pub items_of : ClaimAnswer → Option (Value × Value)
items_of unanswered = none
items_of (claimed reply) = first_two reply

-- The cursor of the next sweep.
abbrev pub cursor_of : (List ℕ → Text) → (Text → Option JobRequest) → Option (Value × Value) → Text
cursor_of from_utf8_lossy from_str none = first_cursor
cursor_of from_utf8_lossy from_str (some (cursor, messages)) =
    or_first (text_of from_utf8_lossy from_str cursor)

unfoldable pub next_cursor : (List ℕ → Text) → (Text → Option JobRequest) → ClaimAnswer → Text
next_cursor from_utf8_lossy from_str answer = cursor_of from_utf8_lossy from_str (items_of answer)

-- The messages whose turns make up the sweep.
unfoldable pub claimed_messages :
    (List ℕ → Text) → (Text → Option JobRequest) → ClaimAnswer → List Value
claimed_messages from_utf8_lossy from_str answer =
    messages_of from_utf8_lossy from_str (items_of answer)
