-- ===== src/Queue/Redis.antt =====
-- The commands that src/queue/redis.rs and src/api/result_bus.rs send, and the store that carries
-- them out, a parameter with what the code relies on. Expiry is left out: what is said of the store
-- holds before the time to live of a key has passed.
use akiro.Prelude.{ℕ, ◌≡◌, Bool, false, ◌&&◌, Option, none, some, ◌++◌, if◌then◌else◌}
use akiro.Prelude.Text.{Text, codes, text_eq}

pub data Command : Type 0 where
  -- SET with EX, and with EX and NX: the key, the value and the seconds to live.
  set_ex set_nx : Text → Text → ℕ → Command
  del : Text → Command
  -- XACK: the stream, the group and the entry.
  xack : Text → Text → Text → Command
  -- PUBLISH: the channel and the message.
  publish : Text → Text → Command
  -- XADD of the field `job`: the stream, MAXLEN and the value.
  xadd : Text → Option ℕ → Text → Command

abbrev pub or_else : Option Text → Text → Option Text
or_else none v = some v
or_else (some u) v = some u

-- The value of a key after a command, from its value before.
abbrev pub value_after : Command → Text → Option Text → Option Text
value_after (Command.set_ex key v ttl) k old = if text_eq key k then some v else old
value_after (Command.set_nx key v ttl) k old = if text_eq key k then or_else old v else old
value_after (Command.del key) k old = if text_eq key k then none else old
value_after (Command.xack stream group id) k old = old
value_after (Command.publish channel message) k old = old
value_after (Command.xadd stream maxlen job) k old = old

-- Whether a delivered entry is pending, that is not acknowledged, after a command.
abbrev pub owed_after : Command → Text → Text → Text → Bool → Bool
owed_after (Command.xack stream group id) s g i old =
    if text_eq stream s && (text_eq group g && text_eq id i) then false else old
owed_after (Command.set_ex key v ttl) s g i old = old
owed_after (Command.set_nx key v ttl) s g i old = old
owed_after (Command.del key) s g i old = old
owed_after (Command.publish channel message) s g i old = old
owed_after (Command.xadd stream maxlen job) s g i old = old

-- The job of a stream's last entry after a command; trimming spares it.
abbrev pub newest_after : Command → Text → Option Text → Option Text
newest_after (Command.xadd stream maxlen job) s old = if text_eq stream s then some job else old
newest_after (Command.set_ex key v ttl) s old = old
newest_after (Command.set_nx key v ttl) s old = old
newest_after (Command.del key) s old = old
newest_after (Command.xack stream group id) s old = old
newest_after (Command.publish channel message) s old = old

pub record Redis (Db : Type 0) : Type 0 where
  pub perform : Command → Db → Db
  pub get : Db → Text → Option Text
  pub owed : Db → Text → Text → Text → Bool
  pub newest : Db → Text → Option Text
  pub get-perform :
      (c : Command) (d : Db) (k : Text) → get (perform c d) k ≡ value_after c k (get d k)
  pub owed-perform :
      (c : Command) (d : Db) (s g i : Text)
      → owed (perform c d) s g i ≡ owed_after c s g i (owed d s g i)
  pub newest-perform :
      (c : Command) (d : Db) (s : Text) → newest (perform c d) s ≡ newest_after c s (newest d s)

abbrev pub result_key : Text → Text
result_key job_id = codes "judge:results:" ++ job_id

abbrev pub pending_key : Text → Text
pending_key job_id = codes "judge:pending:" ++ job_id

abbrev pub done_channel : Text → Text
done_channel job_id = codes "judge:done:" ++ job_id
