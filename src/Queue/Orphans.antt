-- ===== src/Queue/Orphans.antt =====
-- src/queue/redis.rs: no entry is dropped by a reclaim sweep.
use akiro.Prelude.{
  ℕ, ◌≡◌, ◌⊎◌, inl, inr, Bool, true, false, Option, none, some, List, [], ◌∷◌, if◌then◌else◌,
}
use akiro.Prelude.Text.{Text}
use akiro.Orchestrator.Job.{JobRequest}
use akiro.Queue.Redis.{Redis, result_key}
use akiro.Queue.Reclaim.{Value, Line, Sweep, reclaim_message, reclaim_all, read_message, payload}
use akiro.Queue.Entry.{Settled, Accounted, reclaim_message-Accounted, reclaim_message-Stored}

abbrev pub Any : {A : Type 0} → (A → Type 0) → List A → Type 0
Any P [] = ⊥
Any P (x ∷ xs) = P x ⊎ Any P xs

module _ {Db : Type 0} (redis : Redis Db) (from_utf8_lossy : List ℕ → Text)
    (from_str : Text → Option JobRequest) (stream group : Text) where
  -- The message is that entry, and accounted for.
  abbrev pub IsSettled : Db → Text → Line × Value → Type 0
  IsSettled d i (line, msg) =
      Accounted redis from_utf8_lossy from_str stream group d i
        (read_message from_utf8_lossy from_str msg)

  abbrev Unchanged : Db → Db → Type 0
  Unchanged d after =
      (j json : Text)
      → redis.get d (result_key j) ≡ some json
      → redis.get after (result_key j) ≡ some json

  Settled-later :
      (d after : Db) (job : Option JobRequest)
      → Unchanged d after
      → Settled redis from_utf8_lossy from_str stream group d job
      → Settled redis from_utf8_lossy from_str stream group after job
  Settled-later d after none kept h = tt
  Settled-later d after (some request) kept (json, h) = (json, kept request.job_id json h)

  Accounted-later :
      (d after : Db) (i : Text) (read : Option (Text × Value))
      → Unchanged d after
      → Accounted redis from_utf8_lossy from_str stream group d i read
      → Accounted redis from_utf8_lossy from_str stream group after i read
  Accounted-later d after i none kept h = h
  Accounted-later d after i (some (id, fields)) kept (same, h) =
      (same, Settled-later d after (payload from_utf8_lossy from_str fields) kept h)

  abbrev turn : Line → Value → Sweep Db → Sweep Db
  turn line msg s =
      reclaim_message redis from_utf8_lossy from_str stream group line
        (read_message from_utf8_lossy from_str msg) s

  if_store :
      (P : Db → Type 0) (b : Bool) (x y : Sweep Db)
      → P x.store
      → P y.store
      → P (if b then x else y).store
  if_store P true x y h k = h
  if_store P false x y h k = k

  reclaim_all-Stored :
      (msgs : List (Line × Value)) (s : Sweep Db)
      → Unchanged s.store (reclaim_all redis from_utf8_lossy from_str stream group msgs s).store
  unfolding reclaim_all
  reclaim_all-Stored [] s j json h = h
  reclaim_all-Stored ((line, msg) ∷ rest) s j json h =
      let next = turn line msg s in
      let now =
        reclaim_message-Stored redis from_utf8_lossy from_str stream group line j json
          (read_message from_utf8_lossy from_str msg) s h in
      if_store (λ d. redis.get d (result_key j) ≡ some json) next.goes_on
        (reclaim_all redis from_utf8_lossy from_str stream group rest next) next
        (reclaim_all-Stored rest next j json now) now

  -- Of the entries that were claimed, each is still pending after the sweep, however far the sweep
  -- came and whichever of its commands failed, or a message with its id was found to have no job
  -- in it, or one with a job whose result can be read.
  pub reclaim_all-Accounted :
      (msgs : List (Line × Value)) (s : Sweep Db) (i : Text)
      → redis.owed s.store stream group i ≡ true
      → let after = (reclaim_all redis from_utf8_lossy from_str stream group msgs s).store in
        (redis.owed after stream group i ≡ true) ⊎ Any (IsSettled after i) msgs
  unfolding reclaim_all
  reclaim_all-Accounted [] s i h = inl h
  reclaim_all-Accounted ((line, msg) ∷ rest) s i h =
      let next = turn line msg s in
      let read = read_message from_utf8_lossy from_str msg in
      let end = reclaim_all redis from_utf8_lossy from_str stream group rest next in
      if_store
        (λ d. (redis.owed d stream group i ≡ true) ⊎ Any (IsSettled d i) ((line, msg) ∷ rest))
        next.goes_on end next
        (elim (reclaim_message-Accounted redis from_utf8_lossy from_str stream group line i read s
          h) [
            | inl kept ↦ elim (reclaim_all-Accounted rest next i kept) [
              | inl still ↦ inl still
              | inr later ↦ inr (inr later)
            ]
            | inr now ↦ inr (
                inl
                  (Accounted-later next.store end.store i read (reclaim_all-Stored rest next) now))
          ])
        (elim (reclaim_message-Accounted redis from_utf8_lossy from_str stream group line i read s
          h) [ inl kept ↦ inl kept | inr now ↦ inr (inl now) ])
