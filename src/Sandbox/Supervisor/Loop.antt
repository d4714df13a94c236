-- ===== src/Sandbox/Supervisor/Loop.antt =====
-- src/sandbox/supervisor.rs: the supervision loop ends, and kills the process tree.
use akiro.Prelude.{
  ℕ, ◌+◌, ◌≤◌, ◌<◌, ◌≡◌, refl, sym, ◌∙◌, true, false, Option, none, some, List, [], ◌∷◌, ◌++◌, leb,
  Bool-cases, Option-cases, inl, inr, All, arith, subst,
}
use akiro.Sandbox.Config.{SandboxConfig}
use akiro.Sandbox.Supervisor.{
  Libc, Rusage, Poll, Ended, zeroed, on_exit, build_result, supervise_from, supervise,
}

module _ (libc : Libc) (config : SandboxConfig) where
  -- What a round that finds the deadline of the grace passed makes up.
  abbrev pub made_up : ℕ → Poll → Ended
  made_up kills p = record {
    result = build_result libc config p.stats libc.sigkill zeroed p.wall;
    kills = kills;
  }

  on_taken :
      (grace : Option ℕ) (kills : ℕ) (p : Poll) (ps : List Poll) (exit : ℕ × Rusage)
      → p.taken ≡ some exit
      → supervise_from libc config grace kills (p ∷ ps)
        ≡ some (on_exit libc config grace kills p exit)
  unfolding supervise_from
  on_taken grace kills p ps exit e = rw e refl

  on_wait :
      (kills : ℕ) (p : Poll) (ps : List Poll)
      → p.taken ≡ none
      → leb config.wall_time_limit_ms p.elapsed ≡ false
      → supervise_from libc config none kills (p ∷ ps) ≡ supervise_from libc config none kills ps
  unfolding supervise_from
  on_wait kills p ps e f = rw (e, f) refl

  on_limit :
      (kills : ℕ) (p : Poll) (ps : List Poll)
      → p.taken ≡ none
      → leb config.wall_time_limit_ms p.elapsed ≡ true
      → supervise_from libc config none kills (p ∷ ps)
        ≡ supervise_from libc config (some (p.now + 1000)) (kills + 1) ps
  unfolding supervise_from
  on_limit kills p ps e f = rw (e, f) (rw (later p.now) refl)
    where
      later : (n : ℕ) → leb (n + 1000) n ≡ false
      later n = ground arith

  on_grace :
      (d kills : ℕ) (p : Poll) (ps : List Poll)
      → p.taken ≡ none
      → leb d p.now ≡ false
      → supervise_from libc config (some d) kills (p ∷ ps)
        ≡ supervise_from libc config (some d) kills ps
  unfolding supervise_from
  on_grace d kills p ps e f = rw (e, f) refl

  on_late :
      (d kills : ℕ) (p : Poll) (ps : List Poll)
      → p.taken ≡ none
      → leb d p.now ≡ true
      → supervise_from libc config (some d) kills (p ∷ ps) ≡ some (made_up kills p)
  unfolding supervise_from
  on_late d kills p ps e f = rw (e, f) refl

  -- No exit yet, and the wall-time limit is not reached.
  abbrev pub Waits : Poll → Type 0
  Waits p = (p.taken ≡ none) × (p.elapsed < config.wall_time_limit_ms)

  waited :
      (before ps : List Poll) (kills : ℕ)
      → All Waits before
      → supervise_from libc config none kills (before ++ ps)
        ≡ supervise_from libc config none kills ps
  waited [] ps kills h = refl
  waited (q ∷ before) ps kills ((e, lt), h) =
      on_wait kills q (before ++ ps) e (ground arith) ∙ waited before ps kills h

  -- A child whose exit is there before the wall-time limit is judged by that exit, and its process
  -- tree is killed once, whatever rounds would have come.
  pub supervise_in_time :
      (before after : List Poll) (p : Poll) (exit : ℕ × Rusage)
      → All Waits before
      → p.taken ≡ some exit
      → supervise libc config (before ++ p ∷ after)
        ≡ some
            (record { result = build_result libc config p.stats exit.0 exit.1 p.wall; kills = 1 })
  unfolding supervise
  supervise_in_time before after p exit h e =
      waited before (p ∷ after) 0 h ∙ on_taken none 0 p after exit e

  abbrev KillsOnce : Option Ended → Type 0
  KillsOnce none = Unit
  KillsOnce (some e) = e.kills ≡ 1

  grace_once : (ps : List Poll) (d : ℕ) → KillsOnce (supervise_from libc config (some d) 1 ps)
  unfolding supervise_from
  grace_once [] d = tt
  grace_once (p ∷ ps) d = elim (Option-cases p.taken) [
    | inr (exit, e) ↦ subst KillsOnce (sym (on_taken (some d) 1 p ps exit e)) refl
    | inl e ↦ elim (Bool-cases (leb d p.now)) [
      | inl f ↦ subst KillsOnce (sym (on_late d 1 p ps e f)) refl
      | inr f ↦ subst KillsOnce (sym (on_grace d 1 p ps e f)) (grace_once ps d)
    ]
  ]

  first_once : (ps : List Poll) → KillsOnce (supervise_from libc config none 0 ps)
  unfolding supervise_from
  first_once [] = tt
  first_once (p ∷ ps) = elim (Option-cases p.taken) [
    | inr (exit, e) ↦ subst KillsOnce (sym (on_taken none 0 p ps exit e)) refl
    | inl e ↦ elim (Bool-cases (leb config.wall_time_limit_ms p.elapsed)) [
      | inl f ↦ subst KillsOnce (sym (on_limit 0 p ps e f)) (grace_once ps _)
      | inr f ↦ subst KillsOnce (sym (on_wait 0 p ps e f)) (first_once ps)
    ]
  ]

  -- However supervision ends, it has killed the child's process tree exactly once.
  pub supervise_kills_once :
      (ps : List Poll) (e : Ended) → supervise libc config ps ≡ some e → e.kills ≡ 1
  unfolding supervise
  supervise_kills_once ps e h = subst KillsOnce h (first_once ps)

  abbrev Ends : Option Ended → Type 0
  Ends o = (e : Ended) × (o ≡ some e)

  untaken-Ends :
      (grace : Option ℕ) (kills : ℕ) (p : Poll) (ps : List Poll)
      → (p.taken ≡ none → Ends (supervise_from libc config grace kills (p ∷ ps)))
      → Ends (supervise_from libc config grace kills (p ∷ ps))
  untaken-Ends grace kills p ps k = elim (Option-cases p.taken) [
    | inr (exit, e) ↦ (_, on_taken grace kills p ps exit e)
    | inl e ↦ k e
  ]

  grace-Ends :
      (d kills : ℕ) (between after : List Poll) (q : Poll)
      → d ≤ q.now
      → Ends (supervise_from libc config (some d) kills (between ++ q ∷ after))
  grace-Ends d kills [] after q h =
      untaken-Ends _ kills q after (λ e. (_, on_late d kills q after e (ground arith)))
  grace-Ends d kills (p ∷ between) after q h = untaken-Ends _ kills p (between ++ q ∷ after) (λ e.
      elim (Bool-cases (leb d p.now)) [
        | inl f ↦ (_, on_late d kills p _ e f)
        | inr f ↦ subst Ends (sym (on_grace d kills p _ e f)) (grace-Ends d kills between after q h)
      ])

  limit-Ends :
      (p : Poll) (between after : List Poll) (q : Poll)
      → config.wall_time_limit_ms ≤ p.elapsed
      → p.now + 1000 ≤ q.now
      → Ends (supervise_from libc config none 0 (p ∷ between ++ q ∷ after))
  limit-Ends p between after q h k = untaken-Ends none 0 p (between ++ q ∷ after) (λ e.
      subst Ends (sym (on_limit 0 p _ e (ground arith)))
        (grace-Ends (p.now + 1000) 1 between after q k))

  -- Supervision ends: rounds of which one reads the wall-time limit as reached, and a later one
  -- reads the clock a second after it, are enough, whether an exit is ever delivered or not; the
  -- rounds before that one have no exit to take and are within the limit.
  pub supervise_ends :
      (before between after : List Poll) (p q : Poll)
      → All Waits before
      → config.wall_time_limit_ms ≤ p.elapsed
      → p.now + 1000 ≤ q.now
      → (e : Ended) × (supervise libc config (before ++ (p ∷ (between ++ q ∷ after))) ≡ some e)
  unfolding supervise
  supervise_ends before between after p q w h k =
      subst Ends (sym (waited before (p ∷ between ++ q ∷ after) 0 w))
        (limit-Ends p between after q h k)
