-- ===== src/Sandbox/Reaper.antt =====
-- src/sandbox/reaper.rs: the exits of children, routed to those who wait for them. A slot is shared
-- by the registry and a handle, so slots are places of a store. Pids are positive; `wait4` is the
-- list of the children that it returns before it has none.
pub mod Routing
pub mod Delivery
pub mod Reuse
pub mod Examples
use akiro.Prelude.{ℕ, suc, Bool, Option, none, some, List, [], ◌∷◌, ◌==◌, if◌then◌else◌}
use akiro.Sandbox.Supervisor.{Rusage}

-- The status and the usage.
abbrev pub ChildExit : Type 0
ChildExit = ℕ × Rusage

pub record Reaper : Type 0 where
  -- The slot registered for a pid.
  pub registry : ℕ → Option ℕ
  -- What each slot holds.
  pub slots : ℕ → Option ChildExit
  -- The next slot to be made.
  pub next : ℕ

pub record SupervisedChild : Type 0 where
  pub pid : ℕ
  pub slot : ℕ

abbrev pub set {ℓ} : {A : Type ℓ} → ℕ → A → (ℕ → A) → ℕ → A
set key value f k = if k == key then value else f k

unfoldable pub register_child : ℕ → Reaper → SupervisedChild × Reaper
register_child pid s = (
  record { pid = pid; slot = s.next },
  record {
    registry = set pid (some s.next) s.registry;
    slots = set s.next none s.slots;
    next = suc s.next;
  },
)

unfoldable pub try_take : SupervisedChild → Reaper → Option ChildExit × Reaper
try_take child s = (s.slots child.slot, record s { slots = set child.slot none s.slots })

unfoldable pub drop_child : SupervisedChild → Reaper → Reaper
drop_child child s = record s { registry = set child.pid none s.registry }

abbrev pub stash : Option ℕ → ChildExit → Reaper → Reaper
stash none exit s = s
stash (some slot) exit s = record s { slots = set slot (some exit) s.slots }

-- The loop over what `wait4` returns.
unfoldable pub reap_all : List (ℕ × ChildExit) → Reaper → Reaper
reap_all [] s = s
reap_all ((pid, exit) ∷ exits) s = reap_all exits (stash (s.registry pid) exit s)
