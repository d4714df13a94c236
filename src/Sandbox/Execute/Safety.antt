-- ===== src/Sandbox/Execute/Safety.antt =====
-- src/sandbox/mod.rs: what a sandboxed run does, in a safe order.
use akiro.Prelude.{ℕ, Option, none, some, List, [], ◌∷◌, ◌++◌, ◌==◌, if◌then◌else◌}
use akiro.Prelude.Result.{Result}
use akiro.Prelude.Text.{Text, codes, text_eq}
use akiro.Sandbox.Config.{SandboxConfig}
use akiro.Sandbox.Execute.{
  Effect, acquired, released, slept, child_started, registered, unregistered, attached, killed,
  supervised, directory_removed,
}

-- Where a run stands: before its admission; admitted with its units; with a child that is free, in
-- its group, no longer running, or no longer registered; all done; and finished.
pub data Phase : Type 0 where
  outside finished : Phase
  admitted cleared : ℕ → Phase
  free grouped over dead : ℕ → ℕ → Phase
  gone : ℕ → Phase

abbrev same_number : ℕ → ℕ → Phase → Option Phase
same_number a b next = if a == b then some next else none

abbrev same_path : Option Text → Text → Phase → Option Phase
same_path none path next = none
same_path (some root) path next = if text_eq root path then some next else none

abbrev nothing_left : Option Text → ℕ → ℕ → Option Phase
nothing_left none u v = same_number u v finished
nothing_left (some root) u v = none

-- Which effects are safe, for a jail with that root: a child is started only in a run that holds its
-- units; a free child may only be put in its group or killed, and only one in its group is
-- supervised; the units are only released, all of them, without a child or once it is unregistered
-- and, if it ran, the root of its jail is removed.
unfoldable pub safe_effect : Option Text → Phase → Effect → Option Phase
safe_effect root outside (acquired u) = some (admitted u)
safe_effect root (admitted u) (slept ms) = some (admitted u)
safe_effect root (admitted u) (child_started pid) = some (free u pid)
safe_effect root (admitted u) (released v) = same_number u v finished
safe_effect root (free u pid) (registered p) = same_number pid p (free u pid)
safe_effect root (free u pid) (attached p) = same_number pid p (grouped u pid)
safe_effect root (free u pid) (killed p) = same_number pid p (dead u pid)
safe_effect root (grouped u pid) (supervised p) = same_number pid p (over u pid)
safe_effect root (over u pid) (unregistered p) = same_number pid p (gone u)
safe_effect root (dead u pid) (unregistered p) = same_number pid p (cleared u)
safe_effect root (gone u) (directory_removed path) = same_path root path (cleared u)
safe_effect root (gone u) (released v) = nothing_left root u v
safe_effect root (cleared u) (released v) = same_number u v finished
safe_effect root phase effect = none

unfoldable pub follow : Option Text → Phase → List Effect → Option Phase
unfolding safe_effect
follow root phase [] = some phase
follow root phase (e ∷ es) = elim (safe_effect root phase e) [
  | none ↦ none
  | some next ↦ follow root next es
]

-- The root of the jail of a run, if its configuration asks for one: under the jail's own id, or a
-- fresh one.
abbrev pub jail_root : Text → SandboxConfig → Option Text
jail_root uuid config =
    if config.enable_fs_isolation
    then some (codes "/tmp/judge_root_" ++ elim config.jail_id [ [] ↦ uuid | c ∷ id ↦ c ∷ id ])
    else none

removal_of : Option Text → List Effect
removal_of none = []
removal_of (some root) = directory_removed root ∷ []
