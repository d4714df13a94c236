-- ===== src/Sandbox/Fs/Binds.antt =====
-- src/sandbox/fs.rs: what has succeeded once the read-only paths are bound.
use akiro.Prelude.{
  ◌≡◌, inl, inr, Bool-cases, Bool, true, false, not, ◌&&◌, Option, none, some, List, [], ◌∷◌,
}
use akiro.Prelude.Text.{Text}
use akiro.Prelude.FilePath.{join, parent}
use akiro.Sandbox.Kernel.{
  Call, Kernel, Log, ms_rec, ms_bind, ms_rdonly, ms_remount, FsError, dir_creation_failed,
}
use akiro.Sandbox.Kernel.Call.{mkdirs, mount}
use akiro.Sandbox.Kernel.Logic.{Seen, Keeps, Keeps-go_on, Keeps-weaken}
use akiro.Sandbox.Kernel.Adds.{
  Adds, Adds-then, Adds-must, Adds-may, Adds-seq, Adds-weak, Adds-pure, Adds-when, Adds-unwrap,
}
use akiro.Sandbox.Fs.{
  Fs, for_each, relative, make_dir, required_dirs, make_parent, bind_twice, bind_readonly,
  bind_if_there, setup_readonly_mounts,
}

Adds-for_each :
    {A : Type 0} (f : A → Fs) (xs : List A) → ((x : A) → Adds [] (f x)) → Adds [] (for_each f xs)
unfolding for_each
Adds-for_each f [] a = Adds-pure FsError
Adds-for_each f (x ∷ xs) a = Adds-seq (f x) (for_each f xs) (a x) (Adds-for_each f xs a)

Adds-make_parent : (o : Option Text) → Adds [] (make_parent o)
Adds-make_parent none = Adds-pure FsError
Adds-make_parent (some dir) = Adds-may FsError (mkdirs dir)

abbrev pub bind_mount : Text → Text → Call
bind_mount source target = mount source target [] (ms_bind ∷ ms_rec ∷ []) []

abbrev pub bind_remount : Text → Text → Call
bind_remount source target =
    mount source target [] (ms_bind ∷ ms_rec ∷ ms_rdonly ∷ ms_remount ∷ []) []

Adds-bind_twice :
    (source target : Text) (missing : Bool)
    → Adds
        (bind_remount source target ∷ bind_mount source target ∷ [])
        (bind_twice source target missing)
unfolding bind_twice
Adds-bind_twice source target missing =
    let both = bind_remount source target ∷ bind_mount source target ∷ [] in
    Adds-then [] both _ _
      (Adds-when missing _ (Adds-weak (dir_creation_failed target) (mkdirs target)))
      (Adds-then [] both _ _ (Adds-unwrap FsError source) (
        Adds-then [] both _ _ (Adds-unwrap FsError target)
          (Adds-then (_ ∷ []) (_ ∷ []) _ _ (Adds-must _ _) (Adds-must _ _))))

Adds-bind_readonly :
    (source target : Text)
    → Adds
        (bind_remount source target ∷ bind_mount source target ∷ [])
        (bind_readonly source target)
unfolding bind_readonly
Adds-bind_readonly source target k cs log h =
    Keeps-go_on k
      (λ _ k' l. bind_twice source target (not (k'.exists l target) && k'.is_dir l source) k' l)
      (λ _ l. Seen cs l)
      (λ _ l. Seen (bind_remount source target ∷ bind_mount source target ∷ cs) l)
      (make_parent (parent target) k log) (Adds-make_parent (parent target) k cs log h)
      (λ _ l s.
        Adds-bind_twice source target (not (k.exists l target) && k.is_dir l source) k cs l s)

-- The binds of read-only paths, one after the other, take the calls that a jail rests on from the
-- first list to the second: two more for each path that is found, and none for one that is not.
pub data Bound (k : Kernel) (root : Text) : List Text → List Call → List Call → Type 0 where
  no_more : {cs : List Call} → Bound k root [] cs cs
  absent :
      {source : Text} {sources : List Text} {cs all : List Call} {l : Log}
      → k.exists l source ≡ false
      → Bound k root sources cs all
      → Bound k root (source ∷ sources) cs all
  bound :
      {source : Text} {sources : List Text} {cs all : List Call} {l : Log}
      → k.exists l source ≡ true
      → Bound k root sources
          (bind_remount source (join root (relative source))
            ∷ bind_mount source (join root (relative source))
            ∷ cs)
          all
      → Bound k root (source ∷ sources) cs all

-- After some binds, the calls have succeeded.
abbrev pub BoundTo : Kernel → Text → List Text → List Call → Log → Type 0
BoundTo k root sources cs l = (all : List Call) × Bound k root sources cs all × Seen all l

bind_all-Keeps :
    (root : Text) (sources : List Text) (k : Kernel) (cs : List Call) (log : Log)
    → Seen cs log
    → Keeps (λ _ l. BoundTo k root sources cs l) (for_each (bind_if_there root) sources k log)
unfolding for_each bind_if_there
bind_all-Keeps root [] k cs log h = (cs, Bound.no_more, h)
bind_all-Keeps root (source ∷ sources) k cs log h =
    let target = join root (relative source) in
    let two = bind_remount source target ∷ bind_mount source target ∷ cs in
    let rest = for_each (bind_if_there root) sources in
    elim (Bool-cases (k.exists log source)) [
      | inl there ↦ rw there (
          Keeps-go_on k (λ _. rest) (λ _ l. Seen two l)
            (λ _ l. BoundTo k root (source ∷ sources) cs l) (bind_readonly source target k log)
            (Adds-bind_readonly source target k cs log h)
            (λ _ l s.
              Keeps-weaken (λ _ l'. BoundTo k root sources two l')
                (λ _ l'. BoundTo k root (source ∷ sources) cs l') (rest k l)
                (bind_all-Keeps root sources k two l s)
                (λ _ l' (all, b, seen). (all, Bound.bound there b, seen))))
      | inr gone ↦ rw gone (
          Keeps-weaken (λ _ l'. BoundTo k root sources cs l')
            (λ _ l'. BoundTo k root (source ∷ sources) cs l') (rest k log)
            (bind_all-Keeps root sources k cs log h)
            (λ _ l' (all, b, seen). (all, Bound.absent gone b, seen)))
    ]

pub setup_readonly_mounts-Keeps :
    (root : Text) (paths : List Text) (k : Kernel) (cs : List Call) (log : Log)
    → Seen cs log
    → Keeps (λ _ l. BoundTo k root paths cs l) (setup_readonly_mounts root paths k log)
unfolding setup_readonly_mounts
setup_readonly_mounts-Keeps root paths k cs log h =
    Keeps-go_on k (λ _. for_each (bind_if_there root) paths) (λ _ l. Seen cs l)
      (λ _ l. BoundTo k root paths cs l) (for_each (make_dir root) required_dirs k log)
      (Adds-for_each (make_dir root) required_dirs
        (λ dir. Adds-weak (dir_creation_failed (join root dir)) (mkdirs (join root dir))) k cs log
        h)
      (λ _ l s. bind_all-Keeps root paths k cs l s)
