-- ===== src/Orchestrator/Pipeline/Workspace.antt =====
-- src/orchestrator/pipeline.rs: `chown_tree`, which hands a workspace to the sandbox's user.
use akiro.Prelude.{◌≡◌, refl, ◌↔◌, ◌⊎◌, inl, inr, List, [], ◌∷◌, ◌++◌}
use akiro.Prelude.Text.{Text}
use akiro.Prelude.FilePath.{join}
use mathlib.Core.List.Memᴰ
use mathlib.Core.List.{Memᴰ}

-- A link has the path that it leads to; a directory may refuse to be listed. The type of each entry
-- can be read.
mutual
  pub data Tree : Type 0 where
    file closed_directory : Tree
    link : Text → Tree
    directory : Entries → Tree

  pub data Entries : Type 0 where
    end : Entries
    entry : Text → Tree → Entries → Entries

-- Whose owner `chown` changes: it follows a link.
abbrev pub chowned : Text → Tree → Text
chowned path file = path
chowned path closed_directory = path
chowned path (link target) = target
chowned path (directory es) = path

-- The paths whose owner changes, for a workspace that is a directory.
unfoldable mutual
  pub chown_tree : Text → Tree → List Text
  chown_tree path file = chowned path file ∷ []
  chown_tree path closed_directory = chowned path closed_directory ∷ []
  chown_tree path (link target) = chowned path (link target) ∷ []
  chown_tree path (directory es) = chowned path (directory es) ∷ chown_entries path es

  chown_entries : Text → Entries → List Text
  chown_entries path end = []
  chown_entries path (entry name tree es) =
      chown_tree (join path name) tree ++ chown_entries path es

-- What stands in a directory under a list of names, one for each level.
pub data At : Entries → List Text → Tree → Type 0 where
  here : {name : Text} {tree : Tree} {es : Entries} → At (entry name tree es) (name ∷ []) tree
  inside :
      {name : Text} {inner es : Entries} {names : List Text} {tree : Tree}
      → At inner names tree
      → At (entry name (directory inner) es) (name ∷ names) tree
  later :
      {name : Text} {other tree : Tree} {es : Entries} {names : List Text}
      → At es names tree
      → At (entry name other es) names tree

abbrev pub join_all : Text → List Text → Text
join_all path [] = path
join_all path (name ∷ names) = join_all (join path name) names

abbrev pub Handed : Text → Entries → Text → Type 0
Handed path es t =
    (names : List Text) × (tree : Tree) × At es names tree
    × (t ≡ chowned (join_all path names) tree)

entry-Handed :
    (path name : Text) (tree : Tree) (es : Entries) (t : Text)
    → (Memᴰ t (chown_tree (join path name) tree) → Handed path (entry name tree es) t)
    → (Memᴰ t (chown_entries path es) → Handed path es t)
    → Memᴰ t (chown_entries path (entry name tree es))
    → Handed path (entry name tree es) t
unfolding chown_tree
entry-Handed path name tree es t first others m =
    elim (Memᴰ.append_cases (chown_tree (join path name) tree) m) [
      | inl k ↦ first k
      | inr k ↦ let (names, found, at, e) = others k in (names, found, later at, e)
    ]

entries-Handed :
    (path : Text) (es : Entries) (t : Text) → Memᴰ t (chown_entries path es) → Handed path es t
unfolding chown_tree
entries-Handed path end t m = absurd (Memᴰ.not-nil m)
entries-Handed path (entry name file es) t m =
    entry-Handed path name file es t (λ k. (name ∷ [], file, here, Memᴰ.eq_of_singleton k))
      (entries-Handed path es t) m
entries-Handed path (entry name closed_directory es) t m =
    entry-Handed path name closed_directory es t
      (λ k. (name ∷ [], closed_directory, here, Memᴰ.eq_of_singleton k)) (entries-Handed path es t)
      m
entries-Handed path (entry name (link target) es) t m =
    entry-Handed path name (link target) es t
      (λ k. (name ∷ [], link target, here, Memᴰ.eq_of_singleton k)) (entries-Handed path es t) m
entries-Handed path (entry name (directory inner) es) t m =
    entry-Handed path name (directory inner) es t
      (λ k. elim (Memᴰ.cases_cons k) [
        | inl e ↦ (name ∷ [], directory inner, here, e)
        | inr below ↦
            let (names, found, at, e) = entries-Handed (join path name) inner t below in
            (name ∷ names, found, inside at, e)
      ])
      (entries-Handed path es t) m

chown_tree-first : (path : Text) (tree : Tree) → Memᴰ (chowned path tree) (chown_tree path tree)
unfolding chown_tree
chown_tree-first path file = Memᴰ.head refl
chown_tree-first path closed_directory = Memᴰ.head refl
chown_tree-first path (link target) = Memᴰ.head refl
chown_tree-first path (directory es) = Memᴰ.head refl

chown_entries-At :
    (path : Text) {es : Entries} {names : List Text} {tree : Tree}
    → At es names tree
    → Memᴰ (chowned (join_all path names) tree) (chown_entries path es)
unfolding chown_tree
chown_entries-At path (here {name} {tree} {es}) =
    Memᴰ.append_left (chown_entries path es) (chown_tree-first (join path name) tree)
chown_entries-At path (inside {name} {inner} {es} at) =
    Memᴰ.append_left (chown_entries path es) (Memᴰ.tail (chown_entries-At (join path name) at))
chown_entries-At path (later {name} {other} at) =
    Memᴰ.append_right (chown_tree (join path name) other) (chown_entries-At path at)

-- A workspace is handed over whole, and more: the paths whose owner changes are the workspace's
-- own, the path of each file and directory that stands in it at any depth, under directories that
-- can be listed, and for each link there the path that it leads to, wherever that is.
pub chown_tree_iff :
    (path : Text) (es : Entries) (t : Text)
    → Memᴰ t (chown_tree path (directory es)) ↔ ((t ≡ path) ⊎ Handed path es t)
unfolding chown_tree
chown_tree_iff path es t = (
  λ m. elim (Memᴰ.cases_cons m) [
    | inl e ↦ inl e
    | inr below ↦ inr (entries-Handed path es t below)
  ],
  λ o. elim o [
    | inl e ↦ Memᴰ.head e
    | inr (names, tree, at, e) ↦ Memᴰ.tail (Memᴰ.cast e (chown_entries-At path at))
  ],
)
