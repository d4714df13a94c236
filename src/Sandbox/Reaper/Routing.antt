-- ===== src/Sandbox/Reaper/Routing.antt =====
-- src/sandbox/reaper.rs: a registered child's exit reaches its handle, whatever else happens.
use mathlib.Core.Option.{none-ne-some, some-injective}
use akiro.Prelude.{
  ◌⊎◌, ℕ, ◌<◌, ◌≡◌, ◌≢◌, refl, sym, ap, subst, ◌∙◌, true, false, Option, none, some, List, [], ◌∷◌,
  ◌++◌, ◌==◌, if◌then◌else◌, arith, All, Bool-cases, inl, inr,
}
use akiro.Sandbox.Reaper.{
  ChildExit, Reaper, SupervisedChild, set, register_child, try_take, drop_child, stash, reap_all,
}

-- What others may do to the store.
pub data Operation : Type 0 where
  registers : ℕ → Operation
  takes drops : SupervisedChild → Operation
  reaps : List (ℕ × ChildExit) → Operation

abbrev pub perform : Operation → Reaper → Reaper
perform (registers pid) s = (register_child pid s).1
perform (takes child) s = (try_take child s).1
perform (drops child) s = drop_child child s
perform (reaps exits) s = reap_all exits s

unfoldable pub perform_all : List Operation → Reaper → Reaper
perform_all [] s = s
perform_all (o ∷ os) s = perform_all os (perform o s)

-- The operation has nothing to do with the child.
abbrev pub Spares : SupervisedChild → Operation → Type 0
Spares child (registers pid) = pid ≢ child.pid
Spares child (takes other) = other.slot ≢ child.slot
Spares child (drops other) = other.pid ≢ child.pid
Spares child (reaps exits) = Unit

-- The last exit of a pid among some, or else what was there before.
abbrev pub last_exit : ℕ → List (ℕ × ChildExit) → Option ChildExit → Option ChildExit
last_exit pid [] before = before
last_exit pid ((p, exit) ∷ exits) before =
    last_exit pid exits (if p == pid then some exit else before)

abbrev pub exits_of : List Operation → List (ℕ × ChildExit)
exits_of [] = []
exits_of (reaps exits ∷ os) = exits ++ exits_of os
exits_of (registers pid ∷ os) = exits_of os
exits_of (takes child ∷ os) = exits_of os
exits_of (drops child ∷ os) = exits_of os

-- The child's slot is its own: registered for its pid and no other, and made already.
pub record Owns (child : SupervisedChild) (s : Reaper) : Type 0 where
  pub registered : s.registry child.pid ≡ some child.slot
  pub alone : (pid : ℕ) → s.registry pid ≡ some child.slot → pid ≡ child.pid
  pub made : child.slot < s.next

-- Every registered slot was made already.
abbrev pub Made : Reaper → Type 0
Made s = (pid slot : ℕ) → s.registry pid ≡ some slot → slot < s.next

key_cases : (a b : ℕ) → (((a == b) ≡ true) × (a ≡ b)) ⊎ (((a == b) ≡ false) × (a ≢ b))
key_cases a b = elim (Bool-cases (a == b)) [
  | inl same ↦ inl (same, ground arith)
  | inr other ↦ inr (other, ground arith)
]

module _ {ℓ} {A : Type ℓ} where
  pub set_same : (k q : ℕ) (a : A) (f : ℕ → A) → q ≡ k → set k a f q ≡ a
  set_same k q a f h = elim (key_cases q k) [
    | inl (same, _) ↦ rw same refl
    | inr (_, other) ↦ absurd (other h)
  ]

  pub set_other : (k q : ℕ) (a : A) (f : ℕ → A) → q ≢ k → set k a f q ≡ f q
  set_other k q a f h = elim (key_cases q k) [
    | inl (_, same) ↦ absurd (h same)
    | inr (other, _) ↦ rw other refl
  ]

-- Where a name is set, an image is the new one or an old one.
pub set_image :
    (k q slot : ℕ) (o : Option ℕ) (f : ℕ → Option ℕ)
    → set k o f q ≡ some slot
    → ((q ≡ k) × (o ≡ some slot)) ⊎ (f q ≡ some slot)
set_image k q slot o f e = elim (key_cases q k) [
  | inl (_, same) ↦ inl (same, sym (set_same k q o f same) ∙ e)
  | inr (_, other) ↦ inr (sym (set_other k q o f other) ∙ e)
]

pub Owns-new :
    (pid : ℕ) (s : Reaper) → Made s → Owns (register_child pid s).0 (register_child pid s).1
unfolding register_child
Owns-new pid s m = record {
  registered = set_same pid pid (some s.next) s.registry refl;
  alone = λ q e. elim (set_image pid q s.next (some s.next) s.registry e) [
    | inl (same, _) ↦ same
    | inr old ↦ let early = m q s.next old in absurd (omega arith)
  ];
  made = omega arith;
}

-- An operation that changes neither the registry nor the slots made leaves a slot with its owner.
Owns-same :
    {child : SupervisedChild} (s s' : Reaper)
    → s'.registry ≡ s.registry
    → s'.next ≡ s.next
    → Owns child s
    → Owns child s'
Owns-same {child = child} s s' e n o = record {
  registered = ap (λ f. f child.pid) e ∙ o.registered;
  alone = λ pid h. o.alone pid (sym (ap (λ f. f pid) e) ∙ h);
  made = subst (λ k. child.slot < k) (sym n) o.made;
}

pub stash-registry :
    (o : Option ℕ) (exit : ChildExit) (s : Reaper) → (stash o exit s).registry ≡ s.registry
stash-registry none exit s = refl
stash-registry (some k) exit s = refl

pub stash-next : (o : Option ℕ) (exit : ChildExit) (s : Reaper) → (stash o exit s).next ≡ s.next
stash-next none exit s = refl
stash-next (some k) exit s = refl

stash_away :
    (slot : ℕ) (o : Option ℕ) (exit : ChildExit) (s : Reaper)
    → o ≢ some slot
    → (stash o exit s).slots slot ≡ s.slots slot
stash_away slot none exit s h = refl
stash_away slot (some k) exit s h = set_other k slot (some exit) s.slots (λ e. h (ap some (sym e)))

-- One child that `wait4` returns.
stash-slots :
    {child : SupervisedChild} {s : Reaper} (pid : ℕ) (exit : ChildExit)
    → Owns child s
    → (stash (s.registry pid) exit s).slots child.slot
      ≡ (if pid == child.pid then some exit else s.slots child.slot)
stash-slots {child = child} {s = s} pid exit o = elim (key_cases pid child.pid) [
  | inl (same, e) ↦
      rw (same, e, o.registered) (set_same child.slot child.slot (some exit) s.slots refl)
  | inr (other, d) ↦
      rw other (stash_away child.slot (s.registry pid) exit s (λ e. d (o.alone pid e)))
]

reap_all-Owns :
    {child : SupervisedChild} (exits : List (ℕ × ChildExit)) (s : Reaper)
    → Owns child s
    → Owns child (reap_all exits s)
unfolding reap_all
reap_all-Owns [] s o = o
reap_all-Owns ((pid, exit) ∷ exits) s o =
    reap_all-Owns exits (stash (s.registry pid) exit s) (
      Owns-same s _ (stash-registry (s.registry pid) exit s) (stash-next (s.registry pid) exit s) o)

reap_all-slots :
    {child : SupervisedChild} (exits : List (ℕ × ChildExit)) (s : Reaper)
    → Owns child s
    → (reap_all exits s).slots child.slot ≡ last_exit child.pid exits (s.slots child.slot)
unfolding reap_all
reap_all-slots [] s o = refl
reap_all-slots {child = child} ((pid, exit) ∷ exits) s o =
    reap_all-slots exits (stash (s.registry pid) exit s) (
      Owns-same s _ (stash-registry (s.registry pid) exit s) (stash-next (s.registry pid) exit s) o)
    ∙ ap (last_exit child.pid exits) (stash-slots pid exit o)

perform-Owns :
    {child : SupervisedChild} (op : Operation) (s : Reaper)
    → Spares child op
    → Owns child s
    → Owns child (perform op s)
unfolding register_child try_take drop_child
perform-Owns {child = child} (registers pid) s h o = record {
  registered = set_other pid child.pid (some s.next) s.registry (λ e. h (sym e)) ∙ o.registered;
  alone = λ q e. elim (set_image pid q child.slot (some s.next) s.registry e) [
    | inl (_, new) ↦ let early = o.made in let late = some-injective _ _ new in absurd (omega arith)
    | inr old ↦ o.alone q old
  ];
  made = let early = o.made in omega arith;
}
perform-Owns (takes other) s h o = Owns-same s _ refl refl o
perform-Owns {child = child} (drops other) s h o = record {
  registered = set_other other.pid child.pid none s.registry (λ e. h (sym e)) ∙ o.registered;
  alone = λ q e. elim (set_image other.pid q child.slot none s.registry e) [
    | inl (_, gone) ↦ absurd (none-ne-some _ gone)
    | inr old ↦ o.alone q old
  ];
  made = o.made;
}
perform-Owns (reaps exits) s h o = reap_all-Owns exits s o

last_exit-append :
    (pid : ℕ) (xs ys : List (ℕ × ChildExit)) (before : Option ChildExit)
    → last_exit pid (xs ++ ys) before ≡ last_exit pid ys (last_exit pid xs before)
last_exit-append pid [] ys before = refl
last_exit-append pid ((p, exit) ∷ xs) ys before = last_exit-append pid xs ys _

pub perform_all-slots :
    {child : SupervisedChild} (os : List Operation) (s : Reaper)
    → All (Spares child) os
    → Owns child s
    → (perform_all os s).slots child.slot ≡ last_exit child.pid (exits_of os) (s.slots child.slot)
unfolding perform_all register_child try_take drop_child
perform_all-slots [] s h o = refl
perform_all-slots {child = child} (registers pid ∷ os) s (h, hs) o =
    perform_all-slots os _ hs (perform-Owns (registers pid) s h o)
    ∙ ap (last_exit child.pid (exits_of os))
        (set_other s.next child.slot none s.slots (λ e. let early = o.made in absurd (omega arith)))
perform_all-slots {child = child} (takes other ∷ os) s (h, hs) o =
    perform_all-slots os _ hs (perform-Owns (takes other) s h o)
    ∙ ap (last_exit child.pid (exits_of os))
        (set_other other.slot child.slot none s.slots (λ e. h (sym e)))
perform_all-slots (drops other ∷ os) s (h, hs) o =
    perform_all-slots os _ hs (perform-Owns (drops other) s h o)
perform_all-slots {child = child} (reaps exits ∷ os) s (h, hs) o =
    perform_all-slots os _ hs (reap_all-Owns exits s o)
    ∙ (ap (last_exit child.pid (exits_of os)) (reap_all-slots exits s o)
        ∙ sym (last_exit-append child.pid exits (exits_of os) _))
