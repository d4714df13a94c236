-- ===== src/Orchestrator/Pipeline/Trim/Ends.antt =====
-- src/orchestrator/pipeline.rs: `trim_bytes` against trimming one end and then the other.
use mathlib.Core.Option.{none-ne-some}
use akiro.Prelude.{
  ℕ, suc, ◌+◌, ◌≡◌, refl, sym, ap, ◌∙◌, true, false, Option, none, some, List, [], ◌∷◌, ◌++◌,
  if◌then◌else◌, length, take, drop, All, arith, Bool-cases, Option-cases, inl, inr,
}
use akiro.Orchestrator.Pipeline.Trim.{is_ascii_whitespace, position, rposition, slice, trim_bytes}

abbrev pub trim_start : List ℕ → List ℕ
trim_start [] = []
trim_start (c ∷ b) = let rest = trim_start b in if is_ascii_whitespace c then rest else c ∷ b

abbrev pub kept : ℕ → List ℕ → List ℕ
kept c [] = if is_ascii_whitespace c then [] else c ∷ []
kept c (x ∷ xs) = c ∷ x ∷ xs

abbrev pub trim_end : List ℕ → List ℕ
trim_end [] = []
trim_end (c ∷ b) = kept c (trim_end b)

abbrev end_of : ℕ → Option ℕ → ℕ
end_of start none = start
end_of start (some p) = suc p

abbrev end_plus : ℕ → Option ℕ → ℕ
end_plus start none = start
end_plus start (some p) = p + 1

end_plus-end_of : (start : ℕ) (o : Option ℕ) → end_plus start o ≡ end_of start o
end_plus-end_of start none = refl
end_plus-end_of start (some p) = omega arith

abbrev start_of : ℕ → Option ℕ → ℕ
start_of n none = n
start_of n (some i) = i

abbrev start_at : List ℕ → ℕ
start_at b = start_of (length b) (position b)

trim_bytes-slice :
    (b : List ℕ) → trim_bytes b ≡ slice b (start_at b) (end_of (start_at b) (rposition b))
unfolding trim_bytes
trim_bytes-slice b = ap (slice b (start_at b)) (end_plus-end_of (start_at b) (rposition b))

rposition-some : (c p : ℕ) (b : List ℕ) → rposition b ≡ some p → rposition (c ∷ b) ≡ some (suc p)
unfolding rposition
rposition-some c p b e = rw e refl

rposition-none :
    (c : ℕ) (b : List ℕ)
    → rposition b ≡ none
    → rposition (c ∷ b) ≡ (if is_ascii_whitespace c then none else some 0)
unfolding rposition
rposition-none c b e = rw e refl

start_at_space :
    (c : ℕ) (b : List ℕ) → is_ascii_whitespace c ≡ true → start_at (c ∷ b) ≡ suc (start_at b)
unfolding position
start_at_space c b h = elim (Option-cases (position b)) [
  | inl e ↦ rw (h, e) refl
  | inr (i, e) ↦ rw (h, e) refl
]

start_at_byte : (c : ℕ) (b : List ℕ) → is_ascii_whitespace c ≡ false → start_at (c ∷ b) ≡ 0
unfolding position
start_at_byte c b h = rw h refl

end_of_space :
    (s c : ℕ) (b : List ℕ)
    → is_ascii_whitespace c ≡ true
    → end_of (suc s) (rposition (c ∷ b)) ≡ suc (end_of s (rposition b))
end_of_space s c b h = elim (Option-cases (rposition b)) [
  | inl e ↦
      ap (end_of (suc s)) (rposition-none c b e) ∙ (space ∙ sym (ap (λ o. suc (end_of s o)) e))
  | inr (p, e) ↦ ap (end_of (suc s)) (rposition-some c p b e) ∙ sym (ap (λ o. suc (end_of s o)) e)
]
  where
    space : end_of (suc s) (if is_ascii_whitespace c then none else some 0) ≡ suc s
    space = rw h refl

trim_bytes_space :
    (c : ℕ) (b : List ℕ) → is_ascii_whitespace c ≡ true → trim_bytes (c ∷ b) ≡ trim_bytes b
trim_bytes_space c b h =
    trim_bytes-slice (c ∷ b)
    ∙ (ap (λ s. slice (c ∷ b) s (end_of s (rposition (c ∷ b)))) (start_at_space c b h)
        ∙ (ap (slice (c ∷ b) (suc (start_at b))) (end_of_space (start_at b) c b h)
            ∙ (ap (λ n. take n (drop (start_at b) b)) (omega arith) ∙ sym (trim_bytes-slice b))))

kept_full :
    (c p : ℕ) (b : List ℕ) → rposition b ≡ some p → kept c (take (suc p) b) ≡ c ∷ take (suc p) b
unfolding rposition
kept_full c p [] e = absurd (none-ne-some _ e)
kept_full c p (x ∷ b) e = refl

-- Up to the last byte that is not white space.
trim_end-take : (b : List ℕ) → trim_end b ≡ take (end_of 0 (rposition b)) b
unfolding rposition
trim_end-take [] = refl
trim_end-take (c ∷ b) = elim (Option-cases (rposition b)) [
  | inl e ↦
      ap (kept c) (trim_end-take b ∙ ap (λ o. take (end_of 0 o) b) e)
      ∙ (alone ∙ sym (ap (λ o. take (end_of 0 o) (c ∷ b)) (rposition-none c b e)))
  | inr (p, e) ↦
      ap (kept c) (trim_end-take b ∙ ap (λ o. take (end_of 0 o) b) e)
      ∙ (kept_full c p b e ∙ sym (ap (λ o. take (end_of 0 o) (c ∷ b)) (rposition-some c p b e)))
]
  where
    alone : kept c [] ≡ take (end_of 0 (if is_ascii_whitespace c then none else some 0)) (c ∷ b)
    alone = elim (Bool-cases (is_ascii_whitespace c)) [
      | inl space ↦ rw space refl
      | inr byte ↦ rw byte refl
    ]

trim_bytes_byte :
    (c : ℕ) (b : List ℕ) → is_ascii_whitespace c ≡ false → trim_bytes (c ∷ b) ≡ trim_end (c ∷ b)
trim_bytes_byte c b h =
    trim_bytes-slice (c ∷ b)
    ∙ (ap (λ s. slice (c ∷ b) s (end_of s (rposition (c ∷ b)))) (start_at_byte c b h)
        ∙ (ap (λ n. take n (c ∷ b)) (omega arith) ∙ sym (trim_end-take (c ∷ b))))

pub trim_bytes-ends : (b : List ℕ) → trim_bytes b ≡ trim_end (trim_start b)
unfolding trim_bytes position rposition
trim_bytes-ends [] = refl
trim_bytes-ends (c ∷ b) = elim (Bool-cases (is_ascii_whitespace c)) [
  | inl space ↦
      trim_bytes_space c b space ∙ (trim_bytes-ends b ∙ ap trim_end (sym (start_space space)))
  | inr byte ↦ trim_bytes_byte c b byte ∙ ap trim_end (sym (start_byte byte))
]
  where
    start_space : is_ascii_whitespace c ≡ true → trim_start (c ∷ b) ≡ trim_start b
    start_space h = rw h refl

    start_byte : is_ascii_whitespace c ≡ false → trim_start (c ∷ b) ≡ c ∷ b
    start_byte h = rw h refl

abbrev pub Spaces : List ℕ → Type 0
Spaces b = All (λ c. is_ascii_whitespace c ≡ true) b

trim_start-Spaces : (pre b : List ℕ) → Spaces pre → trim_start (pre ++ b) ≡ trim_start b
trim_start-Spaces [] b h = refl
trim_start-Spaces (c ∷ pre) b (h, hs) = rw h (trim_start-Spaces pre b hs)

trim_end-Spaces : (b post : List ℕ) → Spaces post → trim_end (b ++ post) ≡ trim_end b
trim_end-Spaces [] [] h = refl
trim_end-Spaces [] (c ∷ post) (h, hs) = ap (kept c) (trim_end-Spaces [] post hs) ∙ gone
  where
    gone : kept c [] ≡ []
    gone = rw h refl
trim_end-Spaces (c ∷ b) post h = ap (kept c) (trim_end-Spaces b post h)

trim_both :
    (b post : List ℕ) → Spaces post → trim_end (trim_start (b ++ post)) ≡ trim_end (trim_start b)
trim_both [] [] h = refl
trim_both [] (c ∷ post) (h, hs) = rw h (trim_both [] post hs)
trim_both (c ∷ b) post h = elim (Bool-cases (is_ascii_whitespace c)) [
  | inl space ↦ rw space (trim_both b post h)
  | inr byte ↦ rw byte (ap (kept c) (trim_end-Spaces b post h))
]

-- Trimming is trimming the start and then the end, and white space around a text plays no part in
-- it.
pub trim_bytes_around :
    (pre b post : List ℕ)
    → Spaces pre
    → Spaces post
    → (trim_bytes b ≡ trim_end (trim_start b)) × (trim_bytes (pre ++ (b ++ post)) ≡ trim_bytes b)
trim_bytes_around pre b post h k = (
  trim_bytes-ends b,
  trim_bytes-ends (pre ++ (b ++ post))
      ∙ (ap trim_end (trim_start-Spaces pre (b ++ post) h)
          ∙ (trim_both b post k ∙ sym (trim_bytes-ends b))),
)
