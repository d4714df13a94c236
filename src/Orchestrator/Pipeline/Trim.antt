-- ===== src/Orchestrator/Pipeline/Trim.antt =====
-- src/orchestrator/pipeline.rs: `trim_bytes`, which compares outputs up to white space at the ends.
pub mod Ends
use akiro.Prelude.{
  ℕ, suc, ◌+◌, ◌-◌, Bool, ◌||◌, Option, none, some, List, [], ◌∷◌, ◌==◌, if◌then◌else◌, length,
  take, drop,
}

-- `u8::is_ascii_whitespace`: space, tab, line feed, form feed and carriage return.
abbrev pub is_ascii_whitespace : ℕ → Bool
is_ascii_whitespace c = c == 32 || c == 9 || c == 10 || c == 12 || c == 13

-- `iter().position` of the first byte that is not white space.
unfoldable pub position : List ℕ → Option ℕ
position [] = none
position (c ∷ b) =
    let rest = position b in
    if is_ascii_whitespace c then elim rest [ none ↦ none | some i ↦ some (suc i) ] else some 0

-- `iter().rposition` of the last one.
unfoldable pub rposition : List ℕ → Option ℕ
rposition [] = none
rposition (c ∷ b) = elim (rposition b) [
  | some i ↦ some (suc i)
  | none ↦ if is_ascii_whitespace c then none else some 0
]

-- `&b[start..end]`.
abbrev pub slice : List ℕ → ℕ → ℕ → List ℕ
slice b start end = take (end - start) (drop start b)

unfoldable pub trim_bytes : List ℕ → List ℕ
unfolding position rposition
trim_bytes b =
    let start : ℕ = elim (position b) [ none ↦ length b | some i ↦ i ] in
    let end : ℕ = elim (rposition b) [ none ↦ start | some p ↦ p + 1 ] in slice b start end
