-- ===== src/Prelude/Pieces.antt =====
-- Text in pieces: `str::split`, `str::lines` and `str::split_whitespace`.
pub mod Fields
use Prim.Native.Nat.{ℕ}
use mathlib.Core.Bool.{Bool, true, false}
use mathlib.Core.List.{List, [], ◌∷◌}
use akiro.Prelude.Tests.{◌==◌, if◌then◌else◌}
use akiro.Prelude.Text.{Text, is_whitespace}

abbrev pub is_empty : Text → Bool
is_empty [] = true
is_empty (_ ∷ _) = false

-- The pieces, at least one.
abbrev pub cons_piece : ℕ → List Text → List Text
cons_piece x [] = (x ∷ []) ∷ []
cons_piece x (piece ∷ pieces) = (x ∷ piece) ∷ pieces

abbrev pub split_if : (ℕ → Bool) → Text → List Text
split_if separates [] = [] ∷ []
split_if separates (x ∷ s) =
    let pieces = split_if separates s in if separates x then [] ∷ pieces else cons_piece x pieces

abbrev pub split : ℕ → Text → List Text
split separator = split_if (λ x. x == separator)

-- The carriage return at the end of a line that ends in a newline.
abbrev pub strip_cr : Text → Text
strip_cr [] = []
strip_cr (c ∷ []) = if c == 0xd then [] else c ∷ []
strip_cr (c ∷ d ∷ s) = c ∷ strip_cr (d ∷ s)

-- The last piece ends in no newline; it is a line if it is not empty.
abbrev pub ended : List Text → List Text
ended [] = []
ended (s ∷ []) = if is_empty s then [] else s ∷ []
ended (s ∷ t ∷ pieces) = strip_cr s ∷ ended (t ∷ pieces)

abbrev pub lines : Text → List Text
lines s = ended (split 0xa s)

abbrev pub not_empty : List Text → List Text
not_empty [] = []
not_empty (s ∷ pieces) = let rest = not_empty pieces in if is_empty s then rest else s ∷ rest

abbrev pub split_whitespace : Text → List Text
split_whitespace s = not_empty (split_if is_whitespace s)
