-- ===== src/Prelude/FilePath.antt =====
-- The operations of `std::path` that the source uses, on texts with no doubled or trailing slash.
use akiro.Prelude.Tests.{◌==◌, if◌then◌else◌}
use akiro.Prelude.Text.{Text, codes, text_eq, drop_while}
use mathlib.Core.Bool.{Bool, false, not, ◌||◌}
use mathlib.Core.Option.{Option, none, some}
use mathlib.Core.List.{[], ◌∷◌, ◌++◌, reverse}

-- What stands before the last slash, from the text in reverse; `rooted` when nothing does.
abbrev before_slash : Text → Option Text
before_slash [] = some []
before_slash (slash ∷ []) = some (slash ∷ [])
before_slash (slash ∷ c ∷ s) = some (reverse (c ∷ s))

abbrev pub parent : Text → Option Text
parent [] = none
parent (c ∷ []) = if c == b'/' then none else some []
parent (c ∷ d ∷ s) = before_slash (drop_while (λ x. not (x == b'/')) (reverse (c ∷ d ∷ s)))

abbrev ends_in_slash : Text → Bool
ends_in_slash [] = false
ends_in_slash (c ∷ []) = c == b'/'
ends_in_slash (c ∷ d ∷ s) = ends_in_slash (d ∷ s)

abbrev starts_with_slash : Text → Bool
starts_with_slash [] = false
starts_with_slash (c ∷ s) = c == b'/'

abbrev append_name : Text → Text → Text
append_name [] name = name
append_name (c ∷ s) name =
    if ends_in_slash (c ∷ s) then (c ∷ s) ++ name else (c ∷ s) ++ (b'/' ∷ name)

abbrev pub join : Text → Text → Text
join base name = if starts_with_slash name then name else append_name base name

-- `path.parent().unwrap_or(default)`.
abbrev pub parent_or : Text → Text → Text
parent_or default path = elim (parent path) [ none ↦ default | some dir ↦ dir ]

-- What stands after the last slash, from the text in reverse.
abbrev after_slash : Text → Text → Text
after_slash name [] = name
after_slash name (c ∷ s) = if c == b'/' then name else after_slash (c ∷ name) s

abbrev some_name : Text → Option Text
some_name [] = none
some_name (c ∷ name) =
    if text_eq (c ∷ name) (codes ".") || text_eq (c ∷ name) (codes "..")
    then none
    else some (c ∷ name)

abbrev pub file_name : Text → Option Text
file_name path = some_name (after_slash [] (reverse path))
