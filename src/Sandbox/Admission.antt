-- ===== src/Sandbox/Admission.antt =====
-- src/sandbox/admission.rs: the memory budget. What `std::env::var` returns is an argument.
pub mod Units
pub mod Gate
pub mod Budget
pub mod Line
pub mod Examples
use akiro.Prelude.{
  ℕ, ◌+◌, ◌-◌, ◌*◌, ◌/◌, Bool, true, false, Option, none, some, List, [], ◌∷◌, map, ◌==◌,
  if◌then◌else◌, max, min,
}
use akiro.Prelude.Text.{Text, codes, trim, text_eq, ascii_lower, parse_unsigned}
use akiro.Prelude.Word.{u64_max, u32_max, add64, sub64, as_u32, saturating_mul}
use akiro.Sandbox.Config.{positive}
use akiro.Languages.Language.{one_of}

abbrev pub base_unit_bytes : ℕ
base_unit_bytes = 268435456

abbrev pub default_budget_bytes : ℕ
default_budget_bytes = 805306368

abbrev pub default_max_job_bytes : ℕ
default_max_job_bytes = 536870912

abbrev pub default_compile_bytes : ℕ
default_compile_bytes = 536870912

-- The last character and what stands before it.
abbrev pub unsnoc : Text → Option (Text × ℕ)
unsnoc [] = none
unsnoc (c ∷ s) = elim (unsnoc s) [
  | none ↦ some ([], c)
  | some (front, last) ↦ some (c ∷ front, last)
]

abbrev pub scale : ℕ → Option ℕ → Option ℕ
scale mult none = none
scale mult (some n) = some (saturating_mul n mult)

-- `num.trim().parse::<u64>()`, times the multiplier of the suffix.
abbrev pub parse_scaled : Text → ℕ → Option ℕ
parse_scaled num mult = scale mult (parse_unsigned u64_max (trim num))

-- The source matches on the last byte, which for a character beyond ASCII is no letter either.
abbrev pub parse_suffixed : Text → Option (Text × ℕ) → Option ℕ
parse_suffixed s none = none
parse_suffixed s (some (front, last)) =
    let letter = ascii_lower last in
    if letter == b'k'
    then parse_scaled front 1024
    else if letter == b'm'
    then parse_scaled front 1048576
    else if letter == b'g'
    then parse_scaled front 1073741824
    else parse_scaled s 1

unfoldable pub parse_bytes : Text → Option ℕ
parse_bytes s = let t = trim s in parse_suffixed t (unsnoc t)

abbrev or_default : ℕ → Option ℕ → ℕ
or_default default none = default
or_default default (some n) = n

abbrev and_parse : Option Text → Option ℕ
and_parse none = none
and_parse (some s) = parse_bytes s

-- The value of the variable, if it is set and readable as a size, or else the default.
unfoldable pub env_bytes : Option Text → ℕ → ℕ
env_bytes var default = or_default default (and_parse var)

unfoldable pub total_units : Option Text → ℕ
total_units var = max (env_bytes var default_budget_bytes / base_unit_bytes) 1

-- The sum wraps in u64, and the cast to u32 truncates.
unfoldable pub units_for : ℕ → ℕ → ℕ
units_for total mem_bytes =
    let units = max (sub64 (add64 mem_bytes base_unit_bytes) 1 / base_unit_bytes) 1 in
    as_u32 (min units total)

unfoldable pub max_job_memory_bytes : Option Text → ℕ
max_job_memory_bytes var = env_bytes var default_max_job_bytes

unfoldable pub compile_memory_bytes : Option Text → ℕ
compile_memory_bytes var = env_bytes var default_compile_bytes

abbrev pub cap_words : List Text
cap_words = codes "0" ∷ codes "off" ∷ codes "none" ∷ codes "unlimited" ∷ codes "max" ∷ []

abbrev pub cpu_percent_of : Text → ℕ → Option ℕ
cpu_percent_of [] default = some default
cpu_percent_of (c ∷ t) default =
    if one_of (c ∷ t) cap_words
    then none
    else positive (some (or_default default (parse_unsigned u32_max (c ∷ t))))

unfoldable pub env_cpu_percent : Option Text → ℕ → Option ℕ
env_cpu_percent none default = some default
env_cpu_percent (some raw) default = cpu_percent_of (map ascii_lower (trim raw)) default

unfoldable pub run_cpu_max_percent : Option Text → Option ℕ
run_cpu_max_percent var = env_cpu_percent var 100

unfoldable pub compile_cpu_max_percent : Option Text → Option ℕ
compile_cpu_max_percent var = env_cpu_percent var 200
