-- ===== src/Sandbox/Cgroup/Stats.antt =====
-- src/sandbox/cgroups.rs: reading the counters of a control group. What the files hold, and whether
-- they can be read, is a parameter.
use akiro.Prelude.{
  unwrap_or, ℕ, Bool, true, false, Option, none, some, List, [], ◌∷◌, ◌==◌, if◌then◌else◌,
}
use akiro.Prelude.Text.{Text, codes, trim, strip_prefix, parse_unsigned}
use akiro.Prelude.Pieces.{lines, split_whitespace}
use akiro.Prelude.FilePath.{join}
use akiro.Prelude.Word.{u64_max}

pub record CgroupStats : Type 0 where
  pub memory_current_bytes : ℕ
  pub memory_peak_bytes : ℕ
  pub cpu_usage_usec : ℕ
  pub oom_kill_count : ℕ

-- A result whose error is not looked at is an option.
abbrev pub parse_value : Option Text → Option ℕ
parse_value none = none
parse_value (some contents) = parse_unsigned u64_max (trim contents)

unfoldable pub read_cgroup_value : (Text → Option Text) → Text → Option ℕ
read_cgroup_value read path = parse_value (read path)

abbrev pub starts_with : Text → Text → Bool
starts_with [] s = true
starts_with (p ∷ ps) [] = false
starts_with (p ∷ ps) (c ∷ s) = if p == c then starts_with ps s else false

abbrev pub second : List Text → Option Text
second [] = none
second (a ∷ []) = none
second (a ∷ b ∷ rest) = some b

-- The second word of a line, if it has one, decides.
abbrev pub or_rest : Option Text → Option ℕ → Option ℕ
or_rest none rest = rest
or_rest (some value) rest = parse_unsigned u64_max value

unfoldable pub find_usage : List Text → Option ℕ
find_usage [] = some 0
find_usage (line ∷ rest) =
    let later = find_usage rest in
    if starts_with (codes "usage_usec") line
    then or_rest (second (split_whitespace line)) later
    else later

abbrev pub usage_of : Option Text → Option ℕ
usage_of none = none
usage_of (some contents) = find_usage (lines contents)

unfoldable pub read_cpu_stat : (Text → Option Text) → Text → Option ℕ
unfolding find_usage
read_cpu_stat read path = usage_of (read path)

-- A count that cannot be parsed is passed over.
abbrev pub or_later : Option ℕ → ℕ → ℕ
or_later none later = later
or_later (some n) later = n

abbrev pub parse_rest : Option Text → Option ℕ
parse_rest none = none
parse_rest (some rest) = parse_unsigned u64_max (trim rest)

unfoldable pub find_oom_kill : List Text → ℕ
find_oom_kill [] = 0
find_oom_kill (line ∷ rest) =
    or_later (parse_rest (strip_prefix (codes "oom_kill ") line)) (find_oom_kill rest)

abbrev pub oom_kill_of : Option Text → ℕ
oom_kill_of none = 0
oom_kill_of (some contents) = find_oom_kill (lines contents)

unfoldable pub read_oom_kill : (Text → Option Text) → Text → ℕ
unfolding find_oom_kill
read_oom_kill read path = oom_kill_of (read path)

unfoldable pub read_stats : (Text → Option Text) → Text → CgroupStats
unfolding read_cgroup_value read_cpu_stat read_oom_kill
read_stats read group =
    let current = unwrap_or (read_cgroup_value read (join group (codes "memory.current"))) 0 in
    record {
      memory_current_bytes = current;
      memory_peak_bytes =
          unwrap_or (read_cgroup_value read (join group (codes "memory.peak"))) current;
      cpu_usage_usec = unwrap_or (read_cpu_stat read (join group (codes "cpu.stat"))) 0;
      oom_kill_count = read_oom_kill read (join group (codes "memory.events"));
    }
