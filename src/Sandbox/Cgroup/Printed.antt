-- ===== src/Sandbox/Cgroup/Printed.antt =====
-- src/sandbox/cgroups.rs: the counters are those that the kernel printed.
use akiro.Prelude.{
  unwrap_or, ℕ, ◌≤◌, ◌≡◌, refl, ap, ◌∙◌, Bool, true, false, Bool-cases, inl, inr, Option, none,
  some, List, [], ◌∷◌, ◌++◌, ◌==◌, map, All, if◌then◌else◌, arith,
}
use akiro.Prelude.Text.{Text, codes, text_eq, strip_prefix, parse_unsigned}
use akiro.Prelude.Word.{u64_max}
use akiro.Prelude.Decimal.{decimal}
use akiro.Prelude.Decimal.RoundTrip.{decimal-IsDigit, decimal-ne-nil, parse_unsigned-decimal}
use akiro.Prelude.FilePath.{join}
use akiro.Prelude.Pieces.{split_whitespace}
use akiro.Prelude.Pieces.Fields.{
  Field, Named, IsWord, is_word_sound, field_line, print_fields, lines-print_fields,
  split_whitespace-field_line, trim-word, trim-word_line, strip_prefix-name, digits-IsWord,
}
use akiro.Sandbox.Cgroup.Stats.{
  parse_value, read_cgroup_value, starts_with, second, or_rest, find_usage, usage_of, oom_kill_of,
  read_cpu_stat, or_later, parse_rest, find_oom_kill, read_oom_kill, read_stats,
}

-- A file of one number, and a counter that may not be there.
abbrev pub value_file : ℕ → Text
value_file n = decimal n ++ (0xa ∷ [])

abbrev pub printed : Option ℕ → Option Text
printed none = none
printed (some n) = some (value_file n)

abbrev pub Fits : Option ℕ → Type 0
Fits none = Unit
Fits (some n) = n ≤ u64_max

parse_value-printed : (o : Option ℕ) → Fits o → parse_value (printed o) ≡ o
parse_value-printed none h = refl
parse_value-printed (some n) h =
    ap (parse_unsigned u64_max) (
      trim-word_line (decimal n) (digits-IsWord (decimal n) (decimal-IsDigit n)) (decimal-ne-nil n))
    ∙ parse_unsigned-decimal u64_max n h h

-- The number of the first field of a name.
abbrev pub first_named : Text → List Field → ℕ
first_named key [] = 0
first_named key (f ∷ fs) = if text_eq key f.key then f.value else first_named key fs

abbrev pub Counts : Field → Type 0
Counts f = Named f × (f.value ≤ u64_max)

All-Named : (fs : List Field) → All Counts fs → All Named fs
All-Named [] h = tt
All-Named (f ∷ fs) (h, hs) = (h.0, All-Named fs hs)

parse_rest-decimal : (n : ℕ) → n ≤ u64_max → parse_rest (some (decimal n)) ≡ some n
parse_rest-decimal n h =
    ap (parse_unsigned u64_max)
      (trim-word (decimal n) (digits-IsWord (decimal n) (decimal-IsDigit n)))
    ∙ parse_unsigned-decimal u64_max n h h

parse_rest-line :
    (f : Field)
    → Counts f
    → parse_rest (strip_prefix (codes "oom_kill ") (field_line f))
      ≡ (if text_eq (codes "oom_kill") f.key then some f.value else none)
parse_rest-line f h =
    ap parse_rest (
      strip_prefix-name (codes "oom_kill") f.key (decimal f.value)
        (is_word_sound (codes "oom_kill") refl) h.0.0)
    ∙ elim (Bool-cases (text_eq (codes "oom_kill") f.key)) [
      | inl same ↦ rw same (parse_rest-decimal f.value h.1)
      | inr other ↦ rw other refl
    ]

or_later_if :
    (b : Bool) (n later : ℕ)
    → or_later (if b then some n else none) later ≡ (if b then n else later)
or_later_if true n later = refl
or_later_if false n later = refl

find_oom_kill-lines :
    (fs : List Field)
    → All Counts fs
    → find_oom_kill (map field_line fs) ≡ first_named (codes "oom_kill") fs
unfolding find_oom_kill
find_oom_kill-lines [] h = refl
find_oom_kill-lines (f ∷ fs) (h, hs) =
    ap (λ o. or_later o (find_oom_kill (map field_line fs))) (parse_rest-line f h)
    ∙ (or_later_if (text_eq (codes "oom_kill") f.key) f.value (find_oom_kill (map field_line fs))
        ∙ ap (λ n. if text_eq (codes "oom_kill") f.key then f.value else n)
            (find_oom_kill-lines fs hs))

-- The number of the first field whose name begins so.
abbrev pub first_prefixed : Text → List Field → ℕ
first_prefixed prefix [] = 0
first_prefixed prefix (f ∷ fs) =
    if starts_with prefix f.key then f.value else first_prefixed prefix fs

starts_with-name :
    (p k t : Text) → IsWord p → starts_with p (k ++ (codes " " ++ t)) ≡ starts_with p k
starts_with-name [] k t h = refl
starts_with-name (a ∷ p) [] t (h, hs) = ground arith
starts_with-name (a ∷ p) (c ∷ k) t (h, hs) = elim (Bool-cases (a == c)) [
  | inl same ↦ rw same (starts_with-name p k t hs)
  | inr other ↦ rw other refl
]

find_usage-lines :
    (fs : List Field)
    → All Counts fs
    → find_usage (map field_line fs) ≡ some (first_prefixed (codes "usage_usec") fs)
unfolding find_usage
find_usage-lines [] h = refl
find_usage-lines (f ∷ fs) (h, hs) =
    let starts =
      starts_with-name (codes "usage_usec") f.key (decimal f.value)
        (is_word_sound (codes "usage_usec") refl) in
    let value = ap second (split_whitespace-field_line f h.0) in
    let later = find_usage (map field_line fs) in
    ap (λ b. if b then or_rest (second (split_whitespace (field_line f))) later else later) starts
    ∙ elim (Bool-cases (starts_with (codes "usage_usec") f.key)) [
      | inl named ↦
          rw named
            (ap (λ o. or_rest o later) value ∙ parse_unsigned-decimal u64_max f.value h.1 h.1)
      | inr other ↦ rw other (find_usage-lines fs hs)
    ]

abbrev pub printed_fields : Option (List Field) → Option Text
printed_fields none = none
printed_fields (some fs) = some (print_fields fs)

abbrev pub AllCount : Option (List Field) → Type 0
AllCount none = Unit
AllCount (some fs) = All Counts fs

abbrev pub field_or_0 : (List Field → ℕ) → Option (List Field) → ℕ
field_or_0 value none = 0
field_or_0 value (some fs) = value fs

usage_of-printed :
    (o : Option (List Field))
    → AllCount o
    → unwrap_or (usage_of (printed_fields o)) 0 ≡ field_or_0 (first_prefixed (codes "usage_usec")) o
usage_of-printed none h = refl
usage_of-printed (some fs) h =
    ap (λ l. unwrap_or (find_usage l) 0) (lines-print_fields fs (All-Named fs h))
    ∙ ap (λ o. unwrap_or o 0) (find_usage-lines fs h)

oom_kill_of-printed :
    (o : Option (List Field))
    → AllCount o
    → oom_kill_of (printed_fields o) ≡ field_or_0 (first_named (codes "oom_kill")) o
oom_kill_of-printed none h = refl
oom_kill_of-printed (some fs) h =
    ap find_oom_kill (lines-print_fields fs (All-Named fs h)) ∙ find_oom_kill-lines fs h

-- What `read_stats` answers of a group whose files hold the counters as the kernel prints them.
module _ (read : Text → Option Text) (group : Text) (current peak : Option ℕ)
    (cpu events : Option (List Field))
    (reads_current : read (join group (codes "memory.current")) ≡ printed current)
    (reads_peak : read (join group (codes "memory.peak")) ≡ printed peak)
    (reads_cpu : read (join group (codes "cpu.stat")) ≡ printed_fields cpu)
    (reads_events : read (join group (codes "memory.events")) ≡ printed_fields events) where
  -- Where the files of a group hold counters that fit a u64 as the kernel prints them, the statistics
  -- are the current memory, or 0 if its file is missing; the peak, or the current memory if that is
  -- missing; the first processor time whose name begins with usage_usec; and the number of kills
  -- under the name oom_kill, and no longer name; both are 0 if their file is missing.
  pub read_stats-printed :
      Fits current
      → Fits peak
      → AllCount cpu
      → AllCount events
      → read_stats read group ≡ record {
        memory_current_bytes = unwrap_or current 0;
        memory_peak_bytes = unwrap_or peak (unwrap_or current 0);
        cpu_usage_usec = field_or_0 (first_prefixed (codes "usage_usec")) cpu;
        oom_kill_count = field_or_0 (first_named (codes "oom_kill")) events;
      }
  unfolding read_stats read_cgroup_value read_cpu_stat read_oom_kill
  read_stats-printed c p u e =
      rw
        (
          reads_current,
          reads_peak,
          reads_cpu,
          reads_events,
          parse_value-printed current c,
          parse_value-printed peak p,
          usage_of-printed cpu u,
          oom_kill_of-printed events e,
        )
        refl
