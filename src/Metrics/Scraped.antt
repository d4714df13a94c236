-- ===== src/Metrics/Scraped.antt =====
-- src/metrics.rs: what a scraper reads from the text.
use akiro.Prelude.{
  ◌*◌, subst, sym, ℕ, ◌≤◌, ◌≡◌, refl, ap, ◌∙◌, Bool, true, false, not, ◌&&◌, ◌==◌, Bool-cases, inl,
  inr, Option, none, some, List, [], ◌∷◌, ◌++◌, map, All, if◌then◌else◌, arith,
}
use akiro.Prelude.Text.{Text, codes, text_eq, text_eq_refl, strip_prefix}
use akiro.Prelude.Word.{u64_max}
use akiro.Prelude.Decimal.{decimal}
use akiro.Prelude.Decimal.RoundTrip.{parse_unsigned-decimal}
use akiro.Prelude.Pieces.{split_whitespace}
use akiro.Prelude.Pieces.Fields.{IsWord, is_word, is_word_sound, strip_prefix-name}
use akiro.Metrics.{Metrics}
use akiro.Metrics.Prometheus.{
  Gauges, Line, comment, sample, blank, line_text, push_lines, exposition, get_process_memory_bytes,
  bytes_of, pages_of, render_prometheus,
}
use akiro.Metrics.Lines.{
  number, scrape_lines, scrape, Sample, samples, in_line, is_comment, is_name, is_fine, absent,
  is_distinct, both, negated, lines-push_lines,
}

abbrev lookup : Text → List Line → Option ℕ
lookup name [] = none
lookup name (comment t ∷ ls) = lookup name ls
lookup name (sample other value ∷ ls) = if text_eq name other then some value else lookup name ls
lookup name (blank ∷ ls) = lookup name ls

abbrev pub Fits : Line → Type 0
Fits (comment t) = Unit
Fits (sample name value) = value ≤ u64_max
Fits blank = Unit

not_comment :
    (name t : Text)
    → is_name name ≡ true
    → is_comment t ≡ true
    → strip_prefix (name ++ codes " ") t ≡ none
not_comment [] t h k = cc
not_comment (d ∷ name) [] h k = cc
not_comment (d ∷ name) (c ∷ t) h k =
    let other = negated (d == b'#') (both (not (d == b'#')) (is_word (d ∷ name)) h).0 in
    let sign = (both (c == b'#') (in_line (c ∷ t)) k).0 in
    let apart : (d == c) ≡ false = ground arith in rw apart refl

not_blank : (name : Text) → is_name name ≡ true → strip_prefix (name ++ codes " ") [] ≡ none
not_blank [] h = cc
not_blank (d ∷ name) h = refl

name-IsWord : (name : Text) → is_name name ≡ true → IsWord name
name-IsWord [] h = tt
name-IsWord (c ∷ s) h = is_word_sound (c ∷ s) (both (not (c == b'#')) (is_word (c ∷ s)) h).1

scrape_lines-lookup :
    (name : Text) (ls : List Line)
    → is_name name ≡ true
    → All (λ l. is_fine l ≡ true) ls
    → All Fits ls
    → scrape_lines name (map line_text ls) ≡ lookup name ls
scrape_lines-lookup name [] h g f = refl
scrape_lines-lookup name (comment t ∷ ls) h (g, gs) (f, fs) =
    rw (not_comment name t h g) (scrape_lines-lookup name ls h gs fs)
scrape_lines-lookup name (blank ∷ ls) h (g, gs) (f, fs) =
    rw (not_blank name h) (scrape_lines-lookup name ls h gs fs)
scrape_lines-lookup name (sample other value ∷ ls) h (g, gs) (f, fs) =
    let rest = scrape_lines name (map line_text ls) in
    ap (λ o. number o rest)
      (strip_prefix-name name other (decimal value) (name-IsWord name h) (name-IsWord other g))
    ∙ elim (Bool-cases (text_eq name other)) [
      | inl same ↦ rw same (parse_unsigned-decimal u64_max value f f)
      | inr apart ↦ rw apart (scrape_lines-lookup name ls h gs fs)
    ]

absent-All :
    (name : Text) (ls : List Line)
    → absent name ls ≡ true
    → All (λ s. text_eq s.name name ≡ false) (samples ls)
absent-All name [] h = tt
absent-All name (comment t ∷ ls) h = absent-All name ls h
absent-All name (blank ∷ ls) h = absent-All name ls h
absent-All name (sample other value ∷ ls) h =
    let (apart, rest) = both (not (text_eq other name)) (absent name ls) h in
    (negated (text_eq other name) apart, absent-All name ls rest)

All-with :
    (P Q R : Sample → Type 0) (xs : List Sample)
    → ((s : Sample) → P s → Q s → R s)
    → All P xs
    → All Q xs
    → All R xs
All-with P Q R [] f h k = tt
All-with P Q R (x ∷ xs) f (h, hs) (k, ks) = (f x h k, All-with P Q R xs f hs ks)

abbrev Found : List Line → Sample → Type 0
Found ls s = lookup s.name ls ≡ some s.value

lookup-samples : (ls : List Line) → is_distinct ls ≡ true → All (Found ls) (samples ls)
lookup-samples [] h = tt
lookup-samples (comment t ∷ ls) h = lookup-samples ls h
lookup-samples (blank ∷ ls) h = lookup-samples ls h
lookup-samples (sample name value ∷ ls) h =
    let (apart, rest) = both (absent name ls) (is_distinct ls) h in
    (
      ap (λ b. if b then some value else lookup name ls) (text_eq_refl name),
      All-with (λ s. text_eq s.name name ≡ false) (Found ls) (Found (sample name value ∷ ls))
          (samples ls) (λ s e found. ap (λ b. if b then some value else lookup s.name ls) e ∙ found)
          (absent-All name ls apart) (lookup-samples ls rest),
    )

samples-names :
    (ls : List Line)
    → All (λ l. is_fine l ≡ true) ls
    → All (λ s. is_name s.name ≡ true) (samples ls)
samples-names [] h = tt
samples-names (comment t ∷ ls) (h, hs) = samples-names ls hs
samples-names (blank ∷ ls) (h, hs) = samples-names ls hs
samples-names (sample name value ∷ ls) (h, hs) = (h, samples-names ls hs)

abbrev all_fine : List Line → Bool
all_fine [] = true
all_fine (l ∷ ls) = is_fine l && all_fine ls

all_fine_sound : (ls : List Line) → all_fine ls ≡ true → All (λ l. is_fine l ≡ true) ls
all_fine_sound [] h = tt
all_fine_sound (l ∷ ls) h =
    let (now, rest) = both (is_fine l) (all_fine ls) h in (now, all_fine_sound ls rest)

scrape-push_lines :
    (ls : List Line)
    → all_fine ls ≡ true
    → is_distinct ls ≡ true
    → All Fits ls
    → All (λ s. scrape s.name (push_lines ls) ≡ some s.value) (samples ls)
scrape-push_lines ls fine distinct fits =
    let lines_fine = all_fine_sound ls fine in
    All-with (λ s. is_name s.name ≡ true) (Found ls)
      (λ s. scrape s.name (push_lines ls) ≡ some s.value) (samples ls)
      (λ s named found.
        ap (scrape_lines s.name) (lines-push_lines ls lines_fine)
        ∙ (scrape_lines-lookup s.name ls named lines_fine fits ∙ found))
      (samples-names ls lines_fine) (lookup-samples ls distinct)

exposition-fine : (m : Metrics) (w : Gauges) (mem : ℕ) → all_fine (exposition m w mem) ≡ true
unfolding exposition
exposition-fine m w mem = refl

exposition-distinct : (m : Metrics) (w : Gauges) (mem : ℕ) → is_distinct (exposition m w mem) ≡ true
unfolding exposition
exposition-distinct m w mem = refl

abbrev named : Text → ℕ → Sample
named name value = record { name = name; value = value }

-- The second field of statm is the number of resident pages, each of 4 KiB.
abbrev pub resident_bytes : Option ℕ → ℕ
resident_bytes none = 0
resident_bytes (some pages) = pages * 4096

-- The second word of statm, if it can be read, is a number of pages.
abbrev pub Holds : Option Text → Option ℕ → Type 0
Holds none none = Unit
Holds none (some pages) = ⊥
Holds (some content) none = ⊥
Holds (some content) (some pages) =
    (size : Text) × (others : List Text) × (split_whitespace content
      ≡ size ∷ decimal pages ∷ others)
    × (pages * 4096 ≤ u64_max)

memory_lem :
    (statm : Option Text) (resident : Option ℕ)
    → Holds statm resident
    → get_process_memory_bytes statm ≡ resident_bytes resident
unfolding get_process_memory_bytes
memory_lem none none h = refl
memory_lem none (some pages) h = elim h [ ]
memory_lem (some content) none h = elim h [ ]
memory_lem (some content) (some pages) (size, others, words, fits) =
    ap (λ l. bytes_of (pages_of l)) words
    ∙ (ap bytes_of (parse_unsigned-decimal u64_max pages (omega arith) (omega arith)) ∙ omega arith)

-- What is measured, by the name under which it is published.
abbrev pub published : Option ℕ → Metrics → Gauges → List Sample
published resident m w =
    named (codes "akiro_jobs_total{verdict=\"Accepted\"}") m.jobs_accepted
    ∷ named (codes "akiro_jobs_total{verdict=\"WrongAnswer\"}") m.jobs_wrong_answer
    ∷ named (codes "akiro_jobs_total{verdict=\"TimeLimitExceeded\"}") m.jobs_tle
    ∷ named (codes "akiro_jobs_total{verdict=\"MemoryLimitExceeded\"}") m.jobs_mle
    ∷ named (codes "akiro_jobs_total{verdict=\"RuntimeError\"}") m.jobs_runtime_error
    ∷ named (codes "akiro_jobs_total{verdict=\"CompilationError\"}") m.jobs_compile_error
    ∷ named (codes "akiro_jobs_by_language_total{language=\"cpp\"}") m.lang_cpp
    ∷ named (codes "akiro_jobs_by_language_total{language=\"python\"}") m.lang_python
    ∷ named (codes "akiro_jobs_by_language_total{language=\"pypy3\"}") m.lang_pypy
    ∷ named (codes "akiro_jobs_by_language_total{language=\"java\"}") m.lang_java
    ∷ named (codes "akiro_jobs_by_language_total{language=\"kotlin\"}") m.lang_kotlin
    ∷ named (codes "akiro_jobs_by_language_total{language=\"csharp\"}") m.lang_csharp
    ∷ named (codes "akiro_jobs_by_language_total{language=\"zig\"}") m.lang_zig
    ∷ named (codes "akiro_jobs_by_language_total{language=\"ruby\"}") m.lang_ruby
    ∷ named (codes "akiro_jobs_by_language_total{language=\"php\"}") m.lang_php
    ∷ named (codes "akiro_jobs_by_language_total{language=\"haskell\"}") m.lang_haskell
    ∷ named (codes "akiro_jobs_by_language_total{language=\"dart\"}") m.lang_dart
    ∷ named (codes "akiro_jobs_by_language_total{language=\"scala\"}") m.lang_scala
    ∷ named (codes "akiro_jobs_by_language_total{language=\"c\"}") m.lang_c
    ∷ named (codes "akiro_jobs_by_language_total{language=\"javascript\"}") m.lang_js
    ∷ named (codes "akiro_jobs_by_language_total{language=\"typescript\"}") m.lang_ts
    ∷ named (codes "akiro_jobs_by_language_total{language=\"sql\"}") m.lang_sql
    ∷ named (codes "akiro_testcases_total{status=\"passed\"}") m.testcases_passed
    ∷ named (codes "akiro_testcases_total{status=\"failed\"}") m.testcases_failed
    ∷ named (codes "akiro_cpu_time_ms_total") m.total_cpu_time_ms
    ∷ named (codes "akiro_workers{state=\"total\"}") w.total_workers
    ∷ named (codes "akiro_workers{state=\"idle\"}") w.idle_workers
    ∷ named (codes "akiro_workers{state=\"busy\"}") w.busy_workers
    ∷ named (codes "akiro_queue_depth") w.queued_jobs
    ∷ named (codes "akiro_process_memory_bytes") (resident_bytes resident)
    ∷ named (codes "akiro_uptime_seconds") w.uptime_secs
    ∷ []

samples-Fits : (ls : List Line) → All (λ s. s.value ≤ u64_max) (samples ls) → All Fits ls
samples-Fits [] h = tt
samples-Fits (comment t ∷ ls) h = (tt, samples-Fits ls h)
samples-Fits (blank ∷ ls) h = (tt, samples-Fits ls h)
samples-Fits (sample name value ∷ ls) (h, hs) = (h, samples-Fits ls hs)

samples-exposition :
    (resident : Option ℕ) (m : Metrics) (w : Gauges)
    → samples (exposition m w (resident_bytes resident)) ≡ published resident m w
unfolding exposition
samples-exposition resident m w = refl

-- Each counter and gauge, if all fit a u64, is read back from the text under its own name, labels
-- included; the memory is the resident pages that statm tells, or 0 where that cannot be read.
pub scrape-render_prometheus :
    (statm : Option Text) (resident : Option ℕ) (m : Metrics) (w : Gauges)
    → Holds statm resident
    → All (λ s. s.value ≤ u64_max) (published resident m w)
    → All (λ s. scrape s.name (render_prometheus statm m w) ≡ some s.value) (published resident m w)
unfolding render_prometheus
scrape-render_prometheus statm resident m w holds fits =
    let ls = exposition m w (resident_bytes resident) in
    let same = samples-exposition resident m w in
    let each =
      scrape-push_lines ls (exposition-fine m w (resident_bytes resident))
        (exposition-distinct m w (resident_bytes resident))
        (samples-Fits ls (subst (All λ s. s.value ≤ u64_max) (sym same) fits)) in
    rw (memory_lem statm resident holds)
      (subst (All λ s. scrape s.name (push_lines ls) ≡ some s.value) same each)
