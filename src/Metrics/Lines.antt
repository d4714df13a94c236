-- ===== src/Metrics/Lines.antt =====
-- src/metrics.rs: the lines of the text, as a scraper finds them.
use akiro.Prelude.{
  ℕ, ◌≡◌, refl, ap, ◌∙◌, Bool, true, false, not, ◌&&◌, ◌==◌, Option, none, some, List, [], ◌∷◌,
  ◌++◌, map, All, All-append,
}
use akiro.Prelude.Text.{Text, codes, text_eq, strip_prefix, parse_unsigned}
use akiro.Prelude.Word.{u64_max}
use akiro.Prelude.Decimal.{decimal}
use akiro.Prelude.Decimal.RoundTrip.{decimal-IsDigit}
use akiro.Prelude.Pieces.{lines}
use akiro.Prelude.Pieces.Fields.{
  InLine, is_word, is_word_sound, lines-cons, word-InLine, digits-IsWord,
}
use akiro.Metrics.Prometheus.{Line, comment, sample, blank, line_text, push_lines}

-- The number on the first line that begins with the name and a space.
abbrev pub number : Option Text → Option ℕ → Option ℕ
number none later = later
number (some t) later = parse_unsigned u64_max t

abbrev pub scrape_lines : Text → List Text → Option ℕ
scrape_lines name [] = none
scrape_lines name (l ∷ ls) = number (strip_prefix (name ++ codes " ") l) (scrape_lines name ls)

abbrev pub scrape : Text → Text → Option ℕ
scrape name text = scrape_lines name (lines text)

pub record Sample : Type 0 where
  pub name : Text
  pub value : ℕ

abbrev pub samples : List Line → List Sample
samples [] = []
samples (comment t ∷ ls) = samples ls
samples (sample name value ∷ ls) = record { name = name; value = value } ∷ samples ls
samples (blank ∷ ls) = samples ls

-- A comment begins with a number sign and has no end of a line in it, a name is a word that begins
-- otherwise.
abbrev pub in_line : Text → Bool
in_line [] = true
in_line (c ∷ s) = not (c == 0xa) && (not (c == 0xd) && in_line s)

abbrev pub is_comment : Text → Bool
is_comment [] = false
is_comment (c ∷ s) = c == b'#' && in_line (c ∷ s)

abbrev pub is_name : Text → Bool
is_name [] = false
is_name (c ∷ s) = not (c == b'#') && is_word (c ∷ s)

abbrev pub is_fine : Line → Bool
is_fine (comment t) = is_comment t
is_fine (sample name value) = is_name name
is_fine blank = true

abbrev pub absent : Text → List Line → Bool
absent name [] = true
absent name (comment t ∷ ls) = absent name ls
absent name (sample other value ∷ ls) = not (text_eq other name) && absent name ls
absent name (blank ∷ ls) = absent name ls

abbrev pub is_distinct : List Line → Bool
is_distinct [] = true
is_distinct (comment t ∷ ls) = is_distinct ls
is_distinct (sample name value ∷ ls) = absent name ls && is_distinct ls
is_distinct (blank ∷ ls) = is_distinct ls

pub both : (a b : Bool) → (a && b) ≡ true → (a ≡ true) × (b ≡ true)
both true b h = (refl, h)
both false b h = cc

pub negated : (b : Bool) → not b ≡ true → b ≡ false
negated true h = cc
negated false h = refl

in_line_sound : (s : Text) → in_line s ≡ true → All InLine s
in_line_sound [] h = tt
in_line_sound (c ∷ s) h =
    let (newline, rest) = both (not (c == 0xa)) (not (c == 0xd) && in_line s) h in
    let (return, later) = both (not (c == 0xd)) (in_line s) rest in
    ((negated (c == 0xa) newline, negated (c == 0xd) return), in_line_sound s later)

line_text-InLine : (l : Line) → is_fine l ≡ true → All InLine (line_text l)
line_text-InLine blank h = tt
line_text-InLine (comment []) h = tt
line_text-InLine (comment (c ∷ s)) h =
    in_line_sound (c ∷ s) (both (c == b'#') (in_line (c ∷ s)) h).1
line_text-InLine (sample [] value) h = cc
line_text-InLine (sample (c ∷ s) value) h =
    let word = is_word_sound (c ∷ s) (both (not (c == b'#')) (is_word (c ∷ s)) h).1 in
    All-append InLine (c ∷ s) (codes " " ++ decimal value) (word-InLine (c ∷ s) word) (
      All-append InLine (codes " ") (decimal value) ((refl, refl), tt)
        (word-InLine (decimal value) (digits-IsWord (decimal value) (decimal-IsDigit value))))

pub lines-push_lines :
    (ls : List Line) → All (λ l. is_fine l ≡ true) ls → lines (push_lines ls) ≡ map line_text ls
unfolding push_lines
lines-push_lines [] h = refl
lines-push_lines (l ∷ ls) (h, hs) =
    lines-cons (line_text l) (push_lines ls) (line_text-InLine l h)
    ∙ ap (λ rest. line_text l ∷ rest) (lines-push_lines ls hs)
