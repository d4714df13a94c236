-- ===== src/Prelude/Pieces/Fields.antt =====
-- Files of lines that are a name and a number, as the kernel prints them, taken apart again.
use Prim.Native.Nat.{ℕ}
use mathlib.Core.Path.{◌≡◌, refl, ap, sym, subst, ◌∙◌}
use mathlib.Core.Logic.{◌≢◌}
use mathlib.Core.Bool.{Bool, true, false, not, ◌&&◌}
use mathlib.Core.Option.{none, some}
use mathlib.Core.List.{List, [], ◌∷◌, ◌++◌, map, reverse, reverse-append, reverse-reverse}
use native.Mathlib.Omega.{arith}
use akiro.Prelude.Tests.{◌==◌, if◌then◌else◌, if_both}
use akiro.Prelude.Lists.{All, All-append}
use akiro.Prelude.Text.{Text, codes, text_eq, is_whitespace, drop_while, trim, strip_prefix}
use akiro.Prelude.Decimal.{decimal}
use akiro.Prelude.Decimal.RoundTrip.{IsDigit, decimal-IsDigit, decimal-ne-nil}
use akiro.Prelude.Pieces.{
  cons_piece, split_if, split, strip_cr, ended, lines, not_empty, split_whitespace,
}

-- A name has no white space in it.
abbrev pub IsWord : Text → Type 0
IsWord = All (λ c. is_whitespace c ≡ false)

abbrev pub is_word : Text → Bool
is_word [] = true
is_word (c ∷ s) = not (is_whitespace c) && is_word s

not_and : (b c : Bool) → (not b && c) ≡ true → (b ≡ false) × (c ≡ true)
not_and false c h = (refl, h)
not_and true c h = cc

pub is_word_sound : (s : Text) → is_word s ≡ true → IsWord s
is_word_sound [] h = tt
is_word_sound (c ∷ s) h =
    let (first, rest) = not_and (is_whitespace c) (is_word s) h in (first, is_word_sound s rest)

module _ (separates : ℕ → Bool) where
  abbrev Whole : Text → Type 0
  Whole = All (λ c. separates c ≡ false)

  split_if-Whole : (s : Text) → Whole s → split_if separates s ≡ s ∷ []
  split_if-Whole [] h = refl
  split_if-Whole (c ∷ s) (h, hs) = rw (h, split_if-Whole s hs) refl

  split_if-append :
      (s : Text) (c : ℕ) (t : Text)
      → Whole s
      → separates c ≡ true
      → split_if separates (s ++ c ∷ t) ≡ s ∷ split_if separates t
  split_if-append [] c t h k = rw k refl
  split_if-append (d ∷ s) c t (h, hs) k = rw (h, split_if-append s c t hs k) refl

  cons_piece-ne-nil : (x : ℕ) (pieces : List Text) → cons_piece x pieces ≢ []
  cons_piece-ne-nil x [] e = cc
  cons_piece-ne-nil x (piece ∷ pieces) e = cc

  split_if-ne-nil : (s : Text) → split_if separates s ≢ []
  split_if-ne-nil [] e = cc
  split_if-ne-nil (c ∷ s) e =
      if_both (λ pieces. pieces ≢ []) (separates c) (λ k. cc)
        (cons_piece-ne-nil c (split_if separates s)) e

ended-cons :
    (s : Text) (pieces : List Text) → pieces ≢ [] → ended (s ∷ pieces) ≡ strip_cr s ∷ ended pieces
ended-cons s [] h = absurd (h refl)
ended-cons s (piece ∷ pieces) h = refl

strip_cr_word : (s : Text) → All (λ c. (c == 0xd) ≡ false) s → strip_cr s ≡ s
strip_cr_word [] h = refl
strip_cr_word (c ∷ []) (h, hs) = rw h refl
strip_cr_word (c ∷ d ∷ s) (h, hs) = ap (λ t. c ∷ t) (strip_cr_word (d ∷ s) hs)

-- A line whose characters are no ends of lines is read as it is.
abbrev pub InLine : ℕ → Type 0
InLine c = ((c == 0xa) ≡ false) × ((c == 0xd) ≡ false)

All-map {ℓ κ} :
    (P : ℕ → Type ℓ) (Q : ℕ → Type κ) (s : Text) → ((c : ℕ) → P c → Q c) → All P s → All Q s
All-map P Q [] f h = tt
All-map P Q (c ∷ s) f (h, hs) = (f c h, All-map P Q s f hs)

pub lines-cons : (s t : Text) → All InLine s → lines (s ++ 0xa ∷ t) ≡ s ∷ lines t
lines-cons s t h =
    ap ended (split_if-append (λ x. x == 0xa) s 0xa t (All-map InLine _ s (λ c k. k.0) h) refl)
    ∙ (ended-cons s (split 0xa t) (split_if-ne-nil (λ x. x == 0xa) t)
        ∙ ap (λ l. l ∷ lines t) (strip_cr_word s (All-map InLine _ s (λ c k. k.1) h)))

pub word-InLine : (s : Text) → IsWord s → All InLine s
word-InLine s h =
    All-map (λ c. is_whitespace c ≡ false) InLine s (λ c k. (ground arith, ground arith)) h

pub digits-IsWord : (s : Text) → All IsDigit s → IsWord s
digits-IsWord s h = All-map IsDigit (λ c. is_whitespace c ≡ false) s (λ c k. ground arith) h

pub record Field : Type 0 where
  pub key : Text
  pub value : ℕ

abbrev pub field_line : Field → Text
field_line f = f.key ++ (codes " " ++ decimal f.value)

abbrev pub print_fields : List Field → Text
print_fields [] = []
print_fields (f ∷ fs) = field_line f ++ 0xa ∷ print_fields fs

abbrev pub Named : Field → Type 0
Named f = IsWord f.key × (f.key ≢ [])

field_line-InLine : (f : Field) → Named f → All InLine (field_line f)
field_line-InLine f (h, _) =
    All-append InLine f.key (codes " " ++ decimal f.value) (word-InLine f.key h) (
      All-append InLine (codes " ") (decimal f.value) ((refl, refl), tt)
        (word-InLine (decimal f.value) (digits-IsWord (decimal f.value) (decimal-IsDigit f.value))))

-- A file of fields has a line for each.
pub lines-print_fields :
    (fs : List Field) → All Named fs → lines (print_fields fs) ≡ map field_line fs
lines-print_fields [] h = refl
lines-print_fields (f ∷ fs) (h, hs) =
    lines-cons (field_line f) (print_fields fs) (field_line-InLine f h)
    ∙ ap (λ l. field_line f ∷ l) (lines-print_fields fs hs)

not_empty-cons :
    (s : Text) (pieces : List Text) → s ≢ [] → not_empty (s ∷ pieces) ≡ s ∷ not_empty pieces
not_empty-cons [] pieces h = absurd (h refl)
not_empty-cons (c ∷ s) pieces h = refl

-- Its words are the name and the number.
pub split_whitespace-field_line :
    (f : Field) → Named f → split_whitespace (field_line f) ≡ f.key ∷ decimal f.value ∷ []
split_whitespace-field_line f (h, k) =
    ap not_empty (
      split_if-append is_whitespace f.key b' ' (decimal f.value) h refl
      ∙ ap (λ l. f.key ∷ l)
          (split_if-Whole is_whitespace (decimal f.value)
            (digits-IsWord (decimal f.value) (decimal-IsDigit f.value))))
    ∙ (not_empty-cons f.key (decimal f.value ∷ []) k
        ∙ ap (λ l. f.key ∷ l) (not_empty-cons (decimal f.value) [] (decimal-ne-nil f.value)))

drop_while-head :
    (c : ℕ) (s : Text) → is_whitespace c ≡ false → drop_while is_whitespace (c ∷ s) ≡ c ∷ s
drop_while-head c s h = rw h refl

drop_while-word : (s : Text) → IsWord s → drop_while is_whitespace s ≡ s
drop_while-word [] h = refl
drop_while-word (c ∷ s) (h, hs) = drop_while-head c s h

reverse-IsWord : (s : Text) → IsWord s → IsWord (reverse s)
reverse-IsWord [] h = tt
reverse-IsWord (c ∷ s) (h, hs) =
    subst IsWord (sym (reverse-append (c ∷ []) s))
      (All-append _ (reverse s) (c ∷ []) (reverse-IsWord s hs) (h, tt))

pub trim-word : (s : Text) → IsWord s → trim s ≡ s
trim-word s h =
    ap (λ t. reverse (drop_while is_whitespace (reverse t))) (drop_while-word s h)
    ∙ (ap reverse (drop_while-word (reverse s) (reverse-IsWord s h)) ∙ reverse-reverse s)

-- The newline at the end goes.
pub trim-word_line : (s : Text) → IsWord s → s ≢ [] → trim (s ++ 0xa ∷ []) ≡ s
trim-word_line [] h k = absurd (k refl)
trim-word_line (c ∷ s) (h, hs) k =
    ap (λ t. reverse (drop_while is_whitespace (reverse t))) (drop_while-head c (s ++ 0xa ∷ []) h)
    ∙ (ap (λ t. reverse (drop_while is_whitespace t)) (reverse-append (c ∷ s) (0xa ∷ []))
        ∙ (ap reverse (drop_while-word (reverse (c ∷ s)) (reverse-IsWord (c ∷ s) (h, hs)))
            ∙ reverse-reverse (c ∷ s)))

-- A prefix that is a name and a space is found at that name alone.
pub strip_prefix-name :
    (p k t : Text)
    → IsWord p
    → IsWord k
    → strip_prefix (p ++ codes " ") (k ++ (codes " " ++ t)) ≡ (if text_eq p k then some t else none)
strip_prefix-name [] [] t h g = refl
strip_prefix-name [] (c ∷ k) t h (g, gs) = ground arith
strip_prefix-name (a ∷ p) [] t (h, hs) g = ground arith
strip_prefix-name (a ∷ p) (c ∷ k) t (h, hs) (g, gs) = ground (arith, strip_prefix-name p k t hs gs)
