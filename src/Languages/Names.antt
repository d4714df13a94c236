-- ===== src/Languages/Names.antt =====
-- src/languages/mod.rs: names, aliases and the whitelist.
use akiro.Prelude.{
  ℕ, ◌≡◌, refl, ap, subst, ◌∙◌, Bool, true, false, ◌&&◌, ◌||◌, Option, none, some, List, [], ◌∷◌,
  map, if◌then◌else◌, arith, Bool-cases, inl, inr, not,
}
use akiro.Prelude.Text.{Text, ascii_lower, IsAscii, Lowercase, trim}
use mathlib.Core.Bool.{decide}
use akiro.Prelude.Pieces.{is_empty, split}
use akiro.Languages.Language.{
  SupportedLanguage, SupportedLanguage-discrete, one_of, from_lower, from_str, as_str, contains,
  insert, insert_found, collect, parse_whitelist,
}

as_str-IsAscii : (lang : SupportedLanguage) → IsAscii (as_str lang)
unfolding as_str
as_str-IsAscii SupportedLanguage.c = omega arith
as_str-IsAscii _ = omega arith

lower-as_str : (lang : SupportedLanguage) → from_lower (map ascii_lower (as_str lang)) ≡ some lang
unfolding as_str from_lower one_of
lower-as_str SupportedLanguage.c = refl
lower-as_str _ = refl

-- The canonical name of a language is read back as that language.
pub from_str-as_str :
    (l : Lowercase) (lang : SupportedLanguage) → from_str l (as_str lang) ≡ some lang
unfolding from_str
from_str-as_str l lang =
    ap from_lower (l.on_ascii (as_str lang) (as_str-IsAscii lang)) ∙ lower-as_str lang

ascii_lower_idem : (c : ℕ) → ascii_lower (ascii_lower c) ≡ ascii_lower c
ascii_lower_idem c = ground arith

map-ascii_lower_idem : (s : Text) → map ascii_lower (map ascii_lower s) ≡ map ascii_lower s
map-ascii_lower_idem [] = refl
map-ascii_lower_idem (c ∷ s) = cc (ascii_lower_idem c, map-ascii_lower_idem s)

ascii_lower-IsAscii : (s : Text) → IsAscii s → IsAscii (map ascii_lower s)
ascii_lower-IsAscii [] h = tt
ascii_lower-IsAscii (c ∷ s) (h, hs) = (ground arith, ascii_lower-IsAscii s hs)

-- On ASCII text the case of the letters plays no part.
pub from_str_case :
    (l : Lowercase) (s : Text) → IsAscii s → from_str l s ≡ from_str l (map ascii_lower s)
unfolding from_str
from_str_case l s h = ap from_lower (
    rw (l.on_ascii s h, l.on_ascii (map ascii_lower s) (ascii_lower-IsAscii s h))
      (rw map-ascii_lower_idem refl))

-- Whether an item of a whitelist names the language.
abbrev pub names : Lowercase → SupportedLanguage → Text → Bool
names l lang item = not (is_empty (trim item)) && (elim (from_str l (trim item)) [
  | none ↦ false
  | some found ↦ decide (SupportedLanguage-discrete found lang)
])

abbrev pub any : (Text → Bool) → List Text → Bool
any p [] = false
any p (x ∷ xs) = p x || any p xs

known :
    (set : List SupportedLanguage) (found lang : SupportedLanguage)
    → contains set found ≡ true
    → (d : Dec (found ≡ lang)) → contains set lang ≡ (decide d || contains set lang)
unfolding decide
known set found lang h (yes e) = subst (λ x. contains set x ≡ true) e h
known set found lang h (no n) = refl

contains-insert :
    (set : List SupportedLanguage) (found lang : SupportedLanguage)
    → contains (insert set found) lang
      ≡ (decide (SupportedLanguage-discrete found lang) || contains set lang)
unfolding insert contains
contains-insert set found lang = elim (Bool-cases (contains set found)) [
  | inl old ↦ rw old (known set found lang old (SupportedLanguage-discrete found lang))
  | inr new ↦ rw new
]

contains-insert_found :
    (set : List SupportedLanguage) (found : Option SupportedLanguage) (lang : SupportedLanguage)
    → contains (insert_found set found) lang ≡ (
        (elim found [ none ↦ false | some f ↦ decide (SupportedLanguage-discrete f lang) ])
        || contains set lang)
contains-insert_found set none lang = refl
contains-insert_found set (some found) lang = contains-insert set found lang

-- One item, whether it is blank or not.
step :
    (l : Lowercase) (set : List SupportedLanguage) (item : Text) (lang : SupportedLanguage)
    (blank : Bool)
    → contains (if blank then set else insert_found set (from_str l (trim item))) lang ≡ (
        (not blank && (elim (from_str l (trim item)) [
          | none ↦ false
          | some found ↦ decide (SupportedLanguage-discrete found lang)
        ]))
        || contains set lang)
step l set item lang true = refl
step l set item lang false = contains-insert_found set (from_str l (trim item)) lang

regroup : {a : Bool} (n c rest : Bool) → a ≡ (n || c) → (a || rest) ≡ (c || (n || rest))
regroup n c rest h = ground arith

collect-names :
    (l : Lowercase) (set : List SupportedLanguage) (items : List Text) (lang : SupportedLanguage)
    → contains (collect l set items) lang ≡ (contains set lang || any (names l lang) items)
unfolding collect
collect-names l set [] lang = ground arith
collect-names l set (item ∷ items) lang =
    collect-names l
      (if is_empty (trim item) then set else insert_found set (from_str l (trim item))) items lang
    ∙ regroup _ _ _ (step l set item lang (is_empty (trim item)))

-- A language is enabled exactly when some item of the comma-separated list, trimmed, is one of its
-- names.
pub parse_whitelist-contains :
    (l : Lowercase) (input : Text) (lang : SupportedLanguage)
    → contains (parse_whitelist l input) lang ≡ any (names l lang) (split b',' input)
unfolding parse_whitelist contains
parse_whitelist-contains l input lang = collect-names l [] (split b',' input) lang
