-- ===== src/Api/Auth/Admits.antt =====
-- src/api/mod.rs: exactly which requests the middleware lets through.
use mathlib.Core.Option.{none-ne-some, some-injective}
use akiro.Prelude.{
  Option-cases, ltb, subst, ◌==◌, ◌⊎◌, ℕ, ◌<◌, ◌≡◌, refl, sym, ap, ◌∙◌, ◌↔◌, true, false, Option,
  none, some, List, [], ◌∷◌, All, arith, Bool-cases, inl, inr, ◌++◌,
}
use akiro.Prelude.Text.{Text, as_bytes, char_bytes, strip_prefix, codes}
use akiro.Api.Auth.{
  and_then, or_else, Headers, provided, authorized, auth_middleware, normalize_secret, is_blank,
}
use akiro.Api.Auth.Bytes.{IsByte, secret_eq_iff}

-- Unicode scalar values lie below 0x110000.
abbrev pub IsText : Text → Type 0
IsText s = All (λ c. c < 1114112) s

-- A header that is there and can be read as a text.
abbrev pub Reads : (List ℕ → Option Text) → Option (List ℕ) → Text → Type 0
Reads to_str header t = (b : List ℕ) × (header ≡ some b) × (to_str b ≡ some t)

-- The request presents a text: in x-judge-secret if that can be read, and else after `Bearer ` in
-- authorization.
pub data Presents (to_str : List ℕ → Option Text) (h : Headers) (p : Text) : Type 0 where
  in_secret : Reads to_str h.x_judge_secret p → Presents to_str h p
  in_bearer :
      ((t : Text) → ¬ Reads to_str h.x_judge_secret t)
      → Reads to_str h.authorization (codes "Bearer " ++ p)
      → Presents to_str h p

-- The request carries the secret.
abbrev pub Knows : (List ℕ → Option Text) → Headers → Text → Type 0
Knows to_str h expected = (p : Text) × Presents to_str h p × (as_bytes p ≡ as_bytes expected)

Reads-sound :
    (to_str : List ℕ → Option Text) (o : Option (List ℕ)) (t : Text)
    → and_then o to_str ≡ some t
    → Reads to_str o t
Reads-sound to_str none t e = absurd (none-ne-some _ e)
Reads-sound to_str (some b) t e = (b, refl, e)

Reads-complete :
    (to_str : List ℕ → Option Text) (o : Option (List ℕ)) (t : Text)
    → Reads to_str o t
    → and_then o to_str ≡ some t
Reads-complete to_str o t (b, e, r) = ap (λ x. and_then x to_str) e ∙ r

stripped_sound : (prefix s p : Text) → strip_prefix prefix s ≡ some p → s ≡ prefix ++ p
stripped_sound [] s p e = some-injective _ _ e
stripped_sound (x ∷ prefix) [] p e = absurd (none-ne-some _ e)
stripped_sound (x ∷ prefix) (c ∷ s) p e = elim (Bool-cases (x == c)) [
  | inl same ↦
      let tail = stripped_sound prefix s p (sym (on_same same) ∙ e) in
      let first : c ≡ x = ground arith in cc (first, tail)
  | inr other ↦ absurd (none-ne-some _ (sym (on_other other) ∙ e))
]
  where
    on_same : (x == c) ≡ true → strip_prefix (x ∷ prefix) (c ∷ s) ≡ strip_prefix prefix s
    on_same same = rw same refl

    on_other : (x == c) ≡ false → strip_prefix (x ∷ prefix) (c ∷ s) ≡ none
    on_other other = rw other refl

bearer_sound :
    (o : Option Text) (p : Text)
    → and_then o (strip_prefix (codes "Bearer ")) ≡ some p
    → o ≡ some (codes "Bearer " ++ p)
bearer_sound none p e = absurd (none-ne-some _ e)
bearer_sound (some s) p e = ap some (stripped_sound (codes "Bearer ") s p e)

first_of :
    (a b : Option Text) (p : Text)
    → or_else a b ≡ some p
    → (a ≡ some p) ⊎ ((a ≡ none) × (b ≡ some p))
first_of none b p e = inr (refl, e)
first_of (some x) b p e = inl e

provided-Presents :
    (to_str : List ℕ → Option Text) (h : Headers) (p : Text)
    → provided to_str h ≡ some p
    → Presents to_str h p
unfolding provided
provided-Presents to_str h p e = elim (first_of _ _ p e) [
  | inl secret ↦ in_secret (Reads-sound to_str h.x_judge_secret p secret)
  | inr (unread, bearer) ↦
      in_bearer (λ t r. none-ne-some _ (sym unread ∙ Reads-complete to_str h.x_judge_secret t r))
        (Reads-sound to_str h.authorization _ (bearer_sound _ p bearer))
]

Presents-provided :
    (to_str : List ℕ → Option Text) (h : Headers) (p : Text)
    → Presents to_str h p
    → provided to_str h ≡ some p
unfolding provided
Presents-provided to_str h p (in_secret r) = rw (Reads-complete to_str h.x_judge_secret p r) refl
Presents-provided to_str h p (in_bearer unread r) =
    elim (Option-cases (and_then h.x_judge_secret to_str)) [
      | inl missing ↦ rw (missing, Reads-complete to_str h.authorization _ r) refl
      | inr (t, found) ↦ absurd (unread t (Reads-sound to_str h.x_judge_secret t found))
    ]

All-append-IsByte : (xs ys : List ℕ) → All IsByte xs → All IsByte ys → All IsByte (xs ++ ys)
All-append-IsByte [] ys h k = k
All-append-IsByte (x ∷ xs) ys (h, hs) k = (h, All-append-IsByte xs ys hs k)

char_bytes-IsByte : (c : ℕ) → c < 1114112 → All IsByte (char_bytes c)
char_bytes-IsByte c h = elim (Bool-cases (ltb c 0x80)) [
  | inl one ↦ rw one (ground arith, tt)
  | inr more ↦ elim (Bool-cases (ltb c 0x800)) [
    | inl two ↦ rw (more, two) (ground arith, (ground arith, tt))
    | inr many ↦ elim (Bool-cases (ltb c 0x10000)) [
      | inl three ↦ rw (more, many, three) (ground arith, (ground arith, (ground arith, tt)))
      | inr four ↦
          rw (more, many, four) (ground arith, (ground arith, (ground arith, (ground arith, tt))))
    ]
  ]
]

as_bytes-IsByte : (s : Text) → IsText s → All IsByte (as_bytes s)
as_bytes-IsByte [] h = tt
as_bytes-IsByte (c ∷ s) (h, hs) =
    All-append-IsByte (char_bytes c) (as_bytes s) (char_bytes-IsByte c h) (as_bytes-IsByte s hs)

strip_prefix-IsText : (prefix s t : Text) → strip_prefix prefix s ≡ some t → IsText s → IsText t
strip_prefix-IsText [] s t e h = subst IsText (some-injective _ _ e) h
strip_prefix-IsText (p ∷ ps) [] t e h = absurd (none-ne-some _ e)
strip_prefix-IsText (p ∷ ps) (c ∷ s) t e (h, hs) = elim (Bool-cases (p == c)) [
  | inl same ↦ strip_prefix-IsText ps s t (sym (on_same same) ∙ e) hs
  | inr other ↦ absurd (none-ne-some _ (sym (on_other other) ∙ e))
]
  where
    on_same : (p == c) ≡ true → strip_prefix (p ∷ ps) (c ∷ s) ≡ strip_prefix ps s
    on_same same = rw same refl

    on_other : (p == c) ≡ false → strip_prefix (p ∷ ps) (c ∷ s) ≡ none
    on_other other = rw other refl

module _ (to_str : List ℕ → Option Text)
    (texts : (b : List ℕ) (s : Text) → to_str b ≡ some s → IsText s) where
  and_then-IsText : (o : Option (List ℕ)) (s : Text) → and_then o to_str ≡ some s → IsText s
  and_then-IsText none s e = absurd (none-ne-some _ e)
  and_then-IsText (some b) s e = texts b s e

  bearer-IsText :
      (o : Option Text) (s : Text)
      → ((t : Text) → o ≡ some t → IsText t)
      → and_then o (strip_prefix (codes "Bearer ")) ≡ some s
      → IsText s
  bearer-IsText none s h e = absurd (none-ne-some _ e)
  bearer-IsText (some t) s h e = strip_prefix-IsText (codes "Bearer ") t s e (h t refl)

  or_else-IsText :
      (a b : Option Text) (s : Text)
      → ((t : Text) → a ≡ some t → IsText t)
      → ((t : Text) → b ≡ some t → IsText t)
      → or_else a b ≡ some s
      → IsText s
  or_else-IsText none b s h k e = k s e
  or_else-IsText (some t) b s h k e = h s e

  provided-IsText : (h : Headers) (s : Text) → provided to_str h ≡ some s → IsText s
  unfolding provided
  provided-IsText h s e =
      or_else-IsText _ _ s (and_then-IsText h.x_judge_secret)
        (λ t. bearer-IsText _ t (and_then-IsText h.authorization)) e

  authorized_iff :
      (o : Option Text) (expected : Text)
      → IsText expected
      → ((p : Text) → o ≡ some p → IsText p)
      → (authorized o expected ≡ true)
        ↔ ((p : Text) × (o ≡ some p) × (as_bytes p ≡ as_bytes expected))
  authorized_iff none expected h k =
      ((λ e. absurd (ground arith)), λ (p, e, _). absurd (none-ne-some _ e))
  authorized_iff (some p) expected h k =
      let same =
        secret_eq_iff (as_bytes p) (as_bytes expected) (as_bytes-IsByte p (k p refl))
          (as_bytes-IsByte expected h) in
      ((λ e. (p, refl, same.0 e)), λ (q, e, b). same.1 (ap as_bytes (some-injective _ _ e) ∙ b))

  -- Where `to_str` yields texts and the configured secret is one, a request passes exactly if the
  -- secret is blank, and so counts as none, or the request carries it, byte for byte, in
  -- x-judge-secret, or after `Bearer ` in authorization where x-judge-secret cannot be read.
  pub auth_middleware_iff :
      (s : Text) (h : Headers)
      → IsText s
      → (auth_middleware to_str (normalize_secret (some s)) h ≡ true)
        ↔ ((is_blank s ≡ true) ⊎ Knows to_str h s)
  unfolding auth_middleware normalize_secret
  auth_middleware_iff s h t =
      let known = authorized_iff (provided to_str h) s t (provided-IsText h) in
      elim (Bool-cases (is_blank s)) [
        | inl blank ↦ rw blank ((λ _. inl refl), λ _. refl)
        | inr kept ↦ rw kept (
          (λ e.
              let (p, found, same) = known.0 e in
              inr (p, provided-Presents to_str h p found, same)),
          λ e. elim e [
            | inl never ↦ absurd (ground arith)
            | inr (p, carried, same) ↦ known.1 (p, Presents-provided to_str h p carried, same)
          ],
        )
      ]
