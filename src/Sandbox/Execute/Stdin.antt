-- ===== src/Sandbox/Execute/Stdin.antt =====
-- src/sandbox/mod.rs: `write_all_to_fd`, over the answers of the successive `write` calls.
use akiro.Prelude.{
  ℕ, zero, suc, ◌+◌, ◌≤◌, ◌≡◌, refl, sym, ap, ◌∙◌, List, [], ◌∷◌, ◌++◌, ◌==◌, ltb, if◌then◌else◌,
  length, take, drop, Bool-cases, inl, inr, arith,
}

-- What `write` returns: a number of bytes, or an error.
pub data WriteAnswer : Type 0 where
  wrote : ℕ → WriteAnswer
  write_error : WriteAnswer

-- The bytes that go into the pipe. An answer of zero ends the loop as an error does; the answers
-- run out only while `write` blocks.
unfoldable pub write_from : ℕ → List ℕ → List WriteAnswer → List ℕ
write_from total_written bytes [] = []
write_from total_written bytes (write_error ∷ rs) = []
write_from total_written bytes (wrote n ∷ rs) =
    let rest = write_from (total_written + n) bytes rs in
    if ltb total_written (length bytes)
    then (if n == 0 then [] else take n (drop total_written bytes) ++ rest)
    else []

unfoldable pub write_all_to_fd : List ℕ → List WriteAnswer → List ℕ
unfolding write_from
write_all_to_fd bytes answers = write_from 0 bytes answers

-- How much `write` says it took, up to the first answer that is none.
abbrev pub taken : List WriteAnswer → ℕ
taken [] = 0
taken (write_error ∷ rs) = 0
taken (wrote n ∷ rs) = let rest = taken rs in if n == 0 then 0 else n + rest

take-nil : (n : ℕ) → take {A = ℕ} n [] ≡ []
take-nil zero = refl
take-nil (suc n) = refl

drop-nil : (n : ℕ) → drop {A = ℕ} n [] ≡ []
drop-nil zero = refl
drop-nil (suc n) = refl

drop-of_le : (n : ℕ) (xs : List ℕ) → length xs ≤ n → drop n xs ≡ []
drop-of_le zero [] h = refl
drop-of_le zero (x ∷ xs) h = absurd (omega arith)
drop-of_le (suc n) [] h = refl
drop-of_le (suc n) (x ∷ xs) h = drop-of_le n xs (omega arith)

drop-drop : (n m : ℕ) (xs : List ℕ) → drop m (drop n xs) ≡ drop (n + m) xs
drop-drop n m [] = rw (drop-nil n, drop-nil m, drop-nil (n + m)) refl
drop-drop zero m (x ∷ xs) = ap (λ k. drop k (x ∷ xs)) (omega arith)
drop-drop (suc n) m (x ∷ xs) =
    drop-drop n m xs ∙ ap (λ k. drop k (x ∷ xs)) {x = suc (n + m)} (omega arith)

take-add : (n m : ℕ) (xs : List ℕ) → take n xs ++ take m (drop n xs) ≡ take (n + m) xs
take-add zero m xs = ap (λ k. take k xs) (omega arith)
take-add (suc n) m [] = take-nil m ∙ sym (take-nil (suc n + m))
take-add (suc n) m (x ∷ xs) =
    ap (λ l. x ∷ l) (take-add n m xs) ∙ ap (λ k. take k (x ∷ xs)) {x = suc (n + m)} (omega arith)

write_some :
    (total : ℕ) (bytes : List ℕ) (n : ℕ) (rs : List WriteAnswer)
    → write_from (total + n) bytes rs ≡ take (taken rs) (drop (total + n) bytes)
    → (if n == 0 then [] else take n (drop total bytes) ++ write_from (total + n) bytes rs)
      ≡ take (taken (wrote n ∷ rs)) (drop total bytes)
write_some total bytes n rs h = elim (Bool-cases (n == 0)) [
  | inl none_taken ↦ rw none_taken refl
  | inr some_taken ↦
      rw (some_taken, h, sym (drop-drop total n bytes)) (take-add n (taken rs) (drop total bytes))
]

write_from-taken :
    (total : ℕ) (bytes : List ℕ) (rs : List WriteAnswer)
    → write_from total bytes rs ≡ take (taken rs) (drop total bytes)
unfolding write_from
write_from-taken total bytes [] = refl
write_from-taken total bytes (write_error ∷ rs) = refl
write_from-taken total bytes (wrote n ∷ rs) = elim (Bool-cases (ltb total (length bytes))) [
  | inl more ↦ rw more (write_some total bytes n rs (write_from-taken (total + n) bytes rs))
  | inr full ↦
      rw (full, drop-of_le total bytes (ground arith)) (sym (take-nil (taken (wrote n ∷ rs))))
]

-- However the writes are cut, the pipe gets the first bytes of the data, as many as the writes took
-- up to the first that took none.
write_all_to_fd-taken :
    (bytes : List ℕ) (rs : List WriteAnswer) → write_all_to_fd bytes rs ≡ take (taken rs) bytes
unfolding write_all_to_fd
write_all_to_fd-taken bytes rs = write_from-taken 0 bytes rs
