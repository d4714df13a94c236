-- ===== src/Sandbox/Supervisor/Pipe.antt =====
-- src/sandbox/supervisor.rs: `read_pipe_output`, over the answers of the successive `read` calls.
use akiro.Prelude.{
  ℕ, ◌+◌, ◌-◌, ◌≤◌, ◌≡◌, sym, ap, ◌∙◌, List, [], ◌∷◌, ◌++◌, ltb, if◌then◌else◌, length, take,
  length-append, subst, take-append, take-append_of_le, take-of_le, append-nil, append_assoc,
  Bool-cases, inl, inr, arith,
}

pub data ReadAnswer : Type 0 where
  bytes_read : List ℕ → ReadAnswer
  end_of_file interrupted read_error : ReadAnswer

-- The answers run out only if the pipe is still open.
unfoldable pub read_from : ℕ → List ℕ → List ReadAnswer → List ℕ
read_from max_bytes buffer [] = buffer
read_from max_bytes buffer (interrupted ∷ rs) = read_from max_bytes buffer rs
read_from max_bytes buffer (read_error ∷ rs) = buffer
read_from max_bytes buffer (end_of_file ∷ rs) = buffer
read_from max_bytes buffer (bytes_read chunk ∷ rs) =
    let rest = read_from max_bytes (buffer ++ chunk) rs in
    if ltb max_bytes (length buffer + length chunk)
    then buffer ++ take (max_bytes - length buffer) chunk
    else rest

unfoldable pub read_pipe_output : ℕ → List ReadAnswer → List ℕ
unfolding read_from
read_pipe_output max_bytes answers = read_from max_bytes [] answers

-- What the program wrote, as far as the pipe could be read.
abbrev pub written : List ReadAnswer → List ℕ
written [] = []
written (interrupted ∷ rs) = written rs
written (read_error ∷ rs) = []
written (end_of_file ∷ rs) = []
written (bytes_read chunk ∷ rs) = chunk ++ written rs

short : (n : ℕ) (buffer : List ℕ) → length buffer ≤ n → buffer ≡ take n (buffer ++ [])
short n buffer h = rw append-nil (sym (take-of_le n buffer h))

read_from-written :
    (max_bytes : ℕ) (buffer : List ℕ) (rs : List ReadAnswer)
    → length buffer ≤ max_bytes
    → read_from max_bytes buffer rs ≡ take max_bytes (buffer ++ written rs)
unfolding read_from
read_from-written max_bytes buffer [] h = short max_bytes buffer h
read_from-written max_bytes buffer (interrupted ∷ rs) h = read_from-written max_bytes buffer rs h
read_from-written max_bytes buffer (read_error ∷ rs) h = short max_bytes buffer h
read_from-written max_bytes buffer (end_of_file ∷ rs) h = short max_bytes buffer h
read_from-written max_bytes buffer (bytes_read chunk ∷ rs) h =
    elim (Bool-cases (ltb max_bytes (length buffer + length chunk))) [
      | inl over ↦ rw over (
          ap (λ l. buffer ++ l)
            (sym (take-append_of_le (max_bytes - length buffer) chunk (written rs) (ground arith)))
          ∙ sym (take-append max_bytes buffer (chunk ++ written rs) h))
      | inr fits ↦ rw fits (
          read_from-written max_bytes (buffer ++ chunk) rs
            (subst (λ n. n ≤ max_bytes) (sym (length-append buffer chunk)) (ground arith))
          ∙ ap (take max_bytes) (append_assoc buffer chunk (written rs)))
    ]

-- However the reads are cut and interrupted, the output is what the program wrote up to the end of
-- the pipe or the first failed read, cut at the limit.
pub read_pipe_output-written :
    (max_bytes : ℕ) (rs : List ReadAnswer)
    → read_pipe_output max_bytes rs ≡ take max_bytes (written rs)
unfolding read_pipe_output
read_pipe_output-written max_bytes rs = read_from-written max_bytes [] rs (omega arith)
