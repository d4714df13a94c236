-- ===== src/Queue/Delivery.antt =====
-- src/queue/redis.rs: the jobs that a reply of XREADGROUP delivers.
use akiro.Prelude.{
  ℕ, ◌≡◌, refl, ap, ◌∙◌, Option, none, some, List, [], ◌∷◌, append-nil, if◌then◌else◌,
}
use akiro.Prelude.Text.{Text, codes, text_eq}
use akiro.Orchestrator.Job.{JobRequest}
use akiro.Queue.Reclaim.{
  Value, bulk_string, array, Values, end, item, elements, accept, accept_all, accept_keys,
  accept_reply, read_message, payload, extract_job_field, job_of, parsed,
}

-- An entry with the one field that the gateway adds, as redis returns it.
abbrev pub entry_of : List ℕ → List ℕ × List ℕ → Value
entry_of job (id, json) = array (
    item (bulk_string id) (item (array (item (bulk_string job) (item (bulk_string json) end))) end))

abbrev pub entries_of : List ℕ → List (List ℕ × List ℕ) → Values
entries_of job [] = end
entries_of job (entry ∷ entries) = item (entry_of job entry) (entries_of job entries)

-- The reply of XREADGROUP for one stream with these entries.
abbrev pub reply_of : List ℕ → List ℕ → List (List ℕ × List ℕ) → Value
reply_of stream job entries =
    array (item (array (item (bulk_string stream) (item (array (entries_of job entries)) end))) end)

module _ (from_utf8_lossy : List ℕ → Text) (from_str : Text → Option JobRequest) where
  -- The ids and jobs of the entries whose JSON is a job's, in their order.
  abbrev pub jobs_in : List (List ℕ × List ℕ) → List (Text × JobRequest)
  jobs_in [] = []
  jobs_in ((id, json) ∷ entries) =
      accept from_utf8_lossy from_str (from_utf8_lossy id) (from_str (from_utf8_lossy json))
        (jobs_in entries)

  module _ (job : List ℕ) (is_job : from_utf8_lossy job ≡ codes "job") where
    payload_lem :
        (json : List ℕ)
        → payload from_utf8_lossy from_str
            (array (item (bulk_string job) (item (bulk_string json) end)))
          ≡ from_str (from_utf8_lossy json)
    unfolding payload extract_job_field job_of
    payload_lem json =
        ap
          (λ t.
            parsed from_utf8_lossy from_str
              (if text_eq t (codes "job") then some (from_utf8_lossy json) else none))
          is_job

    accept_all-jobs :
        (entries : List (List ℕ × List ℕ))
        → accept_all from_utf8_lossy from_str (elements (entries_of job entries)) ≡ jobs_in entries
    unfolding accept_all read_message
    accept_all-jobs [] = refl
    accept_all-jobs ((id, json) ∷ entries) =
        let started = accept from_utf8_lossy from_str (from_utf8_lossy id) in
        ap
          (λ o. started o (accept_all from_utf8_lossy from_str (elements (entries_of job entries))))
          (payload_lem json)
        ∙ ap (started (from_str (from_utf8_lossy json))) (accept_all-jobs entries)

    -- The jobs of a reply are started in the order of the stream, each with the id of its entry, and
    -- only those whose JSON is no job's are passed over, if the bytes of the field decode to `job`.
    pub accept_reply-jobs :
        (stream : List ℕ) (entries : List (List ℕ × List ℕ))
        → accept_reply from_utf8_lossy from_str (reply_of stream job entries) ≡ jobs_in entries
    unfolding accept_reply accept_keys
    accept_reply-jobs stream entries = append-nil _ ∙ accept_all-jobs entries
