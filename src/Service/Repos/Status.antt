-- ===== src/Service/Repos/Status.antt =====
-- InMemoryRegistry.update_job_status of service/repos.py: what a change of status does to the store.
use domain_determine.Base.{
  ℕ, String, ◌≡◌, ◌⊎◌, inl, inr, refl, ap, ◌∙◌, Option, none, some, [], ◌∷◌, ◌==◌, nat_eq,
  string_eq, if◌then◌else◌, get_or, Bool-cases, eq_iff, is_some, List, ◌++◌,
}
use domain_determine.Base.Dict
use domain_determine.Base.Dict.{
  Dict, get-put, get-put_self, get-put_ne, get-remove, size-put, size-put_new, size-put_old,
  put_new, values-append,
}
use mathlib.Core.List.{append_assoc}
use domain_determine.Service.Repos.{
  JobStatus, JobRecord, InMemoryRegistry, ok, err, key_error, updated_job, with_status,
  update_job_status, get_job, found, LogLine, pointer_line, status_line, stream_logs, append_log,
  log_pointer_line,
}
use domain_determine.Service.Repos.Counting.{update_job_status_cases}

updated_job_fields :
    (status : JobStatus) (log_pointer : Option String) (retries : Option ℕ) (now : ℕ)
    (job : JobRecord)
    → updated_job status log_pointer retries now job ≡ record job {
      status = status;
      updated_at = now;
      log_pointer = if is_some log_pointer then log_pointer else job.log_pointer;
      retries = get_or retries job.retries;
    }
unfolding updated_job
updated_job_fields status none retries now job = refl
updated_job_fields status (some p) retries now job = refl

-- The line of a log pointer that is given
abbrev pub pointer_lines : Option String → List LogLine
pointer_lines none = []
pointer_lines (some p) = pointer_line p ∷ []

append_cases :
    (d : Dict (List LogLine)) (k j : String) (line : LogLine)
    → (k ≡ j) ⊎ (get_or (Dict.get (append_log k line d) j) [] ≡ get_or (Dict.get d j) [])
unfolding append_log
append_cases d k j line = elim (Bool-cases (k == j)) [
  | inl same ↦ inl ((eq_iff k j).0 same)
  | inr other ↦ inr (rw (get-put, other) refl)
]

append_self :
    (d : Dict (List LogLine)) (k : String) (line : LogLine)
    → get_or (Dict.get (append_log k line d) k) [] ≡ get_or (Dict.get d k) [] ++ line ∷ []
unfolding append_log
append_self d k line = ap (λ o. get_or o []) (get-put_self d k _)

module _ (job_id : String) (line : LogLine) (d : Dict (List LogLine)) where
  job_log_after :
      (log_pointer : Option String)
      → get_or (Dict.get (append_log job_id line (log_pointer_line job_id log_pointer d)) job_id) []
        ≡ get_or (Dict.get d job_id) [] ++ (pointer_lines log_pointer ++ line ∷ [])
  unfolding log_pointer_line
  job_log_after none = append_self d job_id line
  job_log_after (some p) =
      append_self (append_log job_id (pointer_line p) d) job_id line
      ∙ ap (λ lines. lines ++ line ∷ []) (append_self d job_id (pointer_line p))
      ∙ append_assoc (get_or (Dict.get d job_id) []) (pointer_line p ∷ []) (line ∷ [])

  keeps_logs :
      (log_pointer : Option String) (k : String)
      → (job_id ≡ k)
        ⊎ (get_or (Dict.get (append_log job_id line (log_pointer_line job_id log_pointer d)) k) []
            ≡ get_or (Dict.get d k) [])
  unfolding log_pointer_line
  keeps_logs none k = append_cases d job_id k line
  keeps_logs (some p) k = elim (append_cases (append_log job_id (pointer_line p) d) job_id k line) [
    | inl same ↦ inl same
    | inr last ↦ elim (append_cases d job_id k (pointer_line p)) [
      | inl same ↦ inl same
      | inr first ↦ inr (last ∙ first)
    ]
  ]

get_job-put :
    (job_id k : String) (job : JobRecord) (d : Dict JobRecord)
    → (job_id ≡ k) ⊎ (found k (Dict.get (Dict.put d job_id job) k) ≡ found k (Dict.get d k))
get_job-put job_id k job d = elim (Bool-cases (job_id == k)) [
  | inl same ↦ inl ((eq_iff job_id k).0 same)
  | inr other ↦ inr (rw (get-put, other) refl)
]

module _ (job_id : String) (status : JobStatus) (log_pointer : Option String) (retries : Option ℕ)
    (now : ℕ) (r : InMemoryRegistry) where
  -- A change of status of a stored job returns, and changes that job only: it has the status and the
  -- time of the change, the log pointer and the number of retries where they are given and its old ones
  -- otherwise, and keeps its id, its request and the time it was submitted. Its log gets the log pointer,
  -- if there is one, and a line with the status and the retries; the other jobs, their logs, the counters
  -- of the quotas and the artifacts stay as they were. A missing job raises KeyError and changes nothing.
  pub update_job_status_effect :
      let (result, r') = update_job_status job_id status log_pointer retries now r in
      ((result ≡ err (key_error job_id)) × (get_job job_id r ≡ err (key_error job_id)) × (r' ≡ r))
      ⊎ ((job : JobRecord) × (job' : JobRecord) × (result ≡ ok tt)
          × (get_job job_id r ≡ ok job)
          × (get_job job_id r' ≡ ok job')
          × (job' ≡ record job {
            status = status;
            updated_at = now;
            log_pointer = if is_some log_pointer then log_pointer else job.log_pointer;
            retries = get_or retries job.retries;
          })
          × ((k : String) → (job_id ≡ k) ⊎ (get_job k r' ≡ get_job k r))
          × (stream_logs job_id r'
              ≡ stream_logs job_id r
                ++ (pointer_lines log_pointer ++ status_line status job_id job'.retries ∷ []))
          × ((k : String) → (job_id ≡ k) ⊎ (stream_logs k r' ≡ stream_logs k r))
          × (r' ≡ record r { jobs = r'.jobs; job_logs = r'.job_logs }))
  unfolding get_job with_status stream_logs
  update_job_status_effect =
      elim (update_job_status_cases job_id status log_pointer retries now r) [
        | inl (missing, e) ↦ inl (ap (λ p. p.0) e, ap (found job_id) missing, ap (λ p. p.1) e)
        | inr (job, present, e) ↦
            let job' = updated_job status log_pointer retries now job in
            inr (
              job,
              job',
              ap (λ p. p.0) e,
              ap (found job_id) present,
              rw e (ap (found job_id) (get-put_self r.jobs job_id job')),
              updated_job_fields status log_pointer retries now job,
              (λ k. rw e (get_job-put job_id k job' r.jobs)),
              rw e (
                  job_log_after job_id (status_line status job_id job'.retries) r.job_logs
                    log_pointer),
              (λ k. rw e (
                  keeps_logs job_id (status_line status job_id job'.retries) r.job_logs log_pointer
                    k)),
              rw e refl,
            )
      ]
