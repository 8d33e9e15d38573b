-- ===== src/Service/Jobs/Termination.antt =====
-- The pool runs dry: each worker's step uses up some of a number that the retries bound.
use domain_determine.Base.{
  ℕ, suc, ◌+◌, ◌-◌, ◌*◌, ◌≤◌, ◌<◌, String, ◌≡◌, inl, inr, true, Option, none, some, [], ◌∷◌, arith,
  nat_eq, string_eq, leb, get_or, Bool-cases, contains,
}
use domain_determine.Base.Dict
use domain_determine.Base.Dict.{
  Dict, get-put, get-put_self, get-put_ne, get-remove, size-put, size-put_new, size-put_old,
  put_new, values-append,
}
use domain_determine.Governance.Sink.{EventSink}
use domain_determine.Service.Repos.{
  JobStatus, queued, running, succeeded, failed, JobRecord, InMemoryRegistry, with_status,
  updated_job,
}
use domain_determine.Service.Jobs.{
  JobManager, Runner, runner_of, begin_job, finish_job, record_failure, report, run_handler,
  handler_of, take_out, HandlerResult, returned, raised, set_runner, resubmit,
}
use domain_determine.Service.Jobs.Lists.{occurrences_pos}
use domain_determine.Service.Jobs.Soundness.{
  is_queued, is_running, Fits-open, in_pool_count, submitted_job, taken_job, once, retries_left,
}
use domain_determine.Service.Jobs.Steps.{
  IsSafe, registry_present, update_job_status_present, max_retries-update_status, begin_job-IsSafe,
  finish_job-IsSafe,
}

-- The worker's steps that a job can still take: two for each attempt that is left.
abbrev pub left_of : ℕ → JobStatus → ℕ → ℕ
left_of max_retries queued retries = 2 * (max_retries + 1 - retries)
left_of max_retries running retries = 2 * (max_retries + 1 - retries) - 1
left_of max_retries _ retries = 0

abbrev pub steps_left : ℕ → JobRecord → ℕ
steps_left max_retries job = left_of max_retries job.status job.retries

unfoldable pub total : (JobRecord → ℕ) → Dict JobRecord → ℕ
total cost [] = 0
total cost ((k, job) ∷ d) = cost job + total cost d

total-put :
    (cost : JobRecord → ℕ) (d : Dict JobRecord) (k : String) (old job : JobRecord)
    → Dict.get d k ≡ some old
    → total cost (Dict.put d k job) + cost old ≡ total cost d + cost job
unfolding total Dict.get Dict.put
total-put cost [] k old job h = cc
total-put cost ((j, other) ∷ d) k old job h = ground (arith, total-put cost d k old job)

begin_left :
    (max_retries retries : ℕ) (status : JobStatus)
    → 0 < is_queued status
    → retries ≤ max_retries
    → left_of max_retries running retries + 1 ≡ left_of max_retries status retries
begin_left max_retries retries queued h b = omega arith
begin_left max_retries retries running h b = absurd (omega arith)
begin_left max_retries retries _ h b = absurd (omega arith)

end_left :
    (max_retries retries : ℕ) (status : JobStatus)
    → 0 < is_running status
    → retries ≤ max_retries
    → 0 < left_of max_retries status retries
end_left max_retries retries running h b = omega arith
end_left max_retries retries queued h b = absurd (omega arith)
end_left max_retries retries _ h b = absurd (omega arith)

retry_left :
    (max_retries retries : ℕ) (status : JobStatus)
    → 0 < is_running status
    → retries ≤ max_retries
    → left_of max_retries queued (retries + 1) < left_of max_retries status retries
retry_left max_retries retries running h b = omega arith
retry_left max_retries retries queued h b = absurd (omega arith)
retry_left max_retries retries _ h b = absurd (omega arith)

module _ (id : String) (status : JobStatus) (log_pointer : Option String) (retries : Option ℕ)
    (now : ℕ) (r : InMemoryRegistry) (job : JobRecord) (present : Dict.get r.jobs id ≡ some job)
    (max_retries : ℕ) where
  -- A change of status that leaves a job fewer steps leaves the store fewer steps.
  total-with_status :
      left_of max_retries status (get_or retries job.retries) < steps_left max_retries job
      → total (steps_left max_retries) (with_status id status log_pointer retries now job r).jobs
        < total (steps_left max_retries) r.jobs
  unfolding with_status updated_job
  total-with_status less = omega (
    arith,
    total-put (steps_left max_retries) r.jobs id job
        (updated_job status log_pointer retries now job) present,
  )

module _ (sink : EventSink) where
  -- The number of workers' steps that can still be made.
  abbrev pub potential : JobManager sink → ℕ
  potential m = total (steps_left m.max_retries) m.registry.jobs

  pub begin_job-less :
      (id : String) (now : ℕ) (m : JobManager sink)
      → contains (runner_of sink m).submitted id ≡ true
      → IsSafe sink m
      → potential (begin_job sink id now m) < potential m
  unfolding begin_job
  begin_job-less id now m c s =
      let r = runner_of sink m in
      let (job, present) = submitted_job m.max_retries r m.registry s id c in
      let pooled : 0 < is_queued job.status = omega (
        arith,
        in_pool_count m.max_retries r m.registry s id job present now,
        occurrences_pos r.submitted id c,
      ) in
      let fits : job.retries ≤ m.max_retries =
        Fits-open m.max_retries job.retries job.status (s.bounded id job present) (omega arith) in
      rw (registry_present sink id running none none now m job present, max_retries-update_status)
        (total-with_status id running none none now m.registry job present m.max_retries
          (omega (arith, begin_left m.max_retries job.retries job.status pooled fits)))

  module _ (id : String) (now : ℕ) (m : JobManager sink)
      (c : contains (runner_of sink m).taken id ≡ true) (s : IsSafe sink m) (job : JobRecord)
      (present : Dict.get m.registry.jobs id ≡ some job) (runner : Runner) where
    fits : job.retries ≤ m.max_retries
    fits = retries_left m.max_retries (runner_of sink m) m.registry s id job present now c

    held : 0 < is_running job.status
    held = omega (arith, once m.max_retries (runner_of sink m) m.registry s id job present now c)

    report-less :
        (h : HandlerResult)
        → potential (report sink id job h now (set_runner sink runner m)) < potential m
    unfolding record_failure resubmit
    report-less (returned p) =
        rw
          (
            registry_present sink id succeeded p none now (set_runner sink runner m) job present,
            max_retries-update_status,
          )
          (total-with_status id succeeded p none now m.registry job present m.max_retries
            (end_left m.max_retries job.retries job.status held fits))
    report-less (raised error) = elim (Bool-cases (leb (job.retries + 1) m.max_retries)) [
      | inl left ↦
          rw
            (
              left,
              update_job_status_present sink id queued (some error) (some (job.retries + 1)) now
                  m.registry job present,
            )
            (total-with_status id queued (some error) (some (job.retries + 1)) now m.registry job
              present m.max_retries (retry_left m.max_retries job.retries job.status held fits))
      | inr spent ↦
          rw
            (
              spent,
              registry_present sink id failed (some error) (some (job.retries + 1)) now
                  (set_runner sink runner m) job present,
              max_retries-update_status,
            )
            (total-with_status id failed (some error) (some (job.retries + 1)) now m.registry job
              present m.max_retries (end_left m.max_retries job.retries job.status held fits))
    ]

  pub finish_job-less :
      (id : String) (now : ℕ) (m : JobManager sink)
      → contains (runner_of sink m).taken id ≡ true
      → IsSafe sink m
      → potential (finish_job sink id now m) < potential m
  unfolding finish_job
  finish_job-less id now m c s =
      let (job, present) = taken_job m.max_retries (runner_of sink m) m.registry s id c in
      rw present (
        report-less id now m c s job present
          (record (runner_of sink m) { taken = take_out id (runner_of sink m).taken })
          (run_handler (handler_of (runner_of sink m) id) job now))

  -- A run of the workers alone, with the number of its steps.
  pub data Work (m : JobManager sink) : JobManager sink → ℕ → Type 0 where
    rest : Work m m 0
    take :
        {m' : JobManager sink} {n : ℕ} (id : String) (now : ℕ)
        → Work m m' n
        → contains (runner_of sink m').submitted id ≡ true
        → Work m (begin_job sink id now m') (suc n)
    give :
        {m' : JobManager sink} {n : ℕ} (id : String) (now : ℕ)
        → Work m m' n
        → contains (runner_of sink m').taken id ≡ true
        → Work m (finish_job sink id now m') (suc n)

  pub Work-IsSafe : {m m' : JobManager sink} {n : ℕ} → Work m m' n → IsSafe sink m → IsSafe sink m'
  Work-IsSafe rest s = s
  Work-IsSafe (take {m' = m'} id now w c) s = begin_job-IsSafe sink id now m' c (Work-IsSafe w s)
  Work-IsSafe (give {m' = m'} id now w c) s = finish_job-IsSafe sink id now m' c (Work-IsSafe w s)

  -- From a safe manager, however the workers are scheduled and whatever the handlers do, a run of the
  -- workers has at most as many steps as the potential of the manager that it starts from.
  pub Work-le-potential :
      {m m' : JobManager sink} {n : ℕ}
      → Work m m' n
      → IsSafe sink m
      → n + potential m' ≤ potential m
  Work-le-potential rest s = omega arith
  Work-le-potential (take {m' = m'} id now w c) s =
      omega (arith, Work-le-potential w s, begin_job-less id now m' c (Work-IsSafe w s))
  Work-le-potential (give {m' = m'} id now w c) s =
      omega (arith, Work-le-potential w s, finish_job-less id now m' c (Work-IsSafe w s))
