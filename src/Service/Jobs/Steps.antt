-- ===== src/Service/Jobs/Steps.antt =====
-- Every interleaving of requests and workers keeps the job manager's invariant.
use domain_determine.Base.{
  ℕ, ◌+◌, String, ◌≡◌, inl, inr, refl, ap, ◌∙◌, true, Option, none, some, arith, nat_eq, string_eq,
  leb, Bool-cases, contains,
}
use domain_determine.Base.Dict
use domain_determine.Base.Dict.{
  Dict, get-put, get-put_self, get-put_ne, get-remove, size-put, size-put_new, size-put_old,
  put_new, values-append,
}
use domain_determine.Governance.Sink.{EventSink}
use domain_determine.Service.Repos.{
  JobStatus, queued, running, succeeded, failed, JobRequest, JobRecord, InMemoryRegistry,
  empty_registry, Outcome, update_job_status, with_status, updated_job,
}
use domain_determine.Service.Repos.Counting.{empty-IsCounted}
use domain_determine.Service.Jobs.{
  JobManager, runner_of, accept, prepared, enqueue, admit, begin_job, finish_job, record_failure,
  report, run_handler, handler_of, HandlerResult, returned, raised, set_runner, resubmit,
  update_status, check_quota, register_handler, Handler, Result, ok, err,
}
use domain_determine.Service.Jobs.Lists.{occurrences}
use domain_determine.Service.Jobs.Soundness.{
  IsSound, enqueue_job-IsSound, began, succeeded_lem, retried_lem, failed_lem, released,
  submitted_job, taken_job,
}

module _ (sink : EventSink) where
  abbrev pub IsSafe : JobManager sink → Type 0
  IsSafe m = IsSound m.max_retries (runner_of sink m) m.registry

  module _ (id : String) (status : JobStatus) (log_pointer : Option String) (retries : Option ℕ)
      (now : ℕ) (m : JobManager sink) where
    pub registry-update_status :
        (update_status sink id status log_pointer retries now m).1.registry
        ≡ (update_job_status id status log_pointer retries now m.registry).1
    unfolding update_status
    registry-update_status = ground arith

    pub runner-update_status :
        (update_status sink id status log_pointer retries now m).1.runner ≡ m.runner
    unfolding update_status
    runner-update_status = ground arith

    pub max_retries-update_status :
        (update_status sink id status log_pointer retries now m).1.max_retries ≡ m.max_retries
    unfolding update_status
    max_retries-update_status = ground arith

  module _ (id : String) (status : JobStatus) (log_pointer : Option String) (retries : Option ℕ)
      (now : ℕ) (r : InMemoryRegistry) (job : JobRecord)
      (present : Dict.get r.jobs id ≡ some job) where
    pub update_job_status_present :
        update_job_status id status log_pointer retries now r
        ≡ (Outcome.ok tt, with_status id status log_pointer retries now job r)
    unfolding update_job_status
    update_job_status_present = ground arith

    get-with_status :
        Dict.get (with_status id status log_pointer retries now job r).jobs id
        ≡ some (updated_job status log_pointer retries now job)
    unfolding with_status
    get-with_status = get-put_self r.jobs id _

  module _ (id : String) (status : JobStatus) (log_pointer : Option String) (retries : Option ℕ)
      (now : ℕ) (m : JobManager sink) (job : JobRecord)
      (present : Dict.get m.registry.jobs id ≡ some job) where
    pub registry_present :
        (update_status sink id status log_pointer retries now m).1.registry
        ≡ with_status id status log_pointer retries now job m.registry
    registry_present =
        registry-update_status id status log_pointer retries now m
        ∙ ap (λ (p : Outcome (Unit {0}) × InMemoryRegistry). p.1)
            (update_job_status_present id status log_pointer retries now m.registry job present)

    pub update_status_ok :
        (update_status sink id status log_pointer retries now m).0 ≡ Outcome.ok tt
    unfolding update_status
    update_status_ok =
        let e =
          update_job_status_present id status log_pointer retries now m.registry job present in
        let g = get-with_status id status log_pointer retries now m.registry job present in
        ground (arith, e, g)

  prepared-IsSafe : (m : JobManager sink) → IsSafe m → IsSafe (prepared sink m)
  unfolding prepared
  prepared-IsSafe m s = s

  accept-IsSafe :
      (request : JobRequest) (now : ℕ) (m : JobManager sink)
      → IsSafe m
      → IsSafe (accept sink request now m).1
  unfolding accept
  accept-IsSafe request now m s =
      enqueue_job-IsSound m.max_retries (runner_of sink m) m.registry s request now

  admit-IsSafe :
      (verdict : Result (Unit {0})) (request : JobRequest) (now : ℕ) (m : JobManager sink)
      → IsSafe m
      → IsSafe (admit sink verdict request now m).1
  admit-IsSafe (ok _) request now m s = accept-IsSafe request now m s
  admit-IsSafe (err e) request now m s = s

  pub enqueue-IsSafe :
      (request : JobRequest) (now : ℕ) (m : JobManager sink)
      → IsSafe m
      → IsSafe (enqueue sink request now m).1
  unfolding enqueue
  enqueue-IsSafe request now m s =
      admit-IsSafe (check_quota _ _ _ _ _) request now (prepared sink m) (prepared-IsSafe m s)

  pub begin_job-IsSafe :
      (id : String) (now : ℕ) (m : JobManager sink)
      → contains (runner_of sink m).submitted id ≡ true
      → IsSafe m
      → IsSafe (begin_job sink id now m)
  unfolding begin_job
  begin_job-IsSafe id now m c s =
      let (job, present) = submitted_job m.max_retries (runner_of sink m) m.registry s id c in
      rw
        (
          update_status_ok id running none none now m job present,
          registry_present id running none none now m job present,
          max_retries-update_status,
        )
        (began m.max_retries (runner_of sink m) m.registry s id job present now _ c)

  module _ (id : String) (now : ℕ) (m : JobManager sink)
      (c : contains (runner_of sink m).taken id ≡ true) (s : IsSafe m) (job : JobRecord)
      (present : Dict.get m.registry.jobs id ≡ some job) where
    abbrev freed : JobManager sink
    freed =
        set_runner sink
          (released m.max_retries (runner_of sink m) m.registry s id job present now c) m

    record_failure-IsSafe : (error : String) → IsSafe (record_failure sink id error job now freed)
    unfolding record_failure resubmit
    record_failure-IsSafe error = elim (Bool-cases (leb (job.retries + 1) m.max_retries)) [
      | inl left ↦
          rw
            (
              left,
              update_job_status_present id queued (some error) (some (job.retries + 1)) now
                  m.registry job present,
            )
            (retried_lem m.max_retries (runner_of sink m) m.registry s id job present now c error
              (ground arith))
      | inr spent ↦
          rw
            (
              spent,
              registry_present id failed (some error) (some (job.retries + 1)) now freed job
                  present,
              max_retries-update_status,
              runner-update_status,
            )
            (failed_lem m.max_retries (runner_of sink m) m.registry s id job present now c error
              (ground arith))
    ]

    report-IsSafe : (h : HandlerResult) → IsSafe (report sink id job h now freed)
    report-IsSafe (returned p) =
        rw
          (
            registry_present id succeeded p none now freed job present,
            max_retries-update_status,
            runner-update_status,
          )
          (succeeded_lem m.max_retries (runner_of sink m) m.registry s id job present now c p)
    report-IsSafe (raised error) = record_failure-IsSafe error

  pub finish_job-IsSafe :
      (id : String) (now : ℕ) (m : JobManager sink)
      → contains (runner_of sink m).taken id ≡ true
      → IsSafe m
      → IsSafe (finish_job sink id now m)
  unfolding finish_job
  finish_job-IsSafe id now m c s =
      let (job, present) = taken_job m.max_retries (runner_of sink m) m.registry s id c in
      rw present (
        report-IsSafe id now m c s job present
          (run_handler (handler_of (runner_of sink m) id) job now))

  register_handler-IsSafe :
      (t : String) (h : Handler) (m : JobManager sink)
      → IsSafe m
      → IsSafe (register_handler sink t h m)
  unfolding register_handler
  register_handler-IsSafe t h m s = record {
    counted = s.counted;
    waiting = s.waiting;
    working = s.working;
    bounded = s.bounded;
  }

  -- One change of the shared state: a request, a registration, or a worker's step.
  pub data Step (m : JobManager sink) : JobManager sink → Type 0 where
    enqueues : (request : JobRequest) (now : ℕ) → Step m (enqueue sink request now m).1
    registers : (t : String) (h : Handler) → Step m (register_handler sink t h m)
    begins :
        (id : String) (now : ℕ)
        → contains (runner_of sink m).submitted id ≡ true
        → Step m (begin_job sink id now m)
    finishes :
        (id : String) (now : ℕ)
        → contains (runner_of sink m).taken id ≡ true
        → Step m (finish_job sink id now m)

  pub data Reach (m : JobManager sink) : JobManager sink → Type 0 where
    here : Reach m m
    next : {m' m'' : JobManager sink} → Reach m m' → Step m' m'' → Reach m m''

  Step-IsSafe : {m m' : JobManager sink} → Step m m' → IsSafe m → IsSafe m'
  Step-IsSafe {m} (enqueues request now) s = enqueue-IsSafe request now m s
  Step-IsSafe {m} (registers t h) s = register_handler-IsSafe t h m s
  Step-IsSafe {m} (begins id now c) s = begin_job-IsSafe id now m c s
  Step-IsSafe {m} (finishes id now c) s = finish_job-IsSafe id now m c s

  -- From a safe manager every interleaving of requests, registrations and workers' steps leads to safe
  -- managers: the counters are right, each queued job is in the pool exactly once, each running job has
  -- exactly one worker, a job has failed only after all of its retries, and no other job is past them.
  pub Reach-IsSafe : {m m' : JobManager sink} → IsSafe m → Reach m m' → IsSafe m'
  Reach-IsSafe s here = s
  Reach-IsSafe s (next run step) = Step-IsSafe step (Reach-IsSafe s run)

  -- A manager over an empty registry.
  abbrev pub fresh : ℕ → Option (sink.Log) → JobManager sink
  fresh max_retries log = record {
    registry = empty_registry;
    quota_window = none;
    max_retries = max_retries;
    runner = none;
    event_log = log;
  }

  pub fresh-IsSafe : (max_retries : ℕ) (log : Option (sink.Log)) → IsSafe (fresh max_retries log)
  unfolding occurrences Dict.get
  fresh-IsSafe max_retries log = record {
    counted = empty-IsCounted;
    waiting = λ k. refl;
    working = λ k. refl;
    bounded = λ k job h. cc;
  }
