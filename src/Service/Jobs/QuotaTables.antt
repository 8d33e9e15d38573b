-- ===== src/Service/Jobs/QuotaTables.antt =====
-- What the workers leave as it is: the tables of the limits and of the use of quotas.
use domain_determine.Base.{
  ℕ, ◌+◌, String, ◌≡◌, inl, inr, refl, Option, none, some, arith, nat_eq, string_eq, leb,
  Bool-cases,
}
use domain_determine.Governance.Sink.{EventSink}
use domain_determine.Service.Repos.{
  JobStatus, queued, succeeded, failed, JobRecord, InMemoryRegistry, update_job_status, with_status,
}
use domain_determine.Service.Jobs.{
  JobManager, Handler, record_failure, report, run_handler, HandlerResult, returned, raised,
  resubmit, settle, update_status,
}
use domain_determine.Service.Jobs.Steps.{registry-update_status}

-- The tables of the quotas are those of the other registry.
abbrev pub SameQuotas : InMemoryRegistry → InMemoryRegistry → Type 0
SameQuotas r r' = (r'.quota_limits ≡ r.quota_limits) × (r'.quota_usage ≡ r.quota_usage)

module _ (sink : EventSink) where
  update_job_status-SameQuotas :
      (id : String) (status : JobStatus) (p : Option String) (n : Option ℕ) (now : ℕ)
      (r : InMemoryRegistry)
      → SameQuotas r (update_job_status id status p n now r).1
  unfolding update_job_status with_status
  update_job_status-SameQuotas id status p n now r = (ground arith, ground arith)

  pub update_status-SameQuotas :
      (id : String) (status : JobStatus) (p : Option String) (n : Option ℕ) (now : ℕ)
      (m : JobManager sink)
      → SameQuotas m.registry (update_status sink id status p n now m).1.registry
  update_status-SameQuotas id status p n now m =
      rw registry-update_status (update_job_status-SameQuotas id status p n now m.registry)

  report-SameQuotas :
      (id : String) (job : JobRecord) (h : HandlerResult) (now : ℕ) (m : JobManager sink)
      → SameQuotas m.registry (report sink id job h now m).registry
  unfolding record_failure resubmit
  report-SameQuotas id job (returned p) now m = update_status-SameQuotas id succeeded p none now m
  report-SameQuotas id job (raised error) now m =
      elim (Bool-cases (leb (job.retries + 1) m.max_retries)) [
        | inl left ↦ rw left (
            update_job_status-SameQuotas id queued (some error) (some (job.retries + 1)) now
              m.registry)
        | inr spent ↦
            rw spent
              (update_status-SameQuotas id failed (some error) (some (job.retries + 1)) now m)
      ]

  pub settle-SameQuotas :
      (id : String) (o : Option JobRecord) (handler : Option Handler) (now : ℕ)
      (m : JobManager sink)
      → SameQuotas m.registry (settle sink id o handler now m).registry
  settle-SameQuotas id none handler now m = (refl, refl)
  settle-SameQuotas id (some job) handler now m =
      report-SameQuotas id job (run_handler handler job now) now m
