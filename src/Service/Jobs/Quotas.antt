-- ===== src/Service/Jobs/Quotas.antt =====
-- Quotas: when a request is accepted, in one step, and what that counts.
use domain_determine.Base.{
  ℕ, ◌+◌, ◌≤◌, ◌<◌, String, ◌≡◌, ◌⊎◌, inl, inr, Option, none, some, arith, nat_eq, string_eq,
  if◌then◌else◌, ltb, get_or, Bool-cases, Option-cases,
}
use domain_determine.Base.Dict
use domain_determine.Base.Dict.{
  Dict, get-put, get-put_self, get-put_ne, get-remove, size-put, size-put_new, size-put_old,
  put_new, values-append,
}
use domain_determine.Governance.Sink.{EventSink}
use domain_determine.Service.Repos.{
  JobRequest, JobRecord, InMemoryRegistry, enqueue_job, quota_usage_of, quota_limits_of,
}
use domain_determine.Service.Repos.Counting.{IsCounted, usage, matches, enqueue_job_lem}
use domain_determine.Service.Jobs.{
  JobManager, quota_exceeded, accept, prepared, enqueue, check_quota, day, ok, err,
}

-- The limit of a tenant for a quota type, if there is one.
unfoldable pub limit_of : InMemoryRegistry → String → String → Option ℕ
unfolding quota_limits_of
limit_of r tenant quota_type = Dict.get (quota_limits_of tenant r) quota_type

abbrev pub Within : Option ℕ → ℕ → Type 0
Within none n = Unit
Within (some limit) n = n ≤ limit

module _ (window : ℕ) (tenant quota_type : String) (r : InMemoryRegistry) where
  abbrev pub Refused : Type 0
  Refused =
      (limit : ℕ) × (limit_of r tenant quota_type ≡ some limit)
      × (limit < usage r tenant quota_type + 1)
      × (check_quota window tenant quota_type 1 r
          ≡ err (quota_exceeded quota_type limit (usage r tenant quota_type) window))

  abbrev pub Allowed : Type 0
  Allowed =
      (check_quota window tenant quota_type 1 r ≡ ok tt)
      × Within (limit_of r tenant quota_type) (usage r tenant quota_type + 1)

  pub check_quota_cases : Allowed ⊎ Refused
  unfolding check_quota limit_of usage quota_usage_of
  check_quota_cases = elim (Option-cases (Dict.get (quota_limits_of tenant r) quota_type)) [
    | inl unlimited ↦ inl (ground arith, rw unlimited tt)
    | inr (limit, e) ↦
        let used : ℕ = get_or (Dict.get (quota_usage_of tenant r) quota_type) 0 in
        elim (Bool-cases (ltb limit (used + 1))) [
          | inl over ↦ inr (limit, e, ground arith, ground arith)
          | inr fits ↦ inl (ground arith, rw e (ground arith))
        ]
  ]

module _ (sink : EventSink) where
  -- Over a well counted registry a request is accepted or refused. It is accepted only if the tenant's limit for the type, where
  -- there is one, leaves room for one more; then the job has a new id, the counter of its tenant and
  -- type goes up by one, and no other counter changes. It is refused only if the limit is reached; the
  -- error names the limit and the use, and the registry and the event log stay as they were.
  pub enqueue_effect :
      (request : JobRequest) (now : ℕ) (m : JobManager sink)
      → IsCounted m.registry
      → let (result, m') = enqueue sink request now m in
        let used = usage m.registry request.tenant request.job_type in
        ((job : JobRecord) × (result ≡ ok job)
          × Within (limit_of m.registry request.tenant request.job_type) (used + 1)
          × (Dict.get m.registry.jobs job.job_id ≡ none)
          × ((t q : String)
              → usage m'.registry t q
                ≡ usage m.registry t q + (if matches t q request then 1 else 0)))
        ⊎ ((limit : ℕ) × (limit_of m.registry request.tenant request.job_type ≡ some limit)
            × (limit < used + 1)
            × (result
                ≡ err (quota_exceeded request.job_type limit used (get_or m.quota_window day)))
            × (m'.registry ≡ m.registry)
            × (m'.event_log ≡ m.event_log))
  unfolding enqueue prepared accept
  enqueue_effect request now m w =
      elim (check_quota_cases (get_or m.quota_window day) request.tenant request.job_type
        m.registry) [
          | inl (passes, fits) ↦
              let (counted, free, found, kept, counts) = enqueue_job_lem request now m.registry w in
              inl ((enqueue_job request now m.registry).0, rw passes, fits, free, rw passes counts)
          | inr (limit, e, over, raises) ↦ inr (limit, e, over, rw raises, rw raises, rw raises)
        ]
