-- ===== src/Service/Jobs/Draining.antt =====
-- Where the worker's steps end: the pool is empty and every job has a final status.
use domain_determine.Base.{
  ℕ, suc, ◌+◌, ◌≤◌, ◌<◌, String, ◌≡◌, ◌⊎◌, inl, inr, refl, ap, true, some, [], ◌∷◌, arith, nat_eq,
  string_eq, contains, zero, List, absurd_bool, eq_iff, sym, ◌∙◌,
}
use domain_determine.Base.Dict
use domain_determine.Base.Dict.{
  Dict, get-put, get-put_self, get-put_ne, get-remove, size-put, size-put_new, size-put_old,
  put_new, values-append,
}
use domain_determine.Governance.Sink.{EventSink}
use domain_determine.Service.Repos.{JobStatus, queued, running, succeeded, failed, JobRecord}
use domain_determine.Service.Jobs.{JobManager, runner_of}
use domain_determine.Service.Jobs.Lists.{contains_of_occurrences}
use domain_determine.Service.Jobs.Soundness.{
  is_queued, is_running, Fits, queued_count, running_count,
}
use domain_determine.Service.Jobs.Steps.{IsSafe}
use domain_determine.Service.Jobs.Termination.{
  potential, Work, rest, take, give, Work-IsSafe, Work-le-potential, begin_job-less,
  finish_job-less,
}

-- The job has a final status, and failed only after its last retry.
abbrev pub IsFinal : ℕ → JobRecord → Type 0
IsFinal max_retries job =
    (job.status ≡ succeeded) ⊎ ((job.status ≡ failed) × (job.retries ≡ max_retries + 1))

IsFinal-or_held :
    (max_retries : ℕ) (job : JobRecord) (status : JobStatus)
    → job.status ≡ status
    → Fits max_retries status job.retries
    → IsFinal max_retries job ⊎ ((0 < is_queued status) ⊎ (0 < is_running status))
IsFinal-or_held max_retries job succeeded e f = inl (inl e)
IsFinal-or_held max_retries job failed e f = inl (inr (e, f))
IsFinal-or_held max_retries job queued e f = inr (inl (omega arith))
IsFinal-or_held max_retries job running e f = inr (inr (omega arith))

empty_or_held : (ks : List String) → (ks ≡ []) ⊎ ((k : String) × (contains ks k ≡ true))
unfolding contains
empty_or_held [] = inl refl
empty_or_held (k ∷ ks) = inr (k, ground (arith, eq_iff k k))

module _ (sink : EventSink) where
  -- Each job of a safe manager is final, or the pool or a worker holds it.
  IsFinal-or_enabled :
      (m : JobManager sink) (k : String) (job : JobRecord)
      → IsSafe sink m
      → Dict.get m.registry.jobs k ≡ some job
      → IsFinal m.max_retries job
        ⊎ ((contains (runner_of sink m).submitted k ≡ true)
            ⊎ (contains (runner_of sink m).taken k ≡ true))
  IsFinal-or_enabled m k job s present =
      elim (IsFinal-or_held m.max_retries job job.status refl (s.bounded k job present)) [
        | inl final ↦ inl final
        | inr (inl pooled) ↦ inr (
            inl (contains_of_occurrences _ k (omega (arith, s.waiting k, ap queued_count present))))
        | inr (inr held) ↦ inr (
            inr
              (contains_of_occurrences _ k (omega (arith, s.working k, ap running_count present))))
      ]

  -- Neither the pool nor a worker holds a job, and every job is final.
  abbrev pub IsDrained : JobManager sink → Type 0
  IsDrained m =
      ((runner_of sink m).submitted ≡ [])
      × ((runner_of sink m).taken ≡ [])
      × ((k : String) (job : JobRecord)
          → Dict.get m.registry.jobs k ≡ some job
          → IsFinal m.max_retries job)

  empty-IsDrained :
      (m : JobManager sink)
      → IsSafe sink m
      → (runner_of sink m).submitted ≡ []
      → (runner_of sink m).taken ≡ []
      → IsDrained m
  unfolding contains
  empty-IsDrained m s none_waits none_works = (
    none_waits,
    none_works,
    λ k job present. elim (IsFinal-or_enabled m k job s present) [
      | inl final ↦ final
      | inr (inl c) ↦ absurd_bool (sym c ∙ ap (λ ks. contains ks k) none_waits)
      | inr (inr c) ↦ absurd_bool (sym c ∙ ap (λ ks. contains ks k) none_works)
    ],
  )

  -- The run so far, continued with fuel for the steps that are left
  drain :
      (fuel : ℕ) {m m' : JobManager sink} {n : ℕ}
      → Work sink m m' n
      → IsSafe sink m
      → potential sink m' ≤ fuel
      → (m'' : JobManager sink) × (k : ℕ) × Work sink m m'' k × IsDrained m''
  drain zero {m' = m'} w s enough = elim (empty_or_held (runner_of sink m').submitted) [
    | inr (id, c) ↦ absurd (omega (arith, begin_job-less sink id 0 m' c (Work-IsSafe sink w s)))
    | inl none_waits ↦ elim (empty_or_held (runner_of sink m').taken) [
      | inr (id, c) ↦ absurd (omega (arith, finish_job-less sink id 0 m' c (Work-IsSafe sink w s)))
      | inl none_works ↦ (m', _, w, empty-IsDrained m' (Work-IsSafe sink w s) none_waits none_works)
    ]
  ]
  drain (suc fuel) {m' = m'} w s enough = elim (empty_or_held (runner_of sink m').submitted) [
    | inr (id, c) ↦
        drain fuel (take id 0 w c) s
          (omega (arith, begin_job-less sink id 0 m' c (Work-IsSafe sink w s)))
    | inl none_waits ↦ elim (empty_or_held (runner_of sink m').taken) [
      | inr (id, c) ↦
          drain fuel (give id 0 w c) s
            (omega (arith, finish_job-less sink id 0 m' c (Work-IsSafe sink w s)))
      | inl none_works ↦ (m', _, w, empty-IsDrained m' (Work-IsSafe sink w s) none_waits none_works)
    ]
  ]

  -- Every run of the workers from a safe manager can be continued by finitely many of their steps, the
  -- steps of both together at most the potential sink of the manager at the start, until neither the pool
  -- nor a worker holds a job; then every job of the store has succeeded, or has failed after its last
  -- retry.
  pub Work-drains :
      {m m' : JobManager sink} {n : ℕ}
      → Work sink m m' n
      → IsSafe sink m
      → (m'' : JobManager sink) × (k : ℕ) × Work sink m' m'' k
        × (n + k ≤ potential sink m)
        × IsDrained m''
  Work-drains {m' = m'} w s =
      let (m'', k, rest_of, drained) =
        drain (potential sink m') rest (Work-IsSafe sink w s) (omega arith) in
      (
        m'',
        k,
        rest_of,
        omega (
          arith,
          Work-le-potential sink w s,
          Work-le-potential sink rest_of (Work-IsSafe sink w s),
        ),
        drained,
      )
