-- ===== src/Service/Jobs/Soundness.antt =====
-- The job manager's invariant: no job is lost or run twice at once, retries are bounded, and a job
-- fails only after its last retry.
use domain_determine.Base.{
  ℕ, ◌+◌, ◌≤◌, ◌<◌, String, ◌≡◌, inl, inr, refl, ap, ◌∙◌, true, Option, none, some, List, [], ◌∷◌,
  ◌++◌, arith, ◌==◌, nat_eq, string_eq, if◌then◌else◌, get_or, Bool-cases, contains, eq_iff,
}
use domain_determine.Base.Dict
use domain_determine.Base.Dict.{
  Dict, get-put, get-put_self, get-put_ne, get-remove, size-put, size-put_new, size-put_old,
  put_new, values-append,
}
use mathlib.Core.Path.{subst}
use domain_determine.Service.Repos.{
  JobStatus, queued, running, succeeded, failed, JobRequest, JobRecord, InMemoryRegistry, new_job,
  job_id_for, enqueue_job, with_status, updated_job,
}
use domain_determine.Service.Repos.Counting.{
  IsCounted, next_id_is_free, enqueue_job_lem, put_cases, with_status-IsCounted,
}
use domain_determine.Service.Jobs.{Handler, Runner, submit, take_out}
use domain_determine.Service.Jobs.Lists.{
  occurrences, occurrences-snoc, occurrences_pos, occurrences-take_out,
}

abbrev pub is_queued : JobStatus → ℕ
is_queued queued = 1
is_queued _ = 0

abbrev pub is_running : JobStatus → ℕ
is_running running = 1
is_running _ = 0

-- 1 for a job of the status, 0 for another job and for none.
abbrev pub queued_count : Option JobRecord → ℕ
queued_count none = 0
queued_count (some job) = is_queued job.status

abbrev pub running_count : Option JobRecord → ℕ
running_count none = 0
running_count (some job) = is_running job.status

abbrev pub Fits : ℕ → JobStatus → ℕ → Type 0
Fits max_retries failed retries = retries ≡ max_retries + 1
Fits max_retries _ retries = retries ≤ max_retries

-- A failed job has used all of its retries, another job not.
abbrev pub RetriesFit : ℕ → JobRecord → Type 0
RetriesFit max_retries job = Fits max_retries job.status job.retries

pub record IsSound (max_retries : ℕ) (runner : Runner) (r : InMemoryRegistry) : Type 0 where
  pub counted : IsCounted r
  -- each queued job is in the pool once, and no other
  pub waiting : (k : String) → occurrences runner.submitted k ≡ queued_count (Dict.get r.jobs k)
  -- each running job has one worker, and no other
  pub working : (k : String) → occurrences runner.taken k ≡ running_count (Dict.get r.jobs k)
  pub bounded :
      (k : String) (job : JobRecord) → Dict.get r.jobs k ≡ some job → RetriesFit max_retries job

-- A list that changes with the job that is put keeps counting the jobs of a status.
count-put :
    (count : Option JobRecord → ℕ) (js js' : List String) (d : Dict JobRecord) (j : String)
    (job : JobRecord)
    → ((k : String) → occurrences js k ≡ count (Dict.get d k))
    → ((k : String)
        → occurrences js' k + (if j == k then count (Dict.get d j) else 0)
          ≡ occurrences js k + (if j == k then count (some job) else 0))
    → (k : String) → occurrences js' k ≡ count (Dict.get (Dict.put d j job) k)
count-put count js js' d j job before change k = elim (Bool-cases (j == k)) [
  | inl same ↦
      let here : j ≡ k = (eq_iff j k).0 same in
      let now : count (Dict.get (Dict.put d j job) k) ≡ count (some job) =
        ap count (rw (get-put, same)) in
      let old : count (Dict.get d j) ≡ count (Dict.get d k) = ap (λ x. count (Dict.get d x)) here in
      let sum : occurrences js' k + count (Dict.get d j) ≡ occurrences js k + count (some job) =
        rw same at (change k) in
      omega (arith, before k)
  | inr other ↦
      let now : count (Dict.get (Dict.put d j job) k) ≡ count (Dict.get d k) =
        ap count (rw (get-put, other)) in
      let sum : occurrences js' k + 0 ≡ occurrences js k + 0 = rw other at (change k) in
      omega (arith, before k)
]

bounded-put :
    (max_retries : ℕ) (d : Dict JobRecord) (j : String) (job : JobRecord)
    → ((k : String) (old : JobRecord) → Dict.get d k ≡ some old → RetriesFit max_retries old)
    → RetriesFit max_retries job
    → (k : String) (x : JobRecord) → Dict.get (Dict.put d j job) k ≡ some x
    → RetriesFit max_retries x
bounded-put max_retries d j job before fits k x h = elim (put_cases d j k job x h) [
  | inl (same, is) ↦ subst (RetriesFit max_retries) is fits
  | inr (other, old) ↦ before k x old
]

module _ (max_retries : ℕ) (runner : Runner) (r : InMemoryRegistry)
    (s : IsSound max_retries runner r) where
  -- An accepted job goes to the pool.
  pub enqueue_job-IsSound :
      (request : JobRequest) (now : ℕ)
      → let (job, r') = enqueue_job request now r in
        IsSound max_retries (submit job.job_id runner) r'
  unfolding enqueue_job submit
  enqueue_job-IsSound request now =
      let id = job_id_for (Dict.size r.jobs + 1) in
      let job = new_job id request now in
      let free = next_id_is_free r s.counted in
      record {
        counted = (enqueue_job_lem request now r s.counted).0;
        waiting =
            count-put queued_count runner.submitted (runner.submitted ++ id ∷ []) r.jobs id job
              s.waiting (λ k. ground (arith, free, occurrences-snoc runner.submitted id k));
        working =
            count-put running_count runner.taken runner.taken r.jobs id job s.working
              (λ k. ground (arith, free));
        bounded = bounded-put max_retries r.jobs id job s.bounded (omega arith);
      }

is_some_of_queued : (o : Option JobRecord) → 0 < queued_count o → (job : JobRecord) × (o ≡ some job)
is_some_of_queued none h = absurd (omega arith)
is_some_of_queued (some job) h = (job, refl)

is_some_of_running :
    (o : Option JobRecord) → 0 < running_count o → (job : JobRecord) × (o ≡ some job)
is_some_of_running none h = absurd (omega arith)
is_some_of_running (some job) h = (job, refl)

module _ (max_retries : ℕ) (runner : Runner) (r : InMemoryRegistry)
    (s : IsSound max_retries runner r) (id : String) where
  -- What the pool and the workers hold is in the registry.
  pub submitted_job :
      contains runner.submitted id ≡ true → (job : JobRecord) × (Dict.get r.jobs id ≡ some job)
  submitted_job c =
      is_some_of_queued (Dict.get r.jobs id)
        (omega (arith, s.waiting id, occurrences_pos runner.submitted id c))

  pub taken_job :
      contains runner.taken id ≡ true → (job : JobRecord) × (Dict.get r.jobs id ≡ some job)
  taken_job c =
      is_some_of_running (Dict.get r.jobs id)
        (omega (arith, s.working id, occurrences_pos runner.taken id c))

pub queued_once :
    (status : JobStatus) → 0 < is_queued status → (is_queued status ≡ 1) × (is_running status ≡ 0)
queued_once queued h = (refl, refl)
queued_once running h = absurd (omega arith)
queued_once _ h = absurd (omega arith)

pub running_once :
    (status : JobStatus) → 0 < is_running status → (is_queued status ≡ 0) × (is_running status ≡ 1)
running_once running h = (refl, refl)
running_once queued h = absurd (omega arith)
running_once _ h = absurd (omega arith)

pub Fits-open :
    (max_retries retries : ℕ) (status : JobStatus)
    → Fits max_retries status retries
    → 0 < is_queued status + is_running status
    → retries ≤ max_retries
Fits-open max_retries retries queued f h = f
Fits-open max_retries retries running f h = f
Fits-open max_retries retries _ f h = absurd (omega arith)

module _ (max_retries : ℕ) (runner : Runner) (r : InMemoryRegistry)
    (s : IsSound max_retries runner r) (id : String) (job : JobRecord)
    (present : Dict.get r.jobs id ≡ some job) (now : ℕ) where
  -- A change of one job's status, with the lists of the pool that fit it.
  resettled :
      (status : JobStatus) (log_pointer : Option String) (retries : Option ℕ) (runner' : Runner)
      → ((k : String)
          → occurrences runner'.submitted k + (if id == k then is_queued job.status else 0)
            ≡ occurrences runner.submitted k + (if id == k then is_queued status else 0))
      → ((k : String)
          → occurrences runner'.taken k + (if id == k then is_running job.status else 0)
            ≡ occurrences runner.taken k + (if id == k then is_running status else 0))
      → Fits max_retries status (get_or retries job.retries)
      → IsSound max_retries runner' (with_status id status log_pointer retries now job r)
  unfolding with_status updated_job
  resettled status log_pointer retries runner' in_pool in_hand fits =
      let job' = updated_job status log_pointer retries now job in
      record {
        counted = with_status-IsCounted id status log_pointer retries now r job present s.counted;
        waiting =
            count-put queued_count runner.submitted runner'.submitted r.jobs id job' s.waiting
              (λ k. rw present (in_pool k));
        working =
            count-put running_count runner.taken runner'.taken r.jobs id job' s.working
              (λ k. rw present (in_hand k));
        bounded = bounded-put max_retries r.jobs id job' s.bounded fits;
      }

  pub in_pool_count : occurrences runner.submitted id ≡ is_queued job.status
  in_pool_count = s.waiting id ∙ ap queued_count present

  pub in_hand_count : occurrences runner.taken id ≡ is_running job.status
  in_hand_count = s.working id ∙ ap running_count present

  pub began :
      (looked_up : Dict (Option Handler))
      → contains runner.submitted id ≡ true
      → IsSound max_retries
          (record runner {
            looked_up = looked_up;
            submitted = take_out id runner.submitted;
            taken = runner.taken ++ id ∷ [];
          })
          (with_status id running none none now job r)
  began looked_up c =
      let pooled = occurrences_pos runner.submitted id c in
      let once = queued_once job.status (omega (arith, in_pool_count)) in
      resettled running none none _
        (λ k. ground (arith, once, occurrences-take_out runner.submitted id k))
        (λ k. ground (arith, once, occurrences-snoc runner.taken id k))
        (Fits-open max_retries job.retries job.status (s.bounded id job present) (omega arith))

  module _ (c : contains runner.taken id ≡ true) where
    pub once : (is_queued job.status ≡ 0) × (is_running job.status ≡ 1)
    once = running_once job.status (omega (arith, in_hand_count, occurrences_pos runner.taken id c))

    pub retries_left : job.retries ≤ max_retries
    retries_left =
        Fits-open max_retries job.retries job.status (s.bounded id job present)
          (omega (arith, once))

    abbrev pub released : Runner
    released = record runner { taken = take_out id runner.taken }

    in_hand_end :
        (status : JobStatus)
        → is_running status ≡ 0
        → (k : String)
        → occurrences released.taken k + (if id == k then is_running job.status else 0)
          ≡ occurrences runner.taken k + (if id == k then is_running status else 0)
    in_hand_end status e k =
        ground
          (arith, once, occurrences-take_out runner.taken id k, occurrences_pos runner.taken id c)

    pub succeeded_lem :
        (p : Option String)
        → IsSound max_retries released (with_status id succeeded p none now job r)
    succeeded_lem p =
        resettled succeeded p none released (λ k. ground (arith, once)) (in_hand_end succeeded refl)
          retries_left

    pub retried_lem :
        (error : String)
        → job.retries + 1 ≤ max_retries
        → IsSound max_retries
            (submit id released)
            (with_status id queued (some error) (some (job.retries + 1)) now job r)
    unfolding submit
    retried_lem error left =
        resettled queued (some error) (some (job.retries + 1)) (submit id released)
          (λ k. ground (arith, once, occurrences-snoc runner.submitted id k))
          (in_hand_end queued refl) left

    pub failed_lem :
        (error : String)
        → ¬ (job.retries + 1 ≤ max_retries)
        → IsSound max_retries released
            (with_status id failed (some error) (some (job.retries + 1)) now job r)
    failed_lem error spent =
        resettled failed (some error) (some (job.retries + 1)) released (λ k. ground (arith, once))
          (in_hand_end failed refl) (omega (arith, retries_left))
