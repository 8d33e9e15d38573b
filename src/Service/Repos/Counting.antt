-- ===== src/Service/Repos/Counting.antt =====
-- The job half of service/repos.py: job ids are never issued twice, and the quota counters hold the
-- number of jobs that were accepted.
use domain_determine.Base.{
  ℕ, suc, ◌+◌, ◌≤◌, ◌<◌, String, ◌≡◌, ◌≢◌, ◌⊎◌, inl, inr, refl, sym, ap, ◌∙◌, Bool, ◌&&◌, Option,
  none, some, [], ◌∷◌, arith, ◌==◌, nat_eq, string_eq, if◌then◌else◌, get_or, Bool-cases,
  Option-cases, numbered-injective, eq_iff,
}
use domain_determine.Base.Dict
use domain_determine.Base.Dict.{
  Dict, get-put, get-put_self, get-put_ne, get-remove, size-put, size-put_new, size-put_old,
  put_new, values-append,
}
use domain_determine.Service.Repos.{
  JobStatus, JobRequest, JobRecord, InMemoryRegistry, empty_registry, ok, err, key_error,
  job_id_for, tenant_quotas, quota_usage_of, increment_quota, new_job, enqueue_job, updated_job,
  with_status, update_job_status, get_job, found,
}

-- What the registry has counted for a tenant and a quota type.
unfoldable pub usage : InMemoryRegistry → String → String → ℕ
unfolding quota_usage_of
usage r tenant quota_type = get_or (Dict.get (quota_usage_of tenant r) quota_type) 0

abbrev pub matches : String → String → JobRequest → Bool
matches tenant job_type request = request.tenant == tenant && request.job_type == job_type

-- The jobs in the store that a tenant submitted of a type.
unfoldable pub count_jobs : String → String → Dict JobRecord → ℕ
count_jobs tenant job_type [] = 0
count_jobs tenant job_type ((k, job) ∷ d) =
    (if matches tenant job_type job.request then 1 else 0) + count_jobs tenant job_type d

-- `k` is one of the first `n` job ids.
abbrev pub IsIssued : ℕ → String → Type 0
IsIssued n k = (i : ℕ) × (k ≡ job_id_for i) × (0 < i) × (i ≤ n)

pub record IsCounted (r : InMemoryRegistry) : Type 0 where
  pub issued :
      (k : String) (job : JobRecord) → Dict.get r.jobs k ≡ some job → IsIssued (Dict.size r.jobs) k
  pub named : (k : String) (job : JobRecord) → Dict.get r.jobs k ≡ some job → job.job_id ≡ k
  pub counted :
      (tenant job_type : String) → usage r tenant job_type ≡ count_jobs tenant job_type r.jobs

pub empty-IsCounted : IsCounted empty_registry
unfolding usage quota_usage_of tenant_quotas count_jobs Dict.get
empty-IsCounted = record { issued = λ k job h. cc; named = λ k job h. cc; counted = λ t q. refl }

job_id_for-injective : (m n : ℕ) → job_id_for m ≡ job_id_for n → m ≡ n
unfolding job_id_for
job_id_for-injective m n h = numbered-injective "job-" m n h

-- The id of the next job is not in use.
pub next_id_is_free :
    (r : InMemoryRegistry)
    → IsCounted r
    → Dict.get r.jobs (job_id_for (Dict.size r.jobs + 1)) ≡ none
next_id_is_free r w = elim (Option-cases (Dict.get r.jobs (job_id_for (Dict.size r.jobs + 1)))) [
  | inl free ↦ free
  | inr (job, taken) ↦
      let (i, e, positive, below) = w.issued _ job taken in
      absurd (omega (arith, job_id_for-injective (Dict.size r.jobs + 1) i e))
]

count_jobs-put_new :
    (t q k : String) (d : Dict JobRecord) (job : JobRecord)
    → Dict.get d k ≡ none
    → count_jobs t q (Dict.put d k job)
      ≡ count_jobs t q d + (if matches t q job.request then 1 else 0)
unfolding count_jobs Dict.get Dict.put
count_jobs-put_new t q k [] job h = omega arith
count_jobs-put_new t q k ((j, old) ∷ d) job h = ground (arith, count_jobs-put_new t q k d job)

count_jobs-put_old :
    (t q k : String) (d : Dict JobRecord) (job old : JobRecord)
    → Dict.get d k ≡ some old
    → job.request ≡ old.request
    → count_jobs t q (Dict.put d k job) ≡ count_jobs t q d
unfolding count_jobs Dict.get Dict.put
count_jobs-put_old t q k [] job old h e = cc
count_jobs-put_old t q k ((j, other) ∷ d) job old h e =
    ground (arith, count_jobs-put_old t q k d job old)

usage-increment :
    (r : InMemoryRegistry) (t q t' q' : String)
    → usage (increment_quota t q r) t' q' ≡ usage r t' q' + (if t == t' && q == q' then 1 else 0)
unfolding usage increment_quota
usage-increment r t q t' q' =
    let inner = tenant_quotas r.quota_usage t in
    let count = get_or (Dict.get inner q) 0 + 1 in
    ground (
      arith,
      get-put r.quota_usage t t' (Dict.put inner q count),
      get-put inner q q' count,
      eq_iff t t',
      eq_iff q q',
    )

IsIssued-suc : {n : ℕ} (k : String) → IsIssued n k → IsIssued (suc n) k
IsIssued-suc k (i, e, positive, below) = (i, e, positive, omega arith)

-- A job that is put under a new id is found there, and the others are found as before.
pub put_cases :
    (d : Dict JobRecord) (k j : String) (v w : JobRecord)
    → Dict.get (Dict.put d k v) j ≡ some w
    → ((k ≡ j) × (v ≡ w)) ⊎ ((k ≢ j) × (Dict.get d j ≡ some w))
put_cases d k j v w h = elim (Bool-cases (k == j)) [
  | inl same ↦ inl ((eq_iff k j).0 same, ground (arith, get-put d k j v))
  | inr other ↦ inr (ground (arith, eq_iff k j), ground (arith, get-put d k j v))
]

pub usage-enqueue :
    (request : JobRequest) (now : ℕ) (r : InMemoryRegistry) (t q : String)
    → usage (enqueue_job request now r).1 t q ≡ usage r t q + (if matches t q request then 1 else 0)
unfolding enqueue_job usage
usage-enqueue request now r t q = usage-increment r request.tenant request.job_type t q

module _ (request : JobRequest) (now : ℕ) (r : InMemoryRegistry) (w : IsCounted r) where
  abbrev next_id : String
  next_id = job_id_for (Dict.size r.jobs + 1)

  abbrev next_job : JobRecord
  next_job = new_job next_id request now

  free : Dict.get r.jobs next_id ≡ none
  free = next_id_is_free r w

  IsIssued-put :
      (k : String) (job : JobRecord)
      → Dict.get (Dict.put r.jobs next_id next_job) k ≡ some job
      → IsIssued (Dict.size (Dict.put r.jobs next_id next_job)) k
  IsIssued-put k job h =
      rw (size-put_new r.jobs next_id next_job free)
        (elim (put_cases r.jobs next_id k next_job job h) [
          | inl (same, _) ↦ (Dict.size r.jobs + 1, sym same, omega arith, omega arith)
          | inr (_, old) ↦ IsIssued-suc k (w.issued k job old)
        ])

  named-put :
      (k : String) (job : JobRecord)
      → Dict.get (Dict.put r.jobs next_id next_job) k ≡ some job
      → job.job_id ≡ k
  named-put k job h = elim (put_cases r.jobs next_id k next_job job h) [
    | inl (same, is) ↦ sym (ap (λ (x : JobRecord). x.job_id) is) ∙ same
    | inr (_, old) ↦ w.named k job old
  ]

  enqueue_job-IsCounted : IsCounted (enqueue_job request now r).1
  unfolding enqueue_job
  enqueue_job-IsCounted = record {
    issued = IsIssued-put;
    named = named-put;
    counted = λ t q.
        usage-enqueue request now r t q
        ∙ ap (λ n. n + (if matches t q request then 1 else 0)) (w.counted t q)
        ∙ sym (count_jobs-put_new t q next_id r.jobs next_job free);
  }

found-if {ℓ} :
    {A : Type ℓ} (k : String) (b : Bool) (a : A) (o : Option A)
    → found k (if b then some a else o) ≡ (if b then ok a else found k o)
unfolding found
found-if k b a o = ground arith

-- Accepting a job keeps a well counted registry well counted, issues an id that no job had, stores the
-- job under it, keeps the other jobs, and adds one to its own counter and to no other.
pub enqueue_job_lem :
    (request : JobRequest) (now : ℕ) (r : InMemoryRegistry)
    → IsCounted r
    → let (job, r') = enqueue_job request now r in
      IsCounted r'
      × (Dict.get r.jobs job.job_id ≡ none)
      × (get_job job.job_id r' ≡ ok job)
      × ((k : String) → get_job k r' ≡ (if job.job_id == k then ok job else get_job k r))
      × ((t q : String) → usage r' t q ≡ usage r t q + (if matches t q request then 1 else 0))
unfolding enqueue_job get_job
enqueue_job_lem request now r w = (
  enqueue_job-IsCounted request now r w,
  free request now r w,
  ap (found (next_id request now r w)) (get-put_self r.jobs _ _),
  (λ k. ap (found k) (get-put r.jobs _ k _) ∙ found-if k _ _ _),
  usage-enqueue request now r,
)

module _ (job_id : String) (status : JobStatus) (log_pointer : Option String) (retries : Option ℕ)
    (now : ℕ) (r : InMemoryRegistry) where
  pub update_job_status_cases :
      ((Dict.get r.jobs job_id ≡ none)
        × (update_job_status job_id status log_pointer retries now r ≡ (err (key_error job_id), r)))
      ⊎ ((job : JobRecord) × (Dict.get r.jobs job_id ≡ some job)
          × (update_job_status job_id status log_pointer retries now r
              ≡ (ok tt, with_status job_id status log_pointer retries now job r)))
  unfolding update_job_status
  update_job_status_cases = elim (Option-cases (Dict.get r.jobs job_id)) [
    | inl missing ↦ inl (missing, ground arith)
    | inr (job, present) ↦ inr (job, present, ground arith)
  ]

  pub with_status-IsCounted :
      (job : JobRecord)
      → Dict.get r.jobs job_id ≡ some job
      → IsCounted r
      → IsCounted (with_status job_id status log_pointer retries now job r)
  unfolding with_status updated_job usage
  with_status-IsCounted job present w =
      let job' = updated_job status log_pointer retries now job in
      record {
        issued = λ k other h.
            rw (size-put_old r.jobs job_id job' job present)
              (elim (put_cases r.jobs job_id k job' other h) [
                | inl (same, _) ↦ w.issued k job (ap (Dict.get r.jobs) (sym same) ∙ present)
                | inr (_, old) ↦ w.issued k other old
              ]);
        named = λ k other h. elim (put_cases r.jobs job_id k job' other h) [
          | inl (same, is) ↦
              sym (ap (λ (x : JobRecord). x.job_id) is) ∙ w.named job_id job present ∙ same
          | inr (_, old) ↦ w.named k other old
        ];
        counted =
            λ t q. w.counted t q ∙ sym (count_jobs-put_old t q job_id r.jobs job' job present refl);
      }
