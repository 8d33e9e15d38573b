-- ===== src/Service/Tests.antt =====
-- Runs of the service on small inputs, and its theorems at them.
use domain_determine.Base.{
  ℕ, ◌+◌, ◌≤◌, ◌<◌, String, ◌≡◌, ◌⊎◌, refl, true, Option, none, some, [], nat_eq, string_eq,
  if◌then◌else◌, contains, show,
}
use domain_determine.Base.Dict
use domain_determine.Base.Dict.{
  Dict, get-put, get-put_self, get-put_ne, get-remove, size-put, size-put_new, size-put_old,
  put_new, values-append,
}
use domain_determine.Samples.{sample_sink, empty_log}
use domain_determine.Service.Repos.{
  quota_limits_of, quota_usage_of, JobStatus, queued, JobRequest, JobRecord, ArtifactEntry,
  ArtifactCreateRequest, InMemoryRegistry, empty_registry, ok, err, key_error, create_artifact,
  update_artifact, delete_artifact, get_artifact, enqueue_job, artifact_id_for, job_id_for,
  with_status, update_job_status,
}
use domain_determine.Service.Repos.Artifacts.{update_artifact_effect}
use domain_determine.Service.Repos.Counting.{empty-IsCounted, usage, matches}
use domain_determine.Service.Jobs
use domain_determine.Service.Jobs.{
  JobManager, Runner, runner_of, enqueue, begin_job, finish_job, register_handler, check_quota, day,
  quota_exceeded, Handler, raised, returned, run_handler, record_failure, update_status,
  emit_job_event, accept, prepared, submit, resubmit, take_out,
}
use domain_determine.Service.Jobs.Steps.{
  IsSafe, Reach, here, next, enqueues, registers, begins, finishes, fresh, fresh-IsSafe,
  Reach-IsSafe,
}
use domain_determine.Service.Jobs.Quotas.{enqueue_effect, Within, limit_of}
use domain_determine.Service.Jobs.Termination.{rest, take, give, potential, Work, Work-le-potential}
use domain_determine.Service.Jobs.Draining.{IsDrained, Work-drains}
use domain_determine.Base.{◌==◌}
use domain_determine.Service.Repos.{get_job, running}
use domain_determine.Service.Repos.Counting.{IsCounted, enqueue_job_lem}
use domain_determine.Service.Repos.{status_line, stream_logs}
use domain_determine.Service.Repos.Status.{pointer_lines, update_job_status_effect}
use domain_determine.Base.{◌++◌}
use domain_determine.Base.{◌&&◌, false, split, strip, keep}
use domain_determine.Service.Auth
use domain_determine.Base.{◌∷◌}
use domain_determine.Service.Auth.{
  AuthContext, refused, lacks_role, Share, parse_roles, require_roles, require_roles_lem,
}
use domain_determine.Base.{arith}
use domain_determine.Service.Repos.{set_quota}
use domain_determine.Service.Jobs.Concurrency.{
  Near, IsNear, checks, accepts, Ticks, still, tick, check_request, flying, Ticks-IsNear,
}

nothing-Near : (o : Option ℕ) → Near 0 o 0
nothing-Near none = tt
nothing-Near (some limit) = omega arith

abbrev note : ArtifactCreateRequest
note = record {
  name = "note";
  type = "text";
  metadata = none;
  content = some "x";
  content_type = none;
}

-- Two artifacts, of which the first is deleted.
abbrev one_left : InMemoryRegistry
one_left =
    delete_artifact "artifact-1"
      (create_artifact note 2 (create_artifact note 1 empty_registry).1).1

-- The next artifact takes the id of the one that is left, and replaces it.
create_after_delete :
    ((create_artifact note 3 one_left).0 ≡ "artifact-2")
    × (Dict.has one_left.artifacts "artifact-2" ≡ true)
    × (Dict.size (create_artifact note 3 one_left).1.artifacts ≡ 1)
unfolding create_artifact delete_artifact artifact_id_for show Dict.get Dict.put Dict.remove
    Dict.size
create_after_delete = (refl, refl, refl)

abbrev request : JobRequest
request = record {
  job_type = "audit-report";
  payload = [];
  tenant = "t1";
  project = "p";
  actor = "a";
  reason = "r";
}

abbrev Manager : Type 0
Manager = JobManager sample_sink

abbrev start : Manager
start =
    register_handler sample_sink "audit-report" (λ now job. raised "boom")
      (fresh sample_sink 1 (some empty_log))

abbrev accepted : Manager
accepted = (enqueue sample_sink request 1 start).1

abbrev begun : Manager
begun = begin_job sample_sink "job-1" 2 accepted

abbrev put_back : Manager
put_back = finish_job sample_sink "job-1" 3 begun

abbrev status_of : Option JobRecord → Option JobStatus
status_of none = none
status_of (some job) = some job.status

-- What the runs below compute with.
service_code : Unit {0}
unfolding register_handler enqueue prepared accept submit check_quota quota_limits_of enqueue_job
    job_id_for show Dict.get Dict.put Dict.size contains begin_job update_status update_job_status
    finish_job run_handler record_failure resubmit with_status take_out
service_code = tt

in_the_pool : contains (runner_of sample_sink accepted).submitted "job-1" ≡ true
unfolding service_code
in_the_pool = refl

in_hand : contains (runner_of sample_sink begun).taken "job-1" ≡ true
unfolding service_code
in_hand = refl

-- A failure with a retry left puts the job back.
retry_is_queued : status_of (Dict.get put_back.registry.jobs "job-1") ≡ some queued
unfolding service_code
retry_is_queued = refl

a_run : Reach sample_sink (fresh sample_sink 1 (some empty_log)) put_back
a_run =
    next
      (next
        (next (next here (registers "audit-report" (λ now job. raised "boom")))
          (enqueues request 1))
        (begins "job-1" 2 in_the_pool))
      (finishes "job-1" 3 in_hand)

Reach-IsSafe_example : IsSafe sample_sink put_back
Reach-IsSafe_example = Reach-IsSafe sample_sink (fresh-IsSafe sample_sink 1 (some empty_log)) a_run

accepted-IsSafe : IsSafe sample_sink accepted
accepted-IsSafe =
    Reach-IsSafe sample_sink (fresh-IsSafe sample_sink 1 (some empty_log))
      (next (next here (registers "audit-report" (λ now job. raised "boom"))) (enqueues request 1))

Work-le-potential_example : 2 + potential sample_sink put_back ≤ potential sample_sink accepted
Work-le-potential_example =
    Work-le-potential sample_sink (give "job-1" 3 (take "job-1" 2 rest in_the_pool) in_hand)
      accepted-IsSafe

Work-drains_example :
    (m : Manager) × (k : ℕ) × Work sample_sink put_back m k
    × (2 + k ≤ potential sample_sink accepted)
    × IsDrained sample_sink m
Work-drains_example =
    Work-drains sample_sink (give "job-1" 3 (take "job-1" 2 rest in_the_pool) in_hand)
      accepted-IsSafe

-- One job of the type at a time for the tenant
abbrev limited : InMemoryRegistry
limited = set_quota "t1" "audit-report" 1 empty_registry

abbrev limited_start : Manager
limited_start = record start { registry = limited }

abbrev both_checked : Manager
both_checked = prepared sample_sink (prepared sample_sink limited_start)

abbrev both_accepted : Manager
both_accepted = (accept sample_sink request 2 (accept sample_sink request 1 both_checked).1).1

passes_once : check_request sample_sink request limited_start ≡ true
unfolding service_code set_quota quota_usage_of
passes_once = refl

passes_twice : check_request sample_sink request (prepared sample_sink limited_start) ≡ true
unfolding service_code set_quota quota_usage_of
passes_twice = refl

-- Two requests that are both checked before either is accepted
interleaved : Ticks sample_sink 1 limited_start [] both_accepted []
interleaved =
    tick
      (tick
        (tick (tick still (checks request passes_once (omega arith)))
          (checks request passes_twice (omega arith)))
        (accepts [] request (request ∷ []) 1 refl))
      (accepts [] request [] 2 refl)

-- Then the limit of 1 is exceeded.
limit_is_exceeded :
    (limit_of both_accepted.registry "t1" "audit-report" ≡ some 1)
    × (usage both_accepted.registry "t1" "audit-report" ≡ 2)
unfolding service_code set_quota quota_usage_of limit_of usage
limit_is_exceeded = (refl, refl)

-- Nothing is counted at the start.
limited-IsNear : IsNear 0 [] limited
unfolding service_code set_quota quota_usage_of usage flying
limited-IsNear = record { near = λ t q. nothing-Near (limit_of limited t q) }

Ticks-IsNear_example : IsNear 1 [] both_accepted.registry
Ticks-IsNear_example = Ticks-IsNear sample_sink 1 limited-IsNear interleaved

enqueue_effect_example :
    let (result, m') = enqueue sample_sink request 1 start in
    let used = usage empty_registry "t1" "audit-report" in
    ((job : JobRecord) × (result ≡ Jobs.ok job)
      × Within (limit_of empty_registry "t1" "audit-report") (used + 1)
      × (Dict.get empty_registry.jobs job.job_id ≡ none)
      × ((t q : String)
          → usage m'.registry t q
            ≡ usage empty_registry t q + (if matches t q request then 1 else 0)))
    ⊎ ((limit : ℕ) × (limit_of empty_registry "t1" "audit-report" ≡ some limit)
        × (limit < used + 1)
        × (result ≡ Jobs.err (quota_exceeded "audit-report" limit used day))
        × (m'.registry ≡ empty_registry)
        × (m'.event_log ≡ start.event_log))
unfolding register_handler
enqueue_effect_example = enqueue_effect sample_sink request 1 start empty-IsCounted

-- The update of an artifact that is there, with new content and a new content type
update_artifact_effect_example :
    let (result, r') = update_artifact "artifact-2" [] (some "y") (some "text/plain") 4 one_left in
    ((result ≡ err (key_error "artifact-2"))
      × (get_artifact "artifact-2" one_left ≡ err (key_error "artifact-2"))
      × (r' ≡ one_left))
    ⊎ ((e : ArtifactEntry) × (e' : ArtifactEntry) × (get_artifact "artifact-2" one_left ≡ ok e)
        × (result ≡ ok tt)
        × (get_artifact "artifact-2" r' ≡ ok e')
        × (e' ≡ record e {
          metadata = [];
          updated_at = 4;
          content = some "y";
          content_type = "text/plain";
        })
        × ((j : String) → ("artifact-2" ≡ j) ⊎ (get_artifact j r' ≡ get_artifact j one_left))
        × (Dict.size r'.artifacts ≡ Dict.size one_left.artifacts)
        × (r' ≡ record one_left { artifacts = r'.artifacts }))
update_artifact_effect_example =
    update_artifact_effect "artifact-2" [] (some "y") (some "text/plain") 4 one_left

artifact_2_is_updated :
    (update_artifact "artifact-2" [] (some "y") (some "text/plain") 4 one_left).0 ≡ ok tt
unfolding create_artifact delete_artifact artifact_id_for show Dict.get Dict.put Dict.remove
    Dict.size update_artifact
artifact_2_is_updated = refl

enqueue_job_lem_example :
    let (job, r') = enqueue_job request 1 empty_registry in
    IsCounted r'
    × (Dict.get empty_registry.jobs job.job_id ≡ none)
    × (get_job job.job_id r' ≡ ok job)
    × ((k : String) → get_job k r' ≡ (if job.job_id == k then ok job else get_job k empty_registry))
    × ((t q : String)
        → usage r' t q ≡ usage empty_registry t q + (if matches t q request then 1 else 0))
enqueue_job_lem_example = enqueue_job_lem request 1 empty_registry empty-IsCounted

abbrev one_job : InMemoryRegistry
one_job = (enqueue_job request 1 empty_registry).1

-- The change of the status of a job that is there
update_job_status_effect_example :
    let (result, r') = update_job_status "job-1" running (some "log") none 2 one_job in
    ((result ≡ err (key_error "job-1"))
      × (get_job "job-1" one_job ≡ err (key_error "job-1"))
      × (r' ≡ one_job))
    ⊎ ((job : JobRecord) × (job' : JobRecord) × (result ≡ ok tt)
        × (get_job "job-1" one_job ≡ ok job)
        × (get_job "job-1" r' ≡ ok job')
        × (job' ≡ record job {
          status = running;
          updated_at = 2;
          log_pointer = some "log";
          retries = job.retries;
        })
        × ((k : String) → ("job-1" ≡ k) ⊎ (get_job k r' ≡ get_job k one_job))
        × (stream_logs "job-1" r'
            ≡ stream_logs "job-1" one_job
              ++ (pointer_lines (some "log") ++ status_line running "job-1" job'.retries ∷ []))
        × ((k : String) → ("job-1" ≡ k) ⊎ (stream_logs k r' ≡ stream_logs k one_job))
        × (r' ≡ record one_job { jobs = r'.jobs; job_logs = r'.job_logs }))
update_job_status_effect_example =
    update_job_status_effect "job-1" running (some "log") none 2 one_job

job_1_is_updated : (update_job_status "job-1" running (some "log") none 2 one_job).0 ≡ ok tt
unfolding service_code
job_1_is_updated = refl

abbrev caller : AuthContext
caller = record { actor = "ann"; roles = "admin" ∷ "writer" ∷ []; tenant = "t1"; reason = "r" }

require_roles_lem_example :
    ((require_roles caller ("writer" ∷ []) ≡ Auth.accepted tt) × Share caller.roles ("writer" ∷ []))
    ⊎ ((require_roles caller ("writer" ∷ []) ≡ refused lacks_role)
        × ((r : String) → (contains caller.roles r && contains ("writer" ∷ []) r) ≡ false))
require_roles_lem_example = require_roles_lem caller ("writer" ∷ [])

-- Empty parts of the header are left out.
two_roles : parse_roles (some "admin, ,writer") ≡ "admin" ∷ "writer" ∷ []
unfolding parse_roles split strip keep
two_roles = refl
