-- ===== src/Service/Jobs.antt =====
-- src/DomainDetermine/service/jobs.py and service/events.py. The thread pool is the list of the jobs
-- that were submitted and the list of those that a worker has taken; a worker's run of a job is cut
-- at its two changes of shared state, `begin_job` and `finish_job`, so that any interleaving of the
-- workers is a sequence of such steps. A handler is a function of the clock and of the job's record
-- that returns a log pointer or raises; it does not call the manager, as no handler of
-- service/handlers.py does. A request, `enqueue`, is one step too; the source takes no lock between
-- the check of the quota and the rest, and Jobs/Concurrency cuts it there. A negative bound on the retries
-- acts as the bound 0. The quota manager reads the same registry as the job manager. The state holds no
-- two references to different copies of a record: see Service/Repos.
pub mod Lists
pub mod Soundness
pub mod Steps
pub mod Termination
pub mod Draining
pub mod QuotaTables
pub mod Concurrency
pub mod Quotas
use domain_determine.Base.{
  ℕ, zero, suc, ◌+◌, ◌-◌, ◌*◌, ◌/◌, ◌%◌, ◌≤◌, ◌<◌, String, ◌≡◌, ◌≢◌, ◌↔◌, ◌⊎◌, inl, inr, refl, sym,
  ap, ◌∙◌, Bool, true, false, not, ◌&&◌, ◌||◌, Option, none, some, List, [], ◌∷◌, ◌++◌, map, arith,
  Eq, ◌==◌, nat_eq, string_eq, nat_beq, eq_of_discrete, if◌then◌else◌, ltb, leb, is_some, get_or,
  Bool-cases, Option-cases, length, keep, every, some_of, contains, add, to_set, subset, meets,
  insert_sorted, sorted, text_le, All, length-append, contains-append, contains-add,
  contains-to_set, contains_of_subset, subset_mono, contains-sorted, show, ◌<>◌, emit, digit, value,
  code-digit, value-show, show-injective, numbered-injective, truthy, truthy_opt, is_space,
  strip_left, strip_right, strip, prepend, split, split_once, eq_iff,
}
use domain_determine.Base.Dict
use domain_determine.Base.Dict.{
  Dict, get-put, get-put_self, get-put_ne, get-remove, size-put, size-put_new, size-put_old,
  put_new, values-append,
}
use mathlib.Core.Option
use domain_determine.Base.Int.{pos}
use domain_determine.Base.Json.{Fields, end, field, str, number}
use domain_determine.Governance.Models.{ArtifactRef}
use domain_determine.Governance.EventLog.{
  GovernanceEventType, service_job_enqueued, service_job_completed, service_job_failed,
}
use domain_determine.Governance.Sink.{EventSink}
use domain_determine.Service.Repos.{
  JobStatus, queued, running, succeeded, failed, JobRequest, JobRecord, InMemoryRegistry,
  RegistryError, key_error, Outcome, quota_usage_of, quota_limits_of, enqueue_job,
  update_job_status, get_job, list_jobs, stream_logs, LogLine,
}

-- What a handler does.
pub data HandlerResult : Type 0 where
  returned : Option String → HandlerResult
  raised : String → HandlerResult

abbrev pub Handler : Type 0
Handler = ℕ → JobRecord → HandlerResult

-- ThreadedJobRunner
pub record Runner : Type 0 where
  pub handlers : Dict Handler
  -- what each worker that has begun a job found for its type
  pub looked_up : Dict (Option Handler)
  pub submitted : List String
  pub taken : List String

abbrev pub new_runner : Runner
new_runner = record { handlers = []; looked_up = []; submitted = []; taken = [] }

pub data ServiceError : Type 0 where
  quota_exceeded : (quota_type : String) (limit used retry_after_seconds : ℕ) → ServiceError
  registry_error : RegistryError → ServiceError

pub data Result {ℓ} (A : Type ℓ) : Type ℓ where
  ok : A → Result A
  err : ServiceError → Result A

-- QuotaManager.check(tenant, quota_type, increment)
unfoldable pub check_quota : ℕ → String → String → ℕ → InMemoryRegistry → Result (Unit {0})
check_quota window_seconds tenant quota_type increment r =
    elim (Dict.get (quota_limits_of tenant r) quota_type) [
      | none ↦ ok tt
      | some limit ↦
          let used = get_or (Dict.get (quota_usage_of tenant r) quota_type) 0 in
          if ltb limit (used + increment)
          then err (quota_exceeded quota_type limit used window_seconds)
          else ok tt
    ]

-- timedelta(days=1)
abbrev pub day : ℕ
day = 86400

unfoldable pub job_artifact : String → String → ArtifactRef
job_artifact job_id tenant = record {
  artifact_id = "service-job:" <> tenant <> ":" <> job_id;
  version = "v1";
  hash = job_id;
}

-- ThreadedJobRunner.submit
unfoldable pub submit : String → Runner → Runner
submit job_id runner = record runner { submitted = runner.submitted ++ job_id ∷ [] }

-- The first occurrence of an id leaves a list of jobs.
unfoldable pub take_out : String → List String → List String
take_out k [] = []
take_out k (j ∷ js) = if j == k then js else j ∷ take_out k js

-- `handler(record, manager)`, if there is a handler
unfoldable pub run_handler : Option Handler → JobRecord → ℕ → HandlerResult
run_handler none job now = returned none
run_handler (some handler) job now = handler now job

-- `handler = self._handlers.get(record.request.job_type)`, kept for the worker of the job
unfoldable pub look_up : String → Option JobRecord → Runner → Dict (Option Handler)
look_up job_id none runner = runner.looked_up
look_up job_id (some job) runner =
    Dict.put runner.looked_up job_id (Dict.get runner.handlers job.request.job_type)

-- The handler that the worker of a job holds
abbrev pub handler_of : Runner → String → Option Handler
handler_of runner job_id = get_or (Dict.get runner.looked_up job_id) none

unfoldable pub outcome_payload : JobRecord → String → Fields
outcome_payload job log_pointer =
    field "job_type" (str job.request.job_type)
      (field "retries" (number (pos job.retries)) (field "log_pointer" (str log_pointer) end))

module _ (sink : EventSink) where
  open sink use {Log, emit}

  pub record JobManager : Type 0 where
    pub registry : InMemoryRegistry
    -- the window of the quota manager, once there is one
    pub quota_window : Option ℕ
    pub max_retries : ℕ
    pub runner : Option Runner
    pub event_log : Option Log

  -- emit_job_event
  unfoldable pub emit_job_event :
      GovernanceEventType → String → String → String → Fields → ℕ → Option Log → Option Log
  unfolding job_artifact
  emit_job_event t job_id tenant actor payload now none = none
  emit_job_event t job_id tenant actor payload now (some log) =
      some (emit t (job_artifact job_id tenant) actor payload now log)

  -- `if self.runner is None: self.runner = ThreadedJobRunner()`
  abbrev pub runner_of : JobManager → Runner
  runner_of m = get_or m.runner new_runner

  -- JobManager.enqueue
  unfoldable pub accept : JobRequest → ℕ → JobManager → JobRecord × JobManager
  unfolding emit_job_event submit
  accept request now m =
      let (job, registry) = enqueue_job request now m.registry in
      let payload =
        field "job_type" (str request.job_type) (field "project" (str request.project) end) in
      (
        job,
        record m {
          registry = registry;
          runner = some (submit job.job_id (runner_of m));
          event_log =
              emit_job_event service_job_enqueued job.job_id request.tenant request.actor payload
                now m.event_log;
        },
      )

  unfoldable pub prepared : JobManager → JobManager
  prepared m = record m {
    quota_window = some (get_or m.quota_window day);
    runner = some (runner_of m);
  }

  -- `self.quota_manager.check(...)` raises, or the request is accepted.
  abbrev pub admit : Result (Unit {0}) → JobRequest → ℕ → JobManager → Result JobRecord × JobManager
  admit (err e) request now m = (err e, m)
  admit (ok _) request now m = let (job, m') = accept request now m in (ok job, m')

  unfoldable pub enqueue : JobRequest → ℕ → JobManager → Result JobRecord × JobManager
  enqueue request now m =
      let m' = prepared m in
      let window = get_or m'.quota_window day in
      admit (check_quota window request.tenant request.job_type 1 m'.registry) request now m'

  -- JobManager.register_handler
  unfoldable pub register_handler : String → Handler → JobManager → JobManager
  register_handler job_type handler m =
      let runner = runner_of m in
      record m {
        runner = some (record runner { handlers = Dict.put runner.handlers job_type handler });
      }

  -- JobManager.get, list and stream_logs
  unfoldable pub get : String → JobManager → Outcome JobRecord
  unfolding get_job
  get job_id m = get_job job_id m.registry

  unfoldable pub list : Option String → JobManager → List JobRecord
  unfolding list_jobs
  list tenant m = list_jobs tenant m.registry

  unfoldable pub stream : String → JobManager → List LogLine
  unfolding stream_logs
  stream job_id m = stream_logs job_id m.registry

  -- The event of a final status, and no event for the others.
  unfoldable pub status_event :
      JobStatus → String → JobRecord → String → ℕ → Option Log → Option Log
  unfolding emit_job_event outcome_payload
  status_event succeeded job_id job log_pointer now log =
      emit_job_event service_job_completed job_id job.request.tenant job.request.actor
        (outcome_payload job log_pointer) now log
  status_event failed job_id job log_pointer now log =
      emit_job_event service_job_failed job_id job.request.tenant job.request.actor
        (outcome_payload job log_pointer) now log
  status_event queued job_id job log_pointer now log = log
  status_event running job_id job log_pointer now log = log

  -- JobManager.update_status. The KeyError of a missing job leaves the manager as it was.
  unfoldable pub update_status :
      String
      → JobStatus
      → Option String
      → Option ℕ
      → ℕ
      → JobManager
      → Outcome (Unit {0}) × JobManager
  unfolding status_event
  update_status job_id status log_pointer retries now m =
      let registry = (update_job_status job_id status log_pointer retries now m.registry).1 in
      elim (Dict.get registry.jobs job_id) [
        | none ↦ (Outcome.err (key_error job_id), record m { registry = registry })
        | some job ↦ (
          Outcome.ok tt,
          record m {
            registry = registry;
            event_log = status_event status job_id job (get_or log_pointer "") now m.event_log;
          },
        )
      ]

  -- A job goes back to the pool.
  unfoldable pub resubmit : String → JobManager → JobManager
  unfolding submit
  resubmit job_id m = record m { runner = Option.map (submit job_id) m.runner }

  -- JobManager.record_failure; `job` is the record that the worker holds.
  unfoldable pub record_failure : String → String → JobRecord → ℕ → JobManager → JobManager
  unfolding resubmit
  record_failure job_id error job now m =
      let retries = job.retries + 1 in
      if leb retries m.max_retries
      then resubmit job_id (record m {
        registry = (update_job_status job_id queued (some error) (some retries) now m.registry).1;
      })
      else (update_status job_id failed (some error) (some retries) now m).1

  abbrev pub set_runner : Runner → JobManager → JobManager
  set_runner runner m = record m { runner = some runner }

  -- ThreadedJobRunner._execute up to the call of the handler: a worker takes the job from the pool and
  -- looks its handler up.
  unfoldable pub begin_job : String → ℕ → JobManager → JobManager
  unfolding take_out look_up
  begin_job job_id now m =
      let runner = runner_of m in
      let rest = take_out job_id runner.submitted in
      let (result, m') = update_status job_id running none none now m in
      set_runner
        (record runner {
          looked_up = look_up job_id (Dict.get m.registry.jobs job_id) runner;
          submitted = rest;
          taken = elim result [
            | Outcome.err _ ↦ runner.taken
            | Outcome.ok _ ↦ runner.taken ++ job_id ∷ []
          ];
        })
        m'

  -- The rest of `_execute`: the handler, and the report of what it did.
  abbrev pub report : String → JobRecord → HandlerResult → ℕ → JobManager → JobManager
  report job_id job (returned p) now m = (update_status job_id succeeded p none now m).1
  report job_id job (raised error) now m = record_failure job_id error job now m

  abbrev pub settle : String → Option JobRecord → Option Handler → ℕ → JobManager → JobManager
  settle job_id none handler now m = m
  settle job_id (some job) handler now m = report job_id job (run_handler handler job now) now m

  unfoldable pub finish_job : String → ℕ → JobManager → JobManager
  unfolding take_out run_handler
  finish_job job_id now m =
      let runner = runner_of m in
      settle job_id (Dict.get m.registry.jobs job_id) (handler_of runner job_id) now
        (set_runner (record runner { taken = take_out job_id runner.taken }) m)
