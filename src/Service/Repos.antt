-- ===== src/Service/Repos.antt =====
-- src/DomainDetermine/service/repos.py and the records of service/jobs.py. A job record is one object
-- that the registry and the runner share; it is modelled by its entry in `jobs`, which is never
-- removed, and read through its id. `now` is the clock's reading at the call. The JSON lines of a
-- job's log are kept as the values that they encode, and an artifact's bytes as their text.
pub mod Artifacts
pub mod Counting
pub mod Status
use domain_determine.Base.{
  ℕ, zero, suc, ◌+◌, ◌≤◌, String, ◌≡◌, refl, Bool, true, false, ◌&&◌, Option, none, some, List, [],
  ◌∷◌, ◌++◌, ◌==◌, string_eq, if◌then◌else◌, get_or, show, ◌<>◌, truthy_opt, keep,
}
use domain_determine.Base.Dict
use domain_determine.Base.Dict.{Dict}

pub data JobStatus : Type 0 where
  queued running succeeded failed : JobStatus

pub record JobRequest : Type 0 where
  pub job_type : String
  pub payload : Dict String
  pub tenant : String
  pub project : String
  pub actor : String
  pub reason : String

pub record JobRecord : Type 0 where
  pub job_id : String
  pub status : JobStatus
  pub request : JobRequest
  pub submitted_at : ℕ
  pub updated_at : ℕ
  pub retries : ℕ
  pub log_pointer : Option String

pub record ArtifactEntry : Type 0 where
  pub artifact_id : String
  pub name : String
  pub type : String
  pub metadata : Dict String
  pub created_at : ℕ
  pub updated_at : ℕ
  pub content : Option String
  pub content_type : String

-- service/schemas.py
pub record ArtifactCreateRequest : Type 0 where
  pub name : String
  pub type : String
  pub metadata : Option (Dict String)
  pub content : Option String
  pub content_type : Option String

pub data LogLine : Type 0 where
  queued_line : (job_id job_type tenant project : String) → LogLine
  status_line : JobStatus → String → ℕ → LogLine
  pointer_line : String → LogLine

pub record InMemoryRegistry : Type 0 where
  pub artifacts : Dict ArtifactEntry
  pub jobs : Dict JobRecord
  pub quota_limits : Dict (Dict ℕ)
  pub quota_usage : Dict (Dict ℕ)
  pub job_logs : Dict (List LogLine)

-- InMemoryRegistry()
abbrev pub empty_registry : InMemoryRegistry
empty_registry = record {
  artifacts = [];
  jobs = [];
  quota_limits = [];
  quota_usage = [];
  job_logs = [];
}

pub data RegistryError : Type 0 where
  key_error : String → RegistryError

-- What a method returns or raises, beside the registry that it leaves.
pub data Outcome {ℓ} (A : Type ℓ) : Type ℓ where
  ok : A → Outcome A
  err : RegistryError → Outcome A

unfoldable pub artifact_id_for : ℕ → String
artifact_id_for n = "artifact-" <> show n

unfoldable pub job_id_for : ℕ → String
job_id_for n = "job-" <> show n

-- `x if x else None`, `x or d`
unfoldable pub or_none : Option String → Option String
or_none o = if truthy_opt o then o else none

unfoldable pub or_default : Option String → String → String
or_default o d = if truthy_opt o then get_or o d else d

unfoldable pub new_artifact : ArtifactCreateRequest → String → ℕ → ArtifactEntry
unfolding or_none or_default
new_artifact payload artifact_id now = record {
  artifact_id = artifact_id;
  name = payload.name;
  type = payload.type;
  metadata = get_or payload.metadata [];
  created_at = now;
  updated_at = now;
  content = or_none payload.content;
  content_type = or_default payload.content_type "application/octet-stream";
}

unfoldable pub create_artifact :
    ArtifactCreateRequest → ℕ → InMemoryRegistry → String × InMemoryRegistry
unfolding new_artifact
create_artifact payload now r =
    let artifact_id = artifact_id_for (Dict.size r.artifacts + 1) in
    let entry = new_artifact payload artifact_id now in
    (artifact_id, record r { artifacts = Dict.put r.artifacts artifact_id entry })

unfoldable pub found {ℓ} : {A : Type ℓ} → String → Option A → Outcome A
found k none = err (key_error k)
found k (some a) = ok a

unfoldable pub get_artifact : String → InMemoryRegistry → Outcome ArtifactEntry
unfolding found
get_artifact artifact_id r = found artifact_id (Dict.get r.artifacts artifact_id)

unfoldable pub updated_entry :
    Dict String → Option String → Option String → ℕ → ArtifactEntry → ArtifactEntry
updated_entry metadata content content_type now entry = record entry {
  metadata = metadata;
  updated_at = now;
  content = elim content [ none ↦ entry.content | some c ↦ some c ];
  content_type = get_or content_type entry.content_type;
}

unfoldable pub update_artifact :
    String
    → Dict String
    → Option String
    → Option String
    → ℕ
    → InMemoryRegistry
    → Outcome (Unit {0}) × InMemoryRegistry
unfolding updated_entry
update_artifact artifact_id metadata content content_type now r =
    elim (Dict.get r.artifacts artifact_id) [
      | none ↦ (err (key_error artifact_id), r)
      | some entry ↦ (
        ok tt,
        record r {
          artifacts =
              Dict.put r.artifacts artifact_id
                (updated_entry metadata content content_type now entry);
        },
      )
    ]

unfoldable pub delete_artifact : String → InMemoryRegistry → InMemoryRegistry
delete_artifact artifact_id r = record r { artifacts = Dict.remove r.artifacts artifact_id }

unfoldable pub list_artifacts : InMemoryRegistry → List ArtifactEntry
list_artifacts r = Dict.values r.artifacts

unfoldable pub get_artifact_payload : String → InMemoryRegistry → Outcome (Option String × String)
get_artifact_payload artifact_id r = elim (Dict.get r.artifacts artifact_id) [
  | none ↦ err (key_error artifact_id)
  | some entry ↦ ok (entry.content, entry.content_type)
]

-- Quotas: a missing tenant or quota type counts as an empty dict and as 0.
unfoldable pub tenant_quotas : Dict (Dict ℕ) → String → Dict ℕ
tenant_quotas d tenant = get_or (Dict.get d tenant) []

unfoldable pub quota_usage_of : String → InMemoryRegistry → Dict ℕ
unfolding tenant_quotas
quota_usage_of tenant r = tenant_quotas r.quota_usage tenant

unfoldable pub quota_limits_of : String → InMemoryRegistry → Dict ℕ
unfolding tenant_quotas
quota_limits_of tenant r = tenant_quotas r.quota_limits tenant

unfoldable pub set_quota : String → String → ℕ → InMemoryRegistry → InMemoryRegistry
unfolding tenant_quotas
set_quota tenant quota_type limit r = record r {
  quota_limits =
      Dict.put r.quota_limits tenant
        (Dict.put (tenant_quotas r.quota_limits tenant) quota_type limit);
}

unfoldable pub increment_quota : String → String → InMemoryRegistry → InMemoryRegistry
unfolding tenant_quotas
increment_quota tenant quota_type r =
    let tenant_usage = tenant_quotas r.quota_usage tenant in
    record r {
      quota_usage =
          Dict.put r.quota_usage tenant
            (Dict.put tenant_usage quota_type (get_or (Dict.get tenant_usage quota_type) 0 + 1));
    }

abbrev pub new_job : String → JobRequest → ℕ → JobRecord
new_job job_id request now = record {
  job_id = job_id;
  status = queued;
  request = request;
  submitted_at = now;
  updated_at = now;
  retries = 0;
  log_pointer = none;
}

unfoldable pub enqueue_job : JobRequest → ℕ → InMemoryRegistry → JobRecord × InMemoryRegistry
unfolding increment_quota
enqueue_job request now r =
    let job_id = job_id_for (Dict.size r.jobs + 1) in
    let job = new_job job_id request now in
    let stored = record r { jobs = Dict.put r.jobs job_id job } in
    let counted = increment_quota request.tenant request.job_type stored in
    let line = queued_line job_id request.job_type request.tenant request.project in
    (job, record counted { job_logs = Dict.put counted.job_logs job_id (line ∷ []) })

unfoldable pub get_job : String → InMemoryRegistry → Outcome JobRecord
unfolding found
get_job job_id r = found job_id (Dict.get r.jobs job_id)

abbrev pub of_tenant : String → JobRecord → Bool
of_tenant tenant job = job.request.tenant == tenant

unfoldable pub list_jobs : Option String → InMemoryRegistry → List JobRecord
list_jobs none r = Dict.values r.jobs
list_jobs (some tenant) r = keep (of_tenant tenant) (Dict.values r.jobs)

unfoldable pub stream_logs : String → InMemoryRegistry → List LogLine
stream_logs job_id r = get_or (Dict.get r.job_logs job_id) []

-- self._job_logs.setdefault(job_id, []).append(line)
unfoldable pub append_log : String → LogLine → Dict (List LogLine) → Dict (List LogLine)
append_log job_id line logs = Dict.put logs job_id (get_or (Dict.get logs job_id) [] ++ line ∷ [])

unfoldable pub updated_job : JobStatus → Option String → Option ℕ → ℕ → JobRecord → JobRecord
updated_job status log_pointer retries now job = record job {
  status = status;
  updated_at = now;
  log_pointer = elim log_pointer [ none ↦ job.log_pointer | some p ↦ some p ];
  retries = get_or retries job.retries;
}

unfoldable pub log_pointer_line : String → Option String → Dict (List LogLine) → Dict (List LogLine)
unfolding append_log
log_pointer_line job_id none logs = logs
log_pointer_line job_id (some p) logs = append_log job_id (pointer_line p) logs

-- The registry after `job_id`, which is `job`, was given a status.
unfoldable pub with_status :
    String
    → JobStatus
    → Option String
    → Option ℕ
    → ℕ
    → JobRecord
    → InMemoryRegistry
    → InMemoryRegistry
unfolding updated_job log_pointer_line append_log
with_status job_id status log_pointer retries now job r =
    let job' = updated_job status log_pointer retries now job in
    record r {
      jobs = Dict.put r.jobs job_id job';
      job_logs =
          append_log job_id (status_line status job_id job'.retries)
            (log_pointer_line job_id log_pointer r.job_logs);
    }

unfoldable pub update_job_status :
    String
    → JobStatus
    → Option String
    → Option ℕ
    → ℕ
    → InMemoryRegistry
    → Outcome (Unit {0}) × InMemoryRegistry
update_job_status job_id status log_pointer retries now r = elim (Dict.get r.jobs job_id) [
  | none ↦ (err (key_error job_id), r)
  | some job ↦ (ok tt, with_status job_id status log_pointer retries now job r)
]
