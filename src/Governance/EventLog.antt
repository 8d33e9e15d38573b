-- ===== src/Governance/EventLog.antt =====
-- src/DomainDetermine/governance/event_log.py. The log file is the list of its lines, `none` while it
-- does not exist. json.dumps and json.loads, SHA-256 and the text form of times are the interface
-- `Codec`. Python's `timestamp` default is an argument, the clock's reading in microseconds.

pub mod Query
use domain_determine.Base.{
  ℕ, zero, suc, ◌+◌, ◌-◌, ◌*◌, ◌/◌, ◌%◌, ◌≤◌, ◌<◌, String, ◌≡◌, ◌≢◌, ◌↔◌, ◌⊎◌, inl, inr, refl, sym,
  ap, ◌∙◌, Bool, true, false, not, ◌&&◌, ◌||◌, Option, none, some, List, [], ◌∷◌, ◌++◌, map, arith,
  Eq, ◌==◌, nat_eq, string_eq, nat_beq, eq_of_discrete, if◌then◌else◌, ltb, leb, is_some, get_or,
  Bool-cases, Option-cases, length, keep, every, some_of, contains, add, to_set, subset, meets,
  insert_sorted, sorted, text_le, All, length-append, contains-append, contains-add,
  contains-to_set, contains_of_subset, subset_mono, contains-sorted, show, ◌<>◌, emit, digit, value,
  code-digit, value-show, show-injective, numbered-injective, truthy, truthy_opt, is_space,
  strip_left, strip_right, strip, prepend, split, split_once, eq_iff,
}
use domain_determine.Base.Json.{Json, str, object, Fields, end, field, at, sort_json, sort_fields}
use domain_determine.Governance.Models.{ArtifactRef, ref_to_dict}

pub data GovernanceEventType : Type 0 where
  proposal_created build_attached audit_completed approval_recorded waiver_granted publish_requested
        publish_completed rollback_initiated rollback_completed prompt_published prompt_rolled_back
        prompt_quality_alert llm_engine_published llm_warmup_completed llm_warmup_failed
        llm_rollback_completed llm_observability_alert service_job_enqueued service_job_completed
        service_job_failed service_job_quota_exceeded mapping_batch_published
        mapping_review_required :
      GovernanceEventType

-- event_type.value
unfoldable pub value_of : GovernanceEventType → String
value_of proposal_created = "proposal_created"
value_of build_attached = "build_attached"
value_of audit_completed = "audit_completed"
value_of approval_recorded = "approval_recorded"
value_of waiver_granted = "waiver_granted"
value_of publish_requested = "publish_requested"
value_of publish_completed = "publish_completed"
value_of rollback_initiated = "rollback_initiated"
value_of rollback_completed = "rollback_completed"
value_of prompt_published = "prompt_published"
value_of prompt_rolled_back = "prompt_rolled_back"
value_of prompt_quality_alert = "prompt_quality_alert"
value_of llm_engine_published = "llm_engine_published"
value_of llm_warmup_completed = "llm_warmup_completed"
value_of llm_warmup_failed = "llm_warmup_failed"
value_of llm_rollback_completed = "llm_rollback_completed"
value_of llm_observability_alert = "llm_observability_alert"
value_of service_job_enqueued = "service_job_enqueued"
value_of service_job_completed = "service_job_completed"
value_of service_job_failed = "service_job_failed"
value_of service_job_quota_exceeded = "service_job_quota_exceeded"
value_of mapping_batch_published = "mapping_batch_published"
value_of mapping_review_required = "mapping_review_required"

abbrev pub all_event_types : List GovernanceEventType
all_event_types =
    proposal_created ∷ build_attached ∷ audit_completed ∷ approval_recorded ∷ waiver_granted
    ∷ publish_requested ∷ publish_completed ∷ rollback_initiated ∷ rollback_completed
    ∷ prompt_published ∷ prompt_rolled_back ∷ prompt_quality_alert ∷ llm_engine_published
    ∷ llm_warmup_completed ∷ llm_warmup_failed ∷ llm_rollback_completed ∷ llm_observability_alert
    ∷ service_job_enqueued ∷ service_job_completed ∷ service_job_failed ∷ service_job_quota_exceeded
    ∷ mapping_batch_published ∷ mapping_review_required ∷ []

unfoldable pub find_type : String → List GovernanceEventType → Option GovernanceEventType
unfolding value_of
find_type s [] = none
find_type s (t ∷ ts) = if value_of t == s then some t else find_type s ts

-- GovernanceEventType(s)
unfoldable pub event_type_of : String → Option GovernanceEventType
unfolding find_type
event_type_of s = find_type s all_event_types

pub record GovernanceEvent : Type 0 where
  pub event_type : GovernanceEventType
  pub artifact : ArtifactRef
  pub actor : String
  pub payload : Fields
  pub timestamp : ℕ
  pub signature : Option String

-- The standard library's part, with what its documentation promises.
pub record Codec : Type 1 where
  pub Line : Type 0
  -- json.dumps(_, sort_keys=True)
  pub dumps : Json → Line
  pub loads : Line → Option Json
  -- not line.strip()
  pub is_blank : Line → Bool
  -- sha256 of the secret and the canonical text, in hexadecimal
  pub digest : String → Line → String
  pub isoformat : ℕ → String
  pub fromisoformat : String → Option ℕ
  pub loads-dumps : (j : Json) → loads (dumps j) ≡ some (sort_json j)
  pub dumps-not_blank : (j : Json) → is_blank (dumps j) ≡ false
  pub iso_round_trip : (t : ℕ) → fromisoformat (isoformat t) ≡ some t
  pub digest_not_empty : (secret : String) (l : Line) → truthy (digest secret l) ≡ true

pub data LogError : Type 0 where
  json_error : LogError
  missing_key : String → LogError
  wrong_shape : String → LogError
  bad_event_type : String → LogError
  bad_time : String → LogError
  no_secret : LogError
  invalid_job_event : LogError

pub data Result {ℓ} (A : Type ℓ) : Type ℓ where
  ok : A → Result A
  err : LogError → Result A

infixl 5 ◌>>=◌
abbrev pub ◌>>=◌ {ℓ κ} : {A : Type ℓ} {B : Type κ} → Result A → (A → Result B) → Result B
err e >>= f = err e
ok a >>= f = f a

-- raw[k] where a text is expected
unfoldable pub text_at : String → Fields → Result String
text_at k d = elim (at d k) [
  | none ↦ err (missing_key k)
  | some (str s) ↦ ok s
  | some _ ↦ err (wrong_shape k)
]

-- raw.get(k, {}) where an object is expected
unfoldable pub object_at : String → Fields → Result Fields
object_at k d = elim (at d k) [
  | none ↦ ok end
  | some (object f) ↦ ok f
  | some _ ↦ err (wrong_shape k)
]

-- raw.get(k) where a text or nothing is expected
unfoldable pub text_or_none : String → Fields → Result (Option String)
text_or_none k d = elim (at d k) [
  | none ↦ ok none
  | some (str s) ↦ ok (some s)
  | some _ ↦ err (wrong_shape k)
]

abbrev pub signature_field : Option String → Fields → Fields
signature_field none d = d
signature_field (some s) d = if truthy s then field "signature" (str s) d else d

-- `types and raw.get("event_type") not in types`
unfoldable pub wanted_type : Option (List GovernanceEventType) → Option Json → Bool
unfolding value_of contains
wanted_type none found = true
wanted_type (some []) found = true
wanted_type (some (t ∷ ts)) (some (str s)) = contains (map value_of (t ∷ ts)) s
wanted_type (some (t ∷ ts)) found = false

-- `artifact_id and artifact.get("artifact_id") != artifact_id`
unfoldable pub wanted_artifact : Option String → Option Json → Bool
wanted_artifact none found = true
wanted_artifact (some a) (some (str s)) = not (truthy a) || s == a
wanted_artifact (some a) found = not (truthy a)

abbrev pub push : Option GovernanceEvent → List GovernanceEvent → List GovernanceEvent
push none es = es
push (some e) es = e ∷ es

abbrev pub new_event : GovernanceEventType → ArtifactRef → String → Fields → ℕ → GovernanceEvent
new_event t artifact actor payload now = record {
  event_type = t;
  artifact = artifact;
  actor = actor;
  payload = payload;
  timestamp = now;
  signature = none;
}

abbrev pub is_job_event : GovernanceEventType → Bool
is_job_event service_job_enqueued = true
is_job_event service_job_completed = true
is_job_event service_job_failed = true
is_job_event service_job_quota_exceeded = true
is_job_event _ = false

module _ (codec : Codec) where
  open codec use {Line, dumps, loads, is_blank, digest, isoformat, fromisoformat}

  -- GovernanceEvent.to_dict. The place of the signature among the keys is lost when they are sorted.
  unfoldable pub event_to_dict : GovernanceEvent → Fields
  unfolding value_of ref_to_dict
  event_to_dict e = field "event_type" (str (value_of e.event_type)) (
      field "artifact" (ref_to_dict e.artifact) (
        field "actor" (str e.actor) (
          field "payload" (object e.payload)
            (field "timestamp" (str (isoformat e.timestamp)) (signature_field e.signature end)))))

  -- GovernanceEventLog._sign_event
  unfoldable pub sign_event : String → GovernanceEvent → GovernanceEvent
  unfolding event_to_dict
  sign_event secret e = record e {
    signature =
        some (digest secret (dumps (object (event_to_dict (record e { signature = none })))));
  }

  -- The state of a log object: its secret, and the lines of its file.
  pub record GovernanceEventLog : Type 0 where
    pub secret : String
    pub file : Option (List Line)

  -- GovernanceEventLog.__init__, with the environment's GOVERNANCE_EVENT_SECRET. The directory of the
  -- file is made; a file that is there stays.
  unfoldable pub open_log :
      Option (List Line) → Option String → Option String → Result GovernanceEventLog
  open_log file secret environment =
      let chosen = if truthy_opt secret then secret else environment in
      if truthy_opt chosen
      then ok (record { secret = get_or chosen ""; file = file })
      else err no_secret

  -- GovernanceEventLog.append
  unfoldable pub append :
      GovernanceEvent → GovernanceEventLog → GovernanceEvent × GovernanceEventLog
  unfolding sign_event event_to_dict
  append e log =
      let signed = sign_event log.secret e in
      (
        signed,
        record log {
          file = some (get_or log.file [] ++ dumps (object (event_to_dict signed)) ∷ []);
        },
      )

  unfoldable pub from_fields : Fields → Fields → Result GovernanceEvent
  unfolding text_at object_at text_or_none event_type_of
  from_fields raw artifact = do
    kind ← text_at "event_type" raw
    event_type ← elim (event_type_of kind) [ none ↦ err (bad_event_type kind) | some t ↦ ok t ]
    artifact_id ← text_at "artifact_id" artifact
    version ← text_at "version" artifact
    hash ← text_at "hash" artifact
    actor ← text_at "actor" raw
    payload ← object_at "payload" raw
    time ← text_at "timestamp" raw
    timestamp ← elim (fromisoformat time) [ none ↦ err (bad_time time) | some t ↦ ok t ]
    signature ← text_or_none "signature" raw
    ok (record {
      event_type = event_type;
      artifact = record { artifact_id = artifact_id; version = version; hash = hash };
      actor = actor;
      payload = payload;
      timestamp = timestamp;
      signature = signature;
    })

  module _ (artifact_id : Option String) (event_types : Option (List GovernanceEventType)) where
    -- The body of the loop over the file's lines; `none` is a `continue`.
    unfoldable pub read_raw : Fields → Result (Option GovernanceEvent)
    unfolding object_at
    read_raw raw =
        if wanted_type event_types (at raw "event_type")
        then (do
          artifact ← object_at "artifact" raw
          if wanted_artifact artifact_id (at artifact "artifact_id")
              then (do event ← from_fields raw artifact; ok (some event))
              else ok none)
        else ok none

    unfoldable pub read_line : Line → Result (Option GovernanceEvent)
    unfolding read_raw
    read_line line = if is_blank line then ok none else elim (loads line) [
      | none ↦ err json_error
      | some (object raw) ↦ read_raw raw
      | some _ ↦ err (wrong_shape "")
    ]

    unfoldable pub read_lines : List Line → Result (List GovernanceEvent)
    read_lines [] = ok []
    read_lines (l ∷ ls) = do r ← read_line l; es ← read_lines ls; ok (push r es)

    -- GovernanceEventLog.query
    unfoldable pub query : GovernanceEventLog → Result (List GovernanceEvent)
    unfolding read_lines
    query log = elim log.file [ none ↦ ok [] | some lines ↦ read_lines lines ]

  unfoldable pub log_event :
      GovernanceEventType
      → ArtifactRef
      → String
      → Fields
      → ℕ
      → GovernanceEventLog
      → GovernanceEvent × GovernanceEventLog
  unfolding append
  log_event t artifact actor payload now log = append (new_event t artifact actor payload now) log

  -- The public helpers, each for the event type of its name.
  abbrev pub Logger : Type 0
  Logger =
      ArtifactRef → String → Fields → ℕ → GovernanceEventLog → GovernanceEvent × GovernanceEventLog

  unfoldable pub log_llm_engine_published : Logger
  unfolding log_event
  log_llm_engine_published = log_event llm_engine_published

  unfoldable pub log_llm_warmup_completed : Logger
  unfolding log_event
  log_llm_warmup_completed = log_event llm_warmup_completed

  unfoldable pub log_llm_warmup_failed : Logger
  unfolding log_event
  log_llm_warmup_failed = log_event llm_warmup_failed

  unfoldable pub log_llm_rollback_completed : Logger
  unfolding log_event
  log_llm_rollback_completed = log_event llm_rollback_completed

  unfoldable pub log_llm_observability_alert : Logger
  unfolding log_event
  log_llm_observability_alert = log_event llm_observability_alert

  unfoldable pub log_prompt_published : Logger
  unfolding log_event
  log_prompt_published = log_event prompt_published

  unfoldable pub log_prompt_rolled_back : Logger
  unfolding log_event
  log_prompt_rolled_back = log_event prompt_rolled_back

  unfoldable pub log_prompt_quality_alert : Logger
  unfolding log_event
  log_prompt_quality_alert = log_event prompt_quality_alert

  unfoldable pub log_mapping_batch_published : Logger
  unfolding log_event
  log_mapping_batch_published = log_event mapping_batch_published

  unfoldable pub log_mapping_review_required : Logger
  unfolding log_event
  log_mapping_review_required = log_event mapping_review_required

  unfoldable pub log_prompt_waiver_granted : Logger
  unfolding log_event
  log_prompt_waiver_granted = log_event waiver_granted

  unfoldable pub log_service_job_event :
      GovernanceEventType
      → ArtifactRef
      → String
      → Fields
      → ℕ
      → GovernanceEventLog
      → Result GovernanceEvent × GovernanceEventLog
  unfolding log_event
  log_service_job_event t artifact actor payload now log =
      if is_job_event t
      then (let (e, log') = log_event t artifact actor payload now log in (ok e, log'))
      else (err invalid_job_event, log)
