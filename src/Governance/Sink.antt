-- ===== src/Governance/Sink.antt =====
-- What the job manager uses of the governance event log: an interface, and the file log that fills it.
use domain_determine.Base.{
  ℕ, String, ◌≡◌, refl, ap, ◌∙◌, true, none, List, [], ◌∷◌, ◌++◌, map, nat_eq, string_eq,
}
use mathlib.Core.List.{map-append}
use domain_determine.Base.Json.{Fields}
use domain_determine.Governance.Models.{ArtifactRef}
use domain_determine.Governance.EventLog.{
  Codec, GovernanceEvent, GovernanceEventLog, GovernanceEventType, Result, ok, err, ◌>>=◌,
  is_job_event, log_service_job_event, log_event, append, sign_event, new_event, query, wanted_type,
  wanted_artifact,
}
use domain_determine.Governance.EventLog.Query.{query-append, normal}

-- The type of an event and the hash of its artifact: for a job's event, the job's id.
abbrev pub Entry : Type 0
Entry = GovernanceEventType × String

pub record EventSink : Type 1 where
  pub Log : Type 0
  -- log_service_job_event, which raises for the types of other events
  pub emit : GovernanceEventType → ArtifactRef → String → Fields → ℕ → Log → Log
  -- what a query without filters returns
  pub recorded : Log → Result (List Entry)
  pub recorded-emit :
      (t : GovernanceEventType) (a : ArtifactRef) (actor : String) (payload : Fields) (now : ℕ)
      (log : Log)
      → is_job_event t ≡ true
      → recorded (emit t a actor payload now log)
        ≡ (recorded log >>= λ es. ok (es ++ (t, a.hash) ∷ []))

abbrev pub entry : GovernanceEvent → Entry
entry e = (e.event_type, e.artifact.hash)

module _ (codec : Codec) where
  abbrev pub recorded_in : GovernanceEventLog codec → Result (List Entry)
  recorded_in log = query codec none none log >>= λ es. ok (map entry es)

  abbrev pub emit_to :
      GovernanceEventType
      → ArtifactRef
      → String
      → Fields
      → ℕ
      → GovernanceEventLog codec
      → GovernanceEventLog codec
  emit_to t a actor payload now log = (log_service_job_event codec t a actor payload now log).1

  bind-entries :
      (r : Result (List GovernanceEvent)) (e : GovernanceEvent)
      → (r >>= (λ es. ok (es ++ e ∷ [])) >>= λ es. ok (map entry es))
        ≡ (r >>= (λ es. ok (map entry es)) >>= λ es. ok (es ++ entry e ∷ []))
  bind-entries (ok es) e = ap ok (map-append entry es (e ∷ []))
  bind-entries (err x) e = refl

  emit-append :
      (t : GovernanceEventType) (a : ArtifactRef) (actor : String) (payload : Fields) (now : ℕ)
      (log : GovernanceEventLog codec)
      → is_job_event t ≡ true
      → emit_to t a actor payload now log ≡ (append codec (new_event t a actor payload now) log).1
  unfolding log_service_job_event log_event
  emit-append t a actor payload now log h = rw (h, emit_to)

  pub recorded-emit_to :
      (t : GovernanceEventType) (a : ArtifactRef) (actor : String) (payload : Fields) (now : ℕ)
      (log : GovernanceEventLog codec)
      → is_job_event t ≡ true
      → recorded_in (emit_to t a actor payload now log)
        ≡ (recorded_in log >>= λ es. ok (es ++ (t, a.hash) ∷ []))
  unfolding append sign_event wanted_type wanted_artifact
  recorded-emit_to t a actor payload now log h =
      ap recorded_in (emit-append t a actor payload now log h)
      ∙ ap (λ r. r >>= λ es. ok (map entry es))
          (query-append codec none none (new_event t a actor payload now) log)
      ∙ bind-entries (query codec none none log)
          (normal (append codec (new_event t a actor payload now) log).0)

  -- The file log is such a sink.
  abbrev pub file_sink : EventSink
  file_sink = record {
    Log = GovernanceEventLog codec;
    emit = emit_to;
    recorded = recorded_in;
    recorded-emit = recorded-emit_to;
  }
