-- ===== src/PromptPack/Versioning/Manager.antt =====
-- src/DomainDetermine/prompt_pack/versioning.py: the operations of `PromptVersionManager`.
use domain_determine.Base.{
  ℕ, String, Option, none, some, List, [], ◌∷◌, ◌++◌, nat_eq, string_eq, if◌then◌else◌, get_or,
  truthy_opt,
}
use mathlib.Core.Option
use domain_determine.Base.Json.{Fields, str, array, object, end, field}
use domain_determine.Governance.Models.{ArtifactRef, texts}
use domain_determine.Governance.EventLog.{
  Codec, GovernanceEventLog, log_prompt_published, log_prompt_rolled_back,
  log_prompt_waiver_granted,
}
use domain_determine.Governance.Versioning.{impact_value, Hashing}
use domain_determine.PromptPack.Registry.{
  PromptManifest, not_registered, register, resolve, format_prompt_reference,
}
use domain_determine.PromptPack.Versioning.{
  TemplateRecord, PromptReleaseRecord, Texts, Release, PromptVersionManager, Result, ok, err,
  registry_error, metric_fields, to_mapping, changelog_lines, check_release,
}

module _ (codec : Codec) (hashing : Hashing) (t : Texts) where
  open hashing use {isoformat}

  abbrev pub Manager : Type 0
  Manager = PromptVersionManager codec hashing t

  -- path.write_text(title) where there is no file, and the lines at its end
  unfoldable pub append_changelog : List String → Option (List String) → List String
  append_changelog lines file = get_or file ("# Prompt Pack Changelog\n\n" ∷ []) ++ lines

  -- _log_release
  unfoldable pub log_release : PromptReleaseRecord → Manager → Manager
  unfolding append_changelog changelog_lines to_mapping
  log_release r s = record s {
    changelog = Option.map (λ file. some (append_changelog (changelog_lines t r) file)) s.changelog;
    journal = Option.map (λ entries. entries ++ to_mapping isoformat r ∷ []) s.journal;
  }

  unfoldable pub publish_payload : PromptReleaseRecord → Fields
  unfolding texts metric_fields impact_value
  publish_payload r = field "approvals" (array (texts r.approvals)) (
      field "owners" (array (texts r.owners)) (
        field "rationale" (str r.rationale) (
          field "expected_metrics" (object (metric_fields r.expected_metrics)) (
            field "related_manifests" (array (texts r.related_manifests))
              (field "impact" (str (impact_value r.impact)) end)))))

  abbrev pub ref_of : PromptManifest → ArtifactRef
  ref_of m = record { artifact_id = m.template_id; version = m.version; hash = m.hash }

  -- _emit_publish_event
  unfoldable pub emit_publish_event : PromptReleaseRecord → String → ℕ → Manager → Manager
  unfolding log_prompt_published publish_payload
  emit_publish_event r actor now s =
      let artifact : ArtifactRef = record {
        artifact_id = r.template_id;
        version = r.version;
        hash = r.hash;
      } in
      record s {
        event_log =
            Option.map
              (λ log. (log_prompt_published codec artifact actor (publish_payload r) now log).1)
              s.event_log;
      }

  unfoldable pub release_record : PromptManifest → Release → ℕ → PromptReleaseRecord
  release_record m p now = record {
    template_id = m.template_id;
    version = m.version;
    schema_id = m.schema_id;
    policy_id = m.policy_id;
    impact = p.impact;
    hash = m.hash;
    rationale = p.rationale;
    owners = p.owners;
    expected_metrics = p.expected_metrics;
    approvals = p.approvals;
    related_manifests = p.related_manifests;
    timestamp = now;
  }

  unfoldable pub after_release : PromptManifest → Release → ℕ → Manager → Manager
  unfolding register log_release emit_publish_event release_record
  after_release m p now s =
      let r = release_record m p now in
      emit_publish_event r p.actor now
        (log_release r (record s { registry = register m s.registry }))

  abbrev pub publish_if :
      Result PromptManifest → Release → ℕ → Manager → Result PromptManifest × Manager
  publish_if (err e) p now s = (err e, s)
  publish_if (ok m) p now s = (ok m, after_release m p now s)

  -- publish
  unfoldable pub publish :
      String
      → Release
      → List (String × TemplateRecord)
      → ℕ
      → Manager
      → Result PromptManifest × Manager
  unfolding check_release after_release
  publish template_id p discovered now s =
      publish_if (check_release codec hashing t template_id p.impact discovered s.registry) p now s

  abbrev pub logged :
      (ArtifactRef → GovernanceEventLog codec → GovernanceEventLog codec)
      → PromptManifest
      → Manager
      → Manager
  logged log_it m s = record s { event_log = Option.map (log_it (ref_of m)) s.event_log }

  -- record_rollback
  unfoldable pub record_rollback :
      String → String → String → String → Option String → ℕ → Manager → Result (Unit {0}) × Manager
  unfolding resolve log_prompt_rolled_back
  record_rollback template_id version actor reason waiver_id now s =
      let waiver =
        if truthy_opt waiver_id then field "waiver_id" (str (get_or waiver_id "")) end else end in
      let payload = field "reason" (str reason) waiver in
      elim (resolve template_id version s.registry) [
        | none ↦ (err (registry_error (not_registered template_id version)), s)
        | some m ↦
            (ok tt, logged (λ a log. (log_prompt_rolled_back codec a actor payload now log).1) m s)
      ]

  -- record_waiver
  unfoldable pub record_waiver :
      String → String → String → String → String → ℕ → Manager → Result (Unit {0}) × Manager
  unfolding resolve log_prompt_waiver_granted
  record_waiver template_id version actor justification expiry now s =
      let payload = field "justification" (str justification) (field "expiry" (str expiry) end) in
      elim (resolve template_id version s.registry) [
        | none ↦ (err (registry_error (not_registered template_id version)), s)
        | some m ↦ (
          ok tt,
          logged (λ a log. (log_prompt_waiver_granted codec a actor payload now log).1) m s,
        )
      ]

  -- reference
  unfoldable pub reference : PromptManifest → String
  unfolding format_prompt_reference
  reference m = format_prompt_reference m
