-- ===== src/PromptPack/Runs.antt =====
-- Releases of a prompt template.
use domain_determine.Base.{
  String, ◌≡◌, ◌≢◌, ◌⊎◌, refl, none, some, List, [], ◌∷◌, nat_eq, string_eq, show,
}
use domain_determine.Base.Dict
use domain_determine.Base.Dict.{
  Dict, get-put, get-put_self, get-put_ne, get-remove, size-put, size-put_new, size-put_old,
  put_new, values-append,
}
use domain_determine.Base.Json.{end, object}
use domain_determine.Samples.{sample_codec, sample_hashing, empty_log}
use domain_determine.Governance.Versioning
use domain_determine.Governance.Versioning.{ChangeImpact, next_version}
use domain_determine.PromptPack.Registry.{
  PromptManifest, resolve, registry_key, latest_version, versions_of,
}
use domain_determine.PromptPack.Versioning.{
  TemplateRecord, Texts, Release, ok, err, PublishError, template_not_found, check_release,
  manifest_of, records_of,
}
use domain_determine.PromptPack.Versioning.Manager.{Manager, publish, after_release}
use domain_determine.PromptPack.Versioning.Publishing.{IsReleasable, publish_lem}

abbrev plain : Texts
plain = record { date = show; shown = λ j. "v" }

abbrev template : TemplateRecord
template = record {
  version = some "0.1.0";
  schema = some "s";
  policy = some "p";
  template = "Summarise";
  metadata = object end;
  schema_payload = object end;
  policy_payload = object end;
}

abbrev discovered : List (String × TemplateRecord)
discovered = ("summary", template) ∷ []

abbrev first_release : Release
first_release = record {
  impact = ChangeImpact.minor;
  rationale = "first";
  owners = "ann" ∷ [];
  expected_metrics = [];
  approvals = [];
  actor = "prompt-governance";
  related_manifests = [];
}

abbrev nothing_released : Manager sample_codec sample_hashing plain
nothing_released = record {
  registry = [];
  changelog = some none;
  journal = some [];
  event_log = some empty_log;
}

publish_lem_example :
    ((m : PromptManifest) × (publish sample_codec sample_hashing plain "summary" first_release
          discovered 3 nothing_released
        ≡ (
          ok m,
          after_release sample_codec sample_hashing plain m first_release 3 nothing_released,
        ))
      × IsReleasable sample_codec sample_hashing plain "summary" ChangeImpact.minor discovered [] m
      × (resolve "summary" m.version
            (after_release sample_codec sample_hashing plain m first_release 3
              nothing_released).registry
          ≡ some m)
      × ((k : String)
          → k ≢ registry_key m.template_id m.version
          → Dict.get
              (after_release sample_codec sample_hashing plain m first_release 3
                nothing_released).registry
              k
            ≡ none))
    ⊎ ((e : PublishError) × (publish sample_codec sample_hashing plain "summary" first_release
            discovered 3 nothing_released
          ≡ (err e, nothing_released)))
unfolding Dict.get
publish_lem_example =
    publish_lem sample_codec sample_hashing plain "summary" first_release discovered 3
      nothing_released

-- The run returns the manifest, and a template that is not discovered is refused.
is_released :
    (publish sample_codec sample_hashing plain "summary" first_release discovered 3
      nothing_released).0
    ≡ ok (manifest_of sample_codec sample_hashing plain "summary" template)
unfolding publish check_release records_of Dict.get Dict.put Dict.values latest_version versions_of
    next_version Versioning.initial_version manifest_of
is_released = refl

is_unknown :
    (publish sample_codec sample_hashing plain "other" first_release discovered 3
      nothing_released).0
    ≡ err template_not_found
unfolding publish check_release records_of Dict.get Dict.put
is_unknown = refl
