-- ===== src/PromptPack/Versioning.antt =====
-- src/DomainDetermine/prompt_pack/versioning.py. The records that the loader discovers are an argument, in
-- its order, with the contents of their files. The changelog is the lines of its file and the journal the
-- objects of its file, each where its path is given; dates and numbers are written by `Texts`.
pub mod Manager
pub mod Publishing
use domain_determine.Base.{
  ℕ, zero, suc, ◌+◌, ◌-◌, ◌*◌, ◌/◌, ◌%◌, ◌≤◌, ◌<◌, String, ◌≡◌, ◌≢◌, ◌↔◌, ◌⊎◌, inl, inr, refl, sym,
  ap, ◌∙◌, Bool, true, false, not, ◌&&◌, ◌||◌, Option, none, some, List, [], ◌∷◌, ◌++◌, map, arith,
  Eq, ◌==◌, nat_eq, string_eq, nat_beq, eq_of_discrete, if◌then◌else◌, ltb, leb, is_some, get_or,
  Bool-cases, Option-cases, absurd_bool, none_some, some_inj, or_left, or_right, length, keep,
  every, some_of, contains, add, to_set, subset, meets, insert_sorted, sorted, text_le, All,
  length-append, contains-append, contains-add, contains-to_set, contains_of_subset, subset_mono,
  contains-sorted, show, ◌<>◌, emit, digit, value, code-digit, value-show, show-injective,
  numbered-injective, truthy, truthy_opt, is_space, strip_left, strip_right, strip, prepend, split,
  split_once, eq_iff,
}
use domain_determine.Base.Dict
use domain_determine.Base.Dict.{
  Dict, get-put, get-put_self, get-put_ne, get-remove, size-put, size-put_new, size-put_old,
  put_new, values-append,
}
use domain_determine.Base.Json.{Json, Fields, Items, str, array, object, nil, item, end, field}
use domain_determine.Governance.Models.{ArtifactRef, texts}
use domain_determine.Governance.EventLog.{
  Codec, GovernanceEventLog, log_prompt_published, log_prompt_rolled_back,
  log_prompt_waiver_granted,
}
use domain_determine.Governance.Versioning.{
  ChangeImpact, impact_value, next_version, Hashing, compute_hash,
}
use domain_determine.PromptPack.Registry.{
  PromptManifest, PromptRegistry, PromptError, register, resolve, latest_version,
  format_prompt_reference,
}
use domain_determine.PromptPack.Registry as Prompts

-- The metadata that `publish` reads, and the files of a template
pub record TemplateRecord : Type 0 where
  pub version : Option String
  pub schema : Option String
  pub policy : Option String
  pub template : String
  pub metadata : Json
  pub schema_payload : Json
  pub policy_payload : Json

pub record PromptReleaseRecord : Type 0 where
  pub template_id : String
  pub version : String
  pub schema_id : String
  pub policy_id : String
  pub impact : ChangeImpact
  pub hash : String
  pub rationale : String
  pub owners : List String
  pub expected_metrics : Dict Json
  pub approvals : List String
  pub related_manifests : List String
  pub timestamp : ℕ

pub record Texts : Type 0 where
  -- timestamp.date().isoformat()
  pub date : ℕ → String
  -- a value in an f-string
  pub shown : Json → String

unfoldable pub metric_fields : Dict Json → Fields
metric_fields [] = end
metric_fields ((k, v) ∷ d) = field k v (metric_fields d)

-- PromptReleaseRecord.to_mapping
unfoldable pub to_mapping : (ℕ → String) → PromptReleaseRecord → Fields
unfolding metric_fields impact_value texts
to_mapping isoformat r = field "template_id" (str r.template_id) (
    field "version" (str r.version) (
      field "schema_id" (str r.schema_id) (
        field "policy_id" (str r.policy_id) (
          field "impact" (str (impact_value r.impact)) (
            field "hash" (str r.hash) (
              field "rationale" (str r.rationale) (
                field "owners" (array (texts r.owners)) (
                  field "expected_metrics" (object (metric_fields r.expected_metrics)) (
                    field "approvals" (array (texts r.approvals)) (
                      field "related_manifests" (array (texts r.related_manifests))
                        (field "timestamp" (str (isoformat r.timestamp)) end)))))))))))

-- ', '.join(xs)
unfoldable pub comma_joined : List String → String
comma_joined [] = ""
comma_joined (s ∷ []) = s
comma_joined (s ∷ t ∷ ts) = s <> ", " <> comma_joined (t ∷ ts)

-- sorted(expected_metrics.items()), whose names differ
unfoldable pub insert_metric : String × Json → Dict Json → Dict Json
insert_metric p [] = p ∷ []
insert_metric p (q ∷ qs) = if text_le p.0 q.0 then p ∷ q ∷ qs else q ∷ insert_metric p qs

unfoldable pub metric_lines : Texts → Dict Json → List String
metric_lines t [] = []
metric_lines t ((name, v) ∷ d) = ("  - " <> name <> ": " <> t.shown v <> "\n") ∷ metric_lines t d

unfoldable pub sort_metrics : Dict Json → Dict Json
unfolding insert_metric
sort_metrics [] = []
sort_metrics (p ∷ d) = insert_metric p (sort_metrics d)

-- A line for a list that is not empty
abbrev pub list_line : String → List String → List String
list_line title [] = []
list_line title (s ∷ ss) = (title <> comma_joined (s ∷ ss) <> "\n") ∷ []

abbrev pub owners_line : List String → String
owners_line [] = "- Owners: n/a\n"
owners_line (s ∷ ss) = "- Owners: " <> comma_joined (s ∷ ss) <> "\n"

abbrev pub metrics_part : Texts → Dict Json → List String
metrics_part t [] = []
metrics_part t (p ∷ d) = "- Expected metrics:\n" ∷ metric_lines t (sort_metrics (p ∷ d))

-- The lines that _append_changelog writes
unfoldable pub changelog_lines : Texts → PromptReleaseRecord → List String
unfolding comma_joined sort_metrics metric_lines impact_value
changelog_lines t r =
    ("## " <> r.template_id <> " " <> r.version <> " - " <> t.date r.timestamp <> "\n")
    ∷ ("- Impact: " <> impact_value r.impact <> "\n")
    ∷ owners_line r.owners
    ∷ ("- Rationale: " <> r.rationale <> "\n")
    ∷ (metrics_part t r.expected_metrics
        ++ (("- Hash: " <> r.hash <> "\n")
            ∷ (list_line "- Approvals: " r.approvals
                ++ (list_line "- Related manifests: " r.related_manifests ++ ("\n" ∷ [])))))

-- The errors of `publish`: PromptRegistryError but for the ValueError of `next_version`
pub data PublishError : Type 0 where
  template_not_found version_missing unexpected_version identifiers_missing malformed_version :
      PublishError
  registry_error : PromptError → PublishError

pub data Result {ℓ} (A : Type ℓ) : Type ℓ where
  ok : A → Result A
  err : PublishError → Result A

infixl 5 ◌>>=◌
abbrev pub ◌>>=◌ {ℓ κ} : {A : Type ℓ} {B : Type κ} → Result A → (A → Result B) → Result B
err e >>= f = err e
ok a >>= f = f a

abbrev pub require : Bool → PublishError → Result (Unit {0})
require true e = ok tt
require false e = err e

abbrev pub found {ℓ} : {A : Type ℓ} → Option A → PublishError → Result A
found none e = err e
found (some a) e = ok a

abbrev pub lifted {ℓ} : {A : Type ℓ} → Prompts.Result A → Result A
lifted (Prompts.ok a) = ok a
lifted (Prompts.err e) = err (registry_error e)

-- The records of _load_record, by their templates
unfoldable pub records_of :
    List (String × TemplateRecord) → Dict TemplateRecord → Dict TemplateRecord
records_of [] d = d
records_of ((id, r) ∷ rs) d = records_of rs (Dict.put d id r)

-- The arguments of `publish` behind the template
pub record Release : Type 0 where
  pub impact : ChangeImpact
  pub rationale : String
  pub owners : List String
  pub expected_metrics : Dict Json
  pub approvals : List String
  pub actor : String
  pub related_manifests : List String

module _ (codec : Codec) (hashing : Hashing) (t : Texts) where
  open hashing use {isoformat}

  pub record PromptVersionManager : Type 0 where
    pub registry : PromptRegistry
    -- the path is given, and its file is there
    pub changelog : Option (Option (List String))
    pub journal : Option (List Fields)
    pub event_log : Option (GovernanceEventLog codec)

  -- compute_prompt_hash
  unfoldable pub compute_prompt_hash : TemplateRecord → String
  unfolding compute_hash
  compute_prompt_hash r = compute_hash hashing (
      object (
        field "template" (str r.template) (
          field "metadata" r.metadata
            (field "schema" r.schema_payload (field "policy" r.policy_payload end)))))

  unfoldable pub manifest_of : String → TemplateRecord → PromptManifest
  unfolding compute_prompt_hash
  manifest_of template_id r = record {
    template_id = template_id;
    version = get_or r.version "";
    schema_id = get_or r.schema "";
    policy_id = get_or r.policy "";
    hash = compute_prompt_hash r;
  }

  -- The checks of `publish`, up to the manifest: of the identifiers, of the declared version against the
  -- expected one, of the expected version, and of the record of the template
  abbrev pub check_identifiers : String → TemplateRecord → Result PromptManifest
  check_identifiers template_id r =
      require (truthy_opt r.schema && truthy_opt r.policy) identifiers_missing >>= λ _.
      ok (manifest_of template_id r)

  abbrev pub check_version : String → TemplateRecord → String → Result PromptManifest
  check_version template_id r expected =
      require (get_or r.version "" == expected) unexpected_version >>= λ _.
      check_identifiers template_id r

  abbrev pub check_next :
      String → ChangeImpact → TemplateRecord → Option String → Result PromptManifest
  check_next template_id impact r previous =
      found (next_version previous impact) malformed_version >>= check_version template_id r

  abbrev pub check_record :
      String → ChangeImpact → PromptRegistry → TemplateRecord → Result PromptManifest
  check_record template_id impact registry r =
      require (truthy_opt r.version) version_missing >>= λ _.
      lifted (latest_version template_id registry) >>= check_next template_id impact r

  unfoldable pub check_release :
      String
      → ChangeImpact
      → List (String × TemplateRecord)
      → PromptRegistry
      → Result PromptManifest
  unfolding records_of latest_version next_version manifest_of
  check_release template_id impact discovered registry =
      found (Dict.get (records_of discovered []) template_id) template_not_found
      >>= check_record template_id impact registry
