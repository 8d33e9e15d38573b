-- ===== src/Governance/Registry.antt =====
-- src/DomainDetermine/governance/registry.py. The event log, where one is attached, is the file log of
-- event_log.py; the calls of the telemetry object are kept in a list. Writing the log and calling the
-- telemetry are taken to succeed; in the source either can raise when the manifest is stored already.
-- `now` is the clock's reading.
pub mod Lineage
pub mod Publishing
use domain_determine.Base.{
  ℕ, zero, suc, ◌+◌, ◌-◌, ◌*◌, ◌/◌, ◌%◌, ◌≤◌, ◌<◌, String, ◌≡◌, ◌≢◌, ◌↔◌, ◌⊎◌, inl, inr, refl, sym,
  ap, ◌∙◌, Bool, true, false, not, ◌&&◌, ◌||◌, Option, none, some, List, [], ◌∷◌, ◌++◌, map, arith,
  Eq, ◌==◌, nat_eq, string_eq, nat_beq, eq_of_discrete, if◌then◌else◌, ltb, leb, is_some, get_or,
  Bool-cases, Option-cases, length, keep, every, some_of, contains, add, to_set, subset, meets,
  insert_sorted, sorted, text_le, All, length-append, contains-append, contains-add,
  contains-to_set, contains_of_subset, subset_mono, contains-sorted, show, ◌<>◌, emit, digit, value,
  code-digit, value-show, show-injective, numbered-injective, truthy, truthy_opt, is_space,
  strip_left, strip_right, strip, prepend, split, split_once, eq_iff,
}
use domain_determine.Base.Dict
use domain_determine.Base.Dict.{
  Dict, get-put, get-put_self, get-put_ne, get-remove, size-put, size-put_new, size-put_old,
  put_new, values-append,
}
use mathlib.Core.Option
use domain_determine.Base.Json.{Json, Fields, Items, end, field, str, array, object, nil, item}
use domain_determine.Governance.Models.{ArtifactRef, ArtifactMetadata, texts}
use domain_determine.Governance.EventLog.{
  Codec, GovernanceEvent, GovernanceEventLog, GovernanceEventType, publish_completed, log_event,
}
use domain_determine.Governance.Versioning.{
  ChangeImpact, impact_value, next_version, Hashing, compute_hash, manifest_payload, verify,
}
use domain_determine.PromptPack.Registry.{
  PromptManifest, PromptRegistry, PromptError, Reference, resolve, parse_prompt_reference,
}
use domain_determine.PromptPack.Registry

-- `invalid_version` and `unparsed` are a ValueError of a callee; the others are RegistryError.
pub data RegistryError : Type 0 where
  unknown_type : String → RegistryError
  hash_mismatch signature_required invalid_signature version_mismatch : RegistryError
  missing_dependency : String → RegistryError
  dependency_hash_mismatch : String → RegistryError
  prompt_registry_required : RegistryError
  prompt_error : PromptError → RegistryError
  prompt_not_registered : String → String → RegistryError
  prompt_hash_mismatch : String → String → RegistryError
  invalid_version : RegistryError

pub data Result {ℓ} (A : Type ℓ) : Type ℓ where
  ok : A → Result A
  err : RegistryError → Result A

infixl 5 ◌>>=◌
abbrev pub ◌>>=◌ {ℓ κ} : {A : Type ℓ} {B : Type κ} → Result A → (A → Result B) → Result B
err e >>= f = err e
ok a >>= f = f a

-- One check after another.
infixl 5 ◌>>◌
abbrev pub ◌>>◌ {ℓ} : {A : Type ℓ} → Result (Unit {0}) → Result A → Result A
check >> then_check = check >>= λ _. then_check

-- if not test: raise e
abbrev pub require : Bool → RegistryError → Result (Unit {0})
require true e = ok tt
require false e = err e

-- A call of the telemetry object.
pub data TelemetryCall : Type 0 where
  record_publish : (proposed_at published_at : ℕ) → TelemetryCall
  record_registry_notification : GovernanceEventType → ArtifactRef → String → Fields → TelemetryCall

unfoldable pub pad : ℕ → String → String
pad zero s = s
pad (suc n) s = String.◌∷◌ "0" (pad n s)

unfoldable pub text_length : String → ℕ
text_length String.[] = 0
text_length (String.◌∷◌ c s) = suc (text_length s)

-- f"{n:06d}"
unfoldable pub six_digits : ℕ → String
unfolding pad text_length
six_digits n = pad (6 - text_length (show n)) (show n)

-- RegistryConfig.new_identifier
unfoldable pub new_identifier : Dict String → String → ℕ → Result String
unfolding six_digits
new_identifier artifact_prefixes artifact_type sequence =
    let prefix = get_or (Dict.get artifact_prefixes artifact_type) "" in
    if truthy prefix
    then ok (prefix <> String.◌∷◌ "-" (six_digits sequence))
    else err (unknown_type artifact_type)

-- {ref.artifact_id for ref in dependencies}
unfoldable pub parent_ids : List ArtifactRef → List String
parent_ids dependencies = to_set (map (λ ref. ref.artifact_id) dependencies)

-- children.setdefault(parent, set()).add(child)
unfoldable pub add_child : String → String → Dict (List String) → Dict (List String)
add_child parent child children =
    Dict.put children parent (add (get_or (Dict.get children parent) []) child)

unfoldable pub add_to_parents : List String → String → Dict (List String) → Dict (List String)
unfolding add_child
add_to_parents [] child children = children
add_to_parents (p ∷ ps) child children = add_to_parents ps child (add_child p child children)

-- children.setdefault(k, set())
unfoldable pub set_default : String → Dict (List String) → Dict (List String)
set_default k children = if Dict.has children k then children else Dict.put children k []

module _ (codec : Codec) (hashing : Hashing) where
  pub record GovernanceRegistry : Type 0 where
    pub artifact_prefixes : Dict String
    -- the secret of the signature manager, where there is one
    pub signature_manager : Option String
    pub event_log : Option (GovernanceEventLog codec)
    pub telemetry : Option (List TelemetryCall)
    pub prompt_registry : Option PromptRegistry
    pub artifacts : Dict ArtifactMetadata
    pub sequences : Dict ℕ
    pub parents : Dict (List String)
    pub children : Dict (List String)

  unfoldable pub validate_dependencies : List ArtifactRef → GovernanceRegistry → Result (Unit {0})
  validate_dependencies [] g = ok tt
  validate_dependencies (d ∷ ds) g =
      let rest = validate_dependencies ds g in
      elim (Dict.get g.artifacts d.artifact_id) [
        | none ↦ err (missing_dependency d.artifact_id)
        | some manifest ↦
            if manifest.hash == d.hash then rest else err (dependency_hash_mismatch d.artifact_id)
      ]

  abbrev pub parsed : Registry.Result Reference → Result Reference
  parsed (Registry.ok r) = ok r
  parsed (Registry.err e) = err (prompt_error e)

  abbrev pub resolved : Reference → Option PromptManifest → Result (Unit {0})
  resolved (template_id, version, expected_hash) none =
      err (prompt_not_registered template_id version)
  resolved (template_id, version, expected_hash) (some manifest) =
      require (manifest.hash == expected_hash) (prompt_hash_mismatch template_id version)

  unfoldable pub validate_references : List String → PromptRegistry → Result (Unit {0})
  unfolding parse_prompt_reference resolve
  validate_references [] prompts = ok tt
  validate_references (reference ∷ references) prompts =
      parsed (parse_prompt_reference reference) >>= λ r.
      resolved r (resolve r.0 r.1 prompts) >>= λ _. validate_references references prompts

  unfoldable pub validate_prompt_templates : List String → GovernanceRegistry → Result (Unit {0})
  unfolding validate_references
  validate_prompt_templates [] g = ok tt
  validate_prompt_templates (r ∷ rs) g = elim g.prompt_registry [
    | none ↦ err prompt_registry_required
    | some prompts ↦ validate_references (r ∷ rs) prompts
  ]

  unfoldable pub validate_signature : ArtifactMetadata → Option String → Result (Unit {0})
  validate_signature m none = ok tt
  validate_signature m (some secret) =
      require (truthy m.signature) signature_required
      >> require (verify hashing secret m.hash m.signature (m.artifact_id ∷ m.version ∷ []))
          invalid_signature

  abbrev pub version_of : Option ArtifactMetadata → Option String
  version_of none = none
  version_of (some m) = some m.version

  -- The version check of `register`
  unfoldable pub validate_version :
      ArtifactMetadata → ChangeImpact → GovernanceRegistry → Result (Unit {0})
  unfolding next_version
  validate_version m impact g =
      elim (next_version (version_of (Dict.get g.artifacts m.artifact_id)) impact) [
        | none ↦ err invalid_version
        | some expected ↦ require (m.version == expected) version_mismatch
      ]

  -- The checks of `register`, in their order.
  unfoldable pub validate :
      ArtifactMetadata → ChangeImpact → List ArtifactRef → GovernanceRegistry → Result (Unit {0})
  validate m impact dependencies g =
      validate_dependencies dependencies g
      >> validate_prompt_templates m.prompt_templates g
      >> require (compute_hash hashing (manifest_payload hashing m) == m.hash) hash_mismatch
      >> validate_signature m g.signature_manager
      >> validate_version m impact g

  abbrev pub notify : TelemetryCall → Option (List TelemetryCall) → Option (List TelemetryCall)
  notify call calls = Option.map (λ cs. cs ++ call ∷ []) calls

  abbrev pub ref_of : ArtifactMetadata → ArtifactRef
  ref_of m = record { artifact_id = m.artifact_id; version = m.version; hash = m.hash }

  -- GovernanceRegistry._append_event
  unfoldable pub append_event :
      GovernanceEventType
      → ArtifactMetadata
      → Fields
      → Option String
      → ℕ
      → GovernanceRegistry
      → GovernanceRegistry
  append_event t m payload actor now g =
      let actor_name = if truthy_opt actor then get_or actor "" else m.created_by in
      elim g.event_log [
        | none ↦ g
        | some log ↦ record g {
          event_log = some (log_event codec t (ref_of m) actor_name payload now log).1;
          telemetry =
              notify (record_registry_notification t (ref_of m) actor_name payload) g.telemetry;
        }
      ]

  unfoldable pub publish_payload :
      String → ArtifactMetadata → ChangeImpact → List ArtifactRef → Fields
  unfolding impact_value texts parent_ids
  publish_payload artifact_type m impact dependencies = field "artifact_type" (str artifact_type) (
      field "hash" (str m.hash) (
        field "impact" (str (impact_value impact)) (
          field "version" (str m.version)
            (field "dependencies" (array (texts (sorted (parent_ids dependencies)))) end))))

  -- The manifest and its edges are stored.
  unfoldable pub store :
      ArtifactMetadata → List ArtifactRef → GovernanceRegistry → GovernanceRegistry
  unfolding parent_ids add_to_parents set_default
  store m dependencies g =
      let ids = parent_ids dependencies in
      record g {
        artifacts = Dict.put g.artifacts m.artifact_id m;
        parents = Dict.put g.parents m.artifact_id ids;
        children = set_default m.artifact_id (add_to_parents ids m.artifact_id g.children);
      }

  unfoldable pub published :
      String
      → ArtifactMetadata
      → ChangeImpact
      → List ArtifactRef
      → Option String
      → Option ℕ
      → ℕ
      → GovernanceRegistry
      → GovernanceRegistry
  unfolding store append_event publish_payload
  published artifact_type m impact dependencies actor proposed_at now g =
      let actor' = if truthy_opt actor then actor else some m.created_by in
      let payload = publish_payload artifact_type m impact dependencies in
      let g' = append_event publish_completed m payload actor' now (store m dependencies g) in
      record g' {
        telemetry = notify (record_publish (get_or proposed_at m.created_at) now) g'.telemetry;
      }

  abbrev pub register_if :
      Result (Unit {0})
      → ArtifactMetadata
      → GovernanceRegistry
      → GovernanceRegistry
      → Result ArtifactMetadata × GovernanceRegistry
  register_if (err e) m g g' = (err e, g)
  register_if (ok _) m g g' = (ok m, g')

  -- GovernanceRegistry.register
  unfoldable pub register :
      String
      → ArtifactMetadata
      → ChangeImpact
      → List ArtifactRef
      → Option String
      → Option ℕ
      → ℕ
      → GovernanceRegistry
      → Result ArtifactMetadata × GovernanceRegistry
  register artifact_type m impact dependencies actor proposed_at now g =
      register_if (validate m impact dependencies g) m g
        (published artifact_type m impact dependencies actor proposed_at now g)

  -- GovernanceRegistry.assign_identifier. The sequence is raised before the type is looked up.
  unfoldable pub assign_identifier :
      String → GovernanceRegistry → Result String × GovernanceRegistry
  unfolding new_identifier
  assign_identifier artifact_type g =
      let sequence = get_or (Dict.get g.sequences artifact_type) 0 + 1 in
      (
        new_identifier g.artifact_prefixes artifact_type sequence,
        record g { sequences = Dict.put g.sequences artifact_type sequence },
      )

  -- GovernanceRegistry.get
  unfoldable pub get : String → GovernanceRegistry → Option ArtifactMetadata
  get artifact_id g = Dict.get g.artifacts artifact_id

  unfoldable pub list_by_type : String → GovernanceRegistry → List ArtifactMetadata
  list_by_type artifact_type g =
      keep (λ m. m.artifact_type == artifact_type) (Dict.values g.artifacts)

  -- GovernanceRegistry.dependents and GovernanceRegistry.parents
  unfoldable pub dependents : String → GovernanceRegistry → List String
  dependents artifact_id g = sorted (get_or (Dict.get g.children artifact_id) [])

  unfoldable pub parents_of : String → GovernanceRegistry → List String
  parents_of artifact_id g = sorted (get_or (Dict.get g.parents artifact_id) [])

  -- The edges of one parent, and GovernanceRegistry.lineage_edges
  unfoldable pub edges_to : String → List String → List (String × String)
  edges_to parent [] = []
  edges_to parent (child ∷ children) = (parent, child) ∷ edges_to parent children

  unfoldable pub edges_of : Dict (List String) → List (String × String)
  unfolding edges_to
  edges_of [] = []
  edges_of ((parent, children) ∷ d) = edges_to parent children ++ edges_of d

  unfoldable pub lineage_edges : GovernanceRegistry → List (String × String)
  unfolding edges_of
  lineage_edges g = edges_of g.children

  unfoldable pub edge_items : List (String × String) → Items
  edge_items [] = nil
  edge_items ((parent, child) ∷ es) =
      item (object (field "parent" (str parent) (field "child" (str child) end))) (edge_items es)

  -- GovernanceRegistry.lineage_snapshot
  unfoldable pub lineage_snapshot : GovernanceRegistry → Fields
  unfolding texts edge_items lineage_edges
  lineage_snapshot g =
      field "nodes" (array (texts (sorted (Dict.keys g.artifacts))))
        (field "edges" (array (edge_items (lineage_edges g))) end)

  -- GovernanceRegistry.attach_event_log, attach_prompt_registry and attach_telemetry
  unfoldable pub attach_event_log :
      GovernanceEventLog codec → GovernanceRegistry → GovernanceRegistry
  attach_event_log log g = record g { event_log = some log }

  unfoldable pub attach_prompt_registry : PromptRegistry → GovernanceRegistry → GovernanceRegistry
  attach_prompt_registry prompts g = record g { prompt_registry = some prompts }

  unfoldable pub attach_telemetry : List TelemetryCall → GovernanceRegistry → GovernanceRegistry
  attach_telemetry calls g = record g { telemetry = some calls }
