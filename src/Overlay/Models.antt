-- ===== src/Overlay/Models.antt =====
-- src/DomainDetermine/overlay/models.py. The text forms of times and the digest of a JSON value's
-- canonical text are the standard library's, the interface `Codes`. A tuple in a dict is a JSON array,
-- as json.dumps writes it. `to_plan_row` belongs to the coverage planner and is left out.
use domain_determine.Base.{
  ℕ, String, Bool, true, false, ◌&&◌, Option, none, some, List, [], ◌∷◌, nat_eq, string_eq,
  if◌then◌else◌, get_or, contains, truthy_opt,
}
use domain_determine.Base.Dict.{Dict}
use domain_determine.Base.Int.{ℤ}
use domain_determine.Base.Json.{
  Json, Fields, Items, null, number, str, array, object, nil, item, end, field,
}

pub data OverlayNodeState : Type 0 where
  candidate approved published deprecated : OverlayNodeState

-- state.value
unfoldable pub state_value : OverlayNodeState → String
state_value candidate = "candidate"
state_value approved = "approved"
state_value published = "published"
state_value deprecated = "deprecated"

pub record Codes : Type 0 where
  -- hashlib.sha256(json.dumps(_, sort_keys=True).encode()).hexdigest()
  pub digest : Json → String
  -- _.strftime(ISO_TIME_FORMAT)
  pub strftime : ℕ → String

pub record EvidenceDocument : Type 0 where
  pub source_id : String
  pub text : String
  pub start_offset : Option ℤ
  pub end_offset : Option ℤ

abbrev pub offset : Option ℤ → Json
offset none = null
offset (some n) = number n

abbrev pub optional : Option String → Json
optional none = null
optional (some s) = str s

-- EvidenceDocument.as_serializable
unfoldable pub as_serializable : EvidenceDocument → Json
as_serializable d = object (
    field "source_id" (str d.source_id) (
      field "text" (str d.text) (
        field "start_offset" (offset d.start_offset)
          (field "end_offset" (offset d.end_offset) end))))

pub record EvidencePack : Type 0 where
  pub documents : List EvidenceDocument
  pub policy_notes : List String

unfoldable pub serialized_documents : List EvidenceDocument → Items
unfolding as_serializable
serialized_documents [] = nil
serialized_documents (d ∷ ds) = item (as_serializable d) (serialized_documents ds)

unfoldable pub text_items : List String → Items
text_items [] = nil
text_items (s ∷ ss) = item (str s) (text_items ss)

unfoldable pub label_fields : Dict String → Fields
label_fields [] = end
label_fields ((lang, label) ∷ d) = field lang (str label) (label_fields d)

unfoldable pub alt_fields : Dict (List String) → Fields
unfolding text_items
alt_fields [] = end
alt_fields ((lang, labels) ∷ d) = field lang (array (text_items labels)) (alt_fields d)

pub record OverlayProvenance : Type 0 where
  pub kos_snapshot_id : String
  pub prompt_template_hash : String
  pub evidence_pack_hash : String
  pub llm_model_ref : Option String
  pub created_by : String
  pub created_at : ℕ

pub record OverlayNode : Type 0 where
  pub overlay_id : String
  pub base_concept_id : String
  pub state : OverlayNodeState
  pub preferred_labels : Dict String
  pub alt_labels : Dict (List String)
  pub short_definition : String
  pub long_definition : Option String
  pub examples : List String
  pub difficulty : String
  pub jurisdiction_tags : List String
  pub evidence_pack : EvidencePack
  pub provenance : OverlayProvenance
  pub coverage_plan_links : List String
  pub prompt_hash : Option String
  pub nearest_concept_id : Option String

-- OverlayNode.with_state
unfoldable pub with_state : OverlayNodeState → OverlayNode → OverlayNode
with_state state node = record {
  overlay_id = node.overlay_id;
  base_concept_id = node.base_concept_id;
  state = state;
  preferred_labels = node.preferred_labels;
  alt_labels = node.alt_labels;
  short_definition = node.short_definition;
  long_definition = node.long_definition;
  examples = node.examples;
  difficulty = node.difficulty;
  jurisdiction_tags = node.jurisdiction_tags;
  evidence_pack = node.evidence_pack;
  provenance = node.provenance;
  coverage_plan_links = node.coverage_plan_links;
  prompt_hash = node.prompt_hash;
  nearest_concept_id = node.nearest_concept_id;
}

pub record OverlayLifecycleEvent : Type 0 where
  pub overlay_id : String
  pub from_state : OverlayNodeState
  pub to_state : OverlayNodeState
  pub reviewer_id : Option String
  pub rationale : Option String
  pub timestamp : ℕ

pub record OverlayManifestEntry : Type 0 where
  pub overlay_id : String
  pub base_concept_id : String
  pub kos_snapshot_id : String
  pub coverage_plan_ids : List String
  pub provenance : Fields
  pub lifecycle_events : List Fields
  pub content_hash : String
  pub governance : Fields

pub record OverlayManifest : Type 0 where
  pub version : String
  pub nodes : List OverlayManifestEntry
  pub generated_at : ℕ

-- coverage_planner/models.py
pub data RiskTier : Type 0 where
  low medium high : RiskTier

pub record OverlayCoverageDelta : Type 0 where
  pub overlay_id : String
  pub coverage_plan_id : String
  pub concept_id : String
  pub preferred_label : String
  pub difficulty : String
  pub planned_quota : ℤ
  pub provenance : Fields
  pub risk_tier : RiskTier

pub record PolicyGuardrail : Type 0 where
  pub forbidden_categories : List String
  pub restricted_jurisdictions : List String

-- PolicyGuardrail.allows
unfoldable pub guardrail_allows : PolicyGuardrail → String → Option String → Bool
unfolding contains
guardrail_allows g topic jurisdiction =
    if contains g.forbidden_categories topic
    then false
    else if truthy_opt jurisdiction && contains g.restricted_jurisdictions (get_or jurisdiction "")
    then false
    else true

module _ (codes : Codes) where
  open codes use {digest, strftime}

  -- EvidencePack.content_hash
  unfoldable pub pack_hash : EvidencePack → String
  unfolding serialized_documents text_items
  pack_hash pack = digest (
      object (
        field "documents" (array (serialized_documents pack.documents))
          (field "policy_notes" (array (text_items pack.policy_notes)) end)))

  -- OverlayProvenance.as_dict
  unfoldable pub provenance_dict : OverlayProvenance → Fields
  provenance_dict p = field "kos_snapshot_id" (str p.kos_snapshot_id) (
      field "prompt_template_hash" (str p.prompt_template_hash) (
        field "evidence_pack_hash" (str p.evidence_pack_hash) (
          field "llm_model_ref" (optional p.llm_model_ref) (
            field "created_by" (str p.created_by)
              (field "created_at" (str (strftime p.created_at)) end)))))

  unfoldable pub record_tail : OverlayNode → Fields
  unfolding pack_hash provenance_dict text_items
  record_tail n = field "examples" (array (text_items n.examples)) (
      field "difficulty" (str n.difficulty) (
        field "jurisdiction_tags" (array (text_items n.jurisdiction_tags)) (
          field "evidence_pack_hash" (str (pack_hash n.evidence_pack)) (
            field "provenance" (object (provenance_dict n.provenance)) (
              field "coverage_plan_links" (array (text_items n.coverage_plan_links)) (
                field "prompt_hash" (optional n.prompt_hash)
                  (field "nearest_concept_id" (optional n.nearest_concept_id) end)))))))

  unfoldable pub labelled : OverlayNode → Fields
  unfolding label_fields alt_fields record_tail
  labelled n = field "preferred_labels" (object (label_fields n.preferred_labels)) (
      field "alt_labels" (object (alt_fields n.alt_labels)) (
        field "short_definition" (str n.short_definition)
          (field "long_definition" (optional n.long_definition) (record_tail n))))

  -- OverlayNode.to_module1_record
  unfoldable pub to_module1_record : OverlayNode → Fields
  unfolding labelled state_value
  to_module1_record n = field "overlay_id" (str n.overlay_id) (
      field "base_concept_id" (str n.base_concept_id)
        (field "state" (str (state_value n.state)) (labelled n)))

  -- OverlayLifecycleEvent.as_dict
  unfoldable pub event_dict : OverlayLifecycleEvent → Fields
  unfolding state_value
  event_dict e = field "overlay_id" (str e.overlay_id) (
      field "from_state" (str (state_value e.from_state)) (
        field "to_state" (str (state_value e.to_state)) (
          field "reviewer_id" (optional e.reviewer_id) (
            field "rationale" (optional e.rationale)
              (field "timestamp" (str (strftime e.timestamp)) end)))))
