-- ===== src/Overlay/Lifecycle.antt =====
-- src/DomainDetermine/overlay/lifecycle.py: `OverlayRegistry` and `OverlayIdGenerator`. The slug of a
-- label comes from the Unicode tables, so `slugify` is a parameter. `now` is the clock's reading.
pub mod States
use domain_determine.Base.{
  ℕ, zero, suc, ◌+◌, ◌-◌, ◌*◌, ◌/◌, ◌%◌, ◌≤◌, ◌<◌, String, ◌≡◌, ◌≢◌, ◌↔◌, ◌⊎◌, inl, inr, refl, sym,
  ap, ◌∙◌, Bool, true, false, not, ◌&&◌, ◌||◌, Option, none, some, List, [], ◌∷◌, ◌++◌, map, arith,
  Eq, ◌==◌, nat_eq, string_eq, nat_beq, eq_of_discrete, if◌then◌else◌, ltb, leb, is_some, get_or,
  Bool-cases, Option-cases, length, keep, every, some_of, contains, add, to_set, subset, meets,
  insert_sorted, sorted, text_le, All, length-append, contains-append, contains-add,
  contains-to_set, contains_of_subset, subset_mono, contains-sorted, show, ◌<>◌, emit, digit, value,
  code-digit, value-show, show-injective, numbered-injective, truthy, truthy_opt, is_space,
  strip_left, strip_right, strip, prepend, split, split_once, eq_iff,
}
use domain_determine.Base.Dict
use domain_determine.Base.Dict.{Dict}
use domain_determine.Base.Int.{ℤ}
use domain_determine.Base.Json.{Json, Fields, str, object, end, field}
use domain_determine.Overlay.Models.{
  OverlayNodeState, candidate, approved, published, deprecated, Codes, EvidencePack,
  OverlayProvenance, OverlayNode, with_state, OverlayLifecycleEvent, OverlayManifestEntry,
  OverlayManifest, RiskTier, low, medium, high, OverlayCoverageDelta, PolicyGuardrail,
  guardrail_allows, provenance_dict, labelled, to_module1_record, event_dict,
}

-- `missing_label` is the StopIteration of a node without labels.
pub data OverlayError : Type 0 where
  key_error : String → OverlayError
  identifier_collision : String → OverlayError
  invalid_transition : (from_state to_state : OverlayNodeState) → OverlayError
  reviewer_required : OverlayNodeState → OverlayError
  policy_violation : (jurisdiction concept : String) → OverlayError
  not_published : String → OverlayError
  unknown_risk_tier : String → OverlayError
  missing_label : OverlayError

pub data Outcome {ℓ} (A : Type ℓ) : Type ℓ where
  done : A → Outcome A
  raise : OverlayError → Outcome A

pub record OverlayRegistry : Type 0 where
  pub namespace : String
  pub issued : List String
  pub nodes : Dict OverlayNode
  pub events : Dict (List OverlayLifecycleEvent)
  pub policy_guardrail : PolicyGuardrail

-- from_state == to_state
unfoldable pub same_state : OverlayNodeState → OverlayNodeState → Bool
same_state candidate candidate = true
same_state approved approved = true
same_state published published = true
same_state deprecated deprecated = true
same_state _ _ = false

-- The table of OverlayRegistry._assert_transition
unfoldable pub in_table : OverlayNodeState → OverlayNodeState → Bool
in_table candidate approved = true
in_table candidate deprecated = true
in_table approved published = true
in_table approved deprecated = true
in_table published deprecated = true
in_table _ _ = false

unfoldable pub assert_transition : OverlayNodeState → OverlayNodeState → Outcome (Unit {0})
unfolding same_state in_table
assert_transition from_state to_state =
    if same_state from_state to_state
    then done tt
    else if in_table from_state to_state
    then done tt
    else raise (invalid_transition from_state to_state)

-- to_state in {APPROVED, PUBLISHED, DEPRECATED}
unfoldable pub needs_reviewer : OverlayNodeState → Bool
needs_reviewer candidate = false
needs_reviewer _ = true

-- self._events[overlay_id].append(event), on a defaultdict
unfoldable pub append_lifecycle : String → OverlayLifecycleEvent → OverlayRegistry → OverlayRegistry
append_lifecycle overlay_id event r = record r {
  events = Dict.put r.events overlay_id (get_or (Dict.get r.events overlay_id) [] ++ event ∷ []);
}

-- The node and the event of a transition that is allowed.
unfoldable pub moved :
    OverlayNode
    → String
    → OverlayNodeState
    → Option String
    → Option String
    → ℕ
    → OverlayRegistry
    → OverlayRegistry
unfolding with_state append_lifecycle
moved node overlay_id to_state reviewer_id rationale now r =
    append_lifecycle overlay_id
      (record {
        overlay_id = overlay_id;
        from_state = node.state;
        to_state = to_state;
        reviewer_id = reviewer_id;
        rationale = rationale;
        timestamp = now;
      })
      (record r { nodes = Dict.put r.nodes overlay_id (with_state to_state node) })

abbrev pub transition_if :
    Outcome (Unit {0})
    → Bool
    → OverlayNode
    → OverlayNodeState
    → OverlayRegistry
    → OverlayRegistry
    → Outcome OverlayNode × OverlayRegistry
transition_if (raise e) ready node to_state r r' = (raise e, r)
transition_if (done _) false node to_state r r' = (raise (reviewer_required to_state), r)
transition_if (done _) true node to_state r r' = (done (with_state to_state node), r')

-- OverlayRegistry.transition
unfoldable pub transition :
    String
    → OverlayNodeState
    → Option String
    → Option String
    → ℕ
    → OverlayRegistry
    → Outcome OverlayNode × OverlayRegistry
transition overlay_id to_state reviewer_id rationale now r = elim (Dict.get r.nodes overlay_id) [
  | none ↦ (raise (key_error overlay_id), r)
  | some node ↦
      transition_if (assert_transition node.state to_state)
        (not (needs_reviewer to_state) || truthy_opt reviewer_id) node to_state r
        (moved node overlay_id to_state reviewer_id rationale now r)
]

-- OverlayRegistry.get
unfoldable pub get_node : String → OverlayRegistry → Outcome OverlayNode
get_node overlay_id r = elim (Dict.get r.nodes overlay_id) [
  | none ↦ raise (key_error overlay_id)
  | some node ↦ done node
]

-- OverlayRegistry.iter_nodes
unfoldable pub iter_nodes : Option (List OverlayNodeState) → OverlayRegistry → List OverlayNode
unfolding same_state some_of
iter_nodes none r = Dict.values r.nodes
iter_nodes (some states) r =
    keep (λ node. some_of (λ s. same_state s node.state) states) (Dict.values r.nodes)

-- The node with its links changed; the other fields are copied.
unfoldable pub with_links : List String → OverlayNode → OverlayNode
with_links links node = record node { coverage_plan_links = links }

-- OverlayRegistry.attach_coverage_plan
unfoldable pub attach_coverage_plan :
    String → String → OverlayRegistry → Outcome (Unit {0}) × OverlayRegistry
unfolding with_links
attach_coverage_plan overlay_id coverage_plan_id r = elim (Dict.get r.nodes overlay_id) [
  | none ↦ (raise (key_error overlay_id), r)
  | some node ↦
      let links = sorted (add (to_set node.coverage_plan_links) coverage_plan_id) in
      (done tt, record r { nodes = Dict.put r.nodes overlay_id (with_links links node) })
]

-- OverlayRegistry.lifecycle_events
unfoldable pub lifecycle_events : String → OverlayRegistry → List OverlayLifecycleEvent
lifecycle_events overlay_id r = get_or (Dict.get r.events overlay_id) []

-- _parse_risk_tier
unfoldable pub parse_risk_tier : String → Outcome RiskTier
parse_risk_tier value =
    if value == "low"
    then done low
    else if value == "medium"
    then done medium
    else if value == "high"
    then done high
    else raise (unknown_risk_tier value)

-- OverlayIdGenerator.reserve
unfoldable pub reserve : String → List String → Outcome (List String)
reserve overlay_id issued =
    if contains issued overlay_id
    then raise (identifier_collision overlay_id)
    else done (overlay_id ∷ issued)

module _ (codes : Codes) where
  open codes use {digest}

  abbrev pub first_label : Dict String → Outcome String
  first_label [] = raise missing_label
  first_label ((lang, label) ∷ d) = done label

  abbrev pub delta_of :
      OverlayNode
      → String
      → String
      → ℤ
      → Outcome String
      → Outcome RiskTier
      → Outcome OverlayCoverageDelta
  delta_of node overlay_id coverage_plan_id planned_quota (raise e) tier = raise e
  delta_of node overlay_id coverage_plan_id planned_quota (done label) (raise e) = raise e
  delta_of node overlay_id coverage_plan_id planned_quota (done label) (done tier) = done (record {
    overlay_id = overlay_id;
    coverage_plan_id = coverage_plan_id;
    concept_id = node.base_concept_id;
    preferred_label = label;
    difficulty = node.difficulty;
    planned_quota = planned_quota;
    provenance = provenance_dict codes node.provenance;
    risk_tier = tier;
  })

  -- OverlayRegistry.build_coverage_delta. The plan is attached before the label and the tier are read.
  unfoldable pub build_coverage_delta :
      String
      → String
      → ℤ
      → String
      → OverlayRegistry
      → Outcome OverlayCoverageDelta × OverlayRegistry
  unfolding same_state attach_coverage_plan parse_risk_tier
  build_coverage_delta overlay_id coverage_plan_id planned_quota risk_tier r =
      elim (Dict.get r.nodes overlay_id) [
        | none ↦ (raise (key_error overlay_id), r)
        | some node ↦
            if same_state node.state published
            then (
              delta_of node overlay_id coverage_plan_id planned_quota
                  (first_label node.preferred_labels) (parse_risk_tier risk_tier),
              (attach_coverage_plan overlay_id coverage_plan_id r).1,
            )
            else (raise (not_published overlay_id), r)
      ]

  -- _manifest_entry_hash: the record without its state
  unfoldable pub manifest_entry_hash : OverlayNode → String
  unfolding labelled
  manifest_entry_hash n = digest (
      object (
        field "overlay_id" (str n.overlay_id)
          (field "base_concept_id" (str n.base_concept_id) (labelled codes n))))

  unfoldable pub entry_of : Dict Fields → OverlayRegistry → OverlayNode → OverlayManifestEntry
  unfolding manifest_entry_hash event_dict provenance_dict lifecycle_events
  entry_of governance_registry r node = record {
    overlay_id = node.overlay_id;
    base_concept_id = node.base_concept_id;
    kos_snapshot_id = node.provenance.kos_snapshot_id;
    coverage_plan_ids = node.coverage_plan_links;
    provenance = provenance_dict codes node.provenance;
    lifecycle_events = map (event_dict codes) (lifecycle_events node.overlay_id r);
    content_hash = manifest_entry_hash node;
    governance = get_or (Dict.get governance_registry node.overlay_id) end;
  }

  -- OverlayRegistry.build_manifest
  unfoldable pub build_manifest : String → Dict Fields → ℕ → OverlayRegistry → OverlayManifest
  unfolding entry_of
  build_manifest version governance_registry now r = record {
    version = version;
    nodes = map (entry_of governance_registry r) (Dict.values r.nodes);
    generated_at = now;
  }

  -- OverlayRegistry.export_for_module1
  unfoldable pub export_for_module1 : OverlayRegistry → List Fields
  unfolding to_module1_record
  export_for_module1 r = map (to_module1_record codes) (Dict.values r.nodes)
