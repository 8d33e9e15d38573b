-- ===== src/Overlay/Tests.antt =====
-- The overlay registry on a small input.
use domain_determine.Base.{
  ◌≤◌, String, ◌≡◌, ◌⊎◌, refl, true, not, ◌||◌, none, some, [], ◌∷◌, ◌++◌, ◌==◌, nat_eq, string_eq,
  if◌then◌else◌, truthy_opt,
}
use domain_determine.Base.Dict
use domain_determine.Base.Dict.{Dict}
use domain_determine.Overlay.Models.{candidate, approved, OverlayNode, with_state}
use domain_determine.Overlay.Lifecycle
use domain_determine.Overlay.Lifecycle.{
  OverlayRegistry, OverlayError, Outcome, done, raise, invalid_transition, same_state, in_table,
  assert_transition, needs_reviewer, transition, attach_coverage_plan, lifecycle_events,
}
use domain_determine.Overlay.Lifecycle.States.{
  rank, event_of, transition_lem, none_yet, then_change, transitions, attaches, Onward,
  Changes-Onward,
}

abbrev node : OverlayNode
node = record {
  overlay_id = "overlay:tax";
  base_concept_id = "c1";
  state = candidate;
  preferred_labels = ("en", "tax") ∷ [];
  alt_labels = [];
  short_definition = "d";
  long_definition = none;
  examples = [];
  difficulty = "easy";
  jurisdiction_tags = [];
  evidence_pack = record { documents = []; policy_notes = [] };
  provenance = record {
    kos_snapshot_id = "k";
    prompt_template_hash = "p";
    evidence_pack_hash = "e";
    llm_model_ref = none;
    created_by = "ann";
    created_at = 1;
  };
  coverage_plan_links = [];
  prompt_hash = none;
  nearest_concept_id = none;
}

abbrev one_node : OverlayRegistry
one_node = record {
  namespace = "overlay";
  issued = "overlay:tax" ∷ [];
  nodes = ("overlay:tax", node) ∷ [];
  events = [];
  policy_guardrail = record { forbidden_categories = []; restricted_jurisdictions = [] };
}

abbrev after_approval : OverlayRegistry
after_approval = (transition "overlay:tax" approved (some "bob") none 2 one_node).1

abbrev after_link : OverlayRegistry
after_link = (attach_coverage_plan "overlay:tax" "plan-1" after_approval).1

node_is_stored : Dict.get one_node.nodes "overlay:tax" ≡ some node
unfolding Dict.get
node_is_stored = refl

-- An approved node cannot go back to a candidate.
no_way_back :
    (transition "overlay:tax" candidate (some "bob") none 3 after_approval).0
    ≡ raise (invalid_transition approved candidate)
unfolding transition assert_transition same_state in_table needs_reviewer with_state Dict.get
    Dict.put Lifecycle.moved Lifecycle.append_lifecycle
no_way_back = refl

transition_lem_example :
    let (result, r') = transition "overlay:tax" approved (some "bob") none 2 one_node in
    ((old : OverlayNode) × (Dict.get one_node.nodes "overlay:tax" ≡ some old)
      × (result ≡ done (with_state approved old))
      × (rank old.state ≤ rank approved)
      × ((not (needs_reviewer approved) || truthy_opt (some "bob")) ≡ true)
      × ((k : String)
          → Dict.get r'.nodes k ≡ (
              if "overlay:tax" == k
              then some (with_state approved old)
              else Dict.get one_node.nodes k))
      × (lifecycle_events "overlay:tax" r'
          ≡ lifecycle_events "overlay:tax" one_node
            ++ event_of "overlay:tax" old.state approved (some "bob") none 2 ∷ []))
    ⊎ ((e : OverlayError) × (result ≡ raise e) × (r' ≡ one_node))
transition_lem_example = transition_lem "overlay:tax" approved (some "bob") none 2 one_node

Changes-Onward_example : Onward (Dict.get after_link.nodes "overlay:tax") (rank candidate)
Changes-Onward_example = Changes-Onward "overlay:tax" node node_is_stored (
    then_change (then_change none_yet (transitions "overlay:tax" approved (some "bob") none 2))
      (attaches "overlay:tax" "plan-1"))
