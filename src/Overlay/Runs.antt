-- ===== src/Overlay/Runs.antt =====
-- Registration, review and quality gates on small inputs.
use domain_determine.Base.{
  ℕ, ◌*◌, ◌/◌, ◌≤◌, String, ◌≡◌, ◌⊎◌, refl, true, false, not, ◌&&◌, ◌||◌, none, some, List, [], ◌∷◌,
  ◌++◌, ◌==◌, nat_eq, string_eq, if◌then◌else◌, ltb, leb, every, contains, subset, show, truthy,
}
use domain_determine.Base.Dict
use domain_determine.Base.Dict.{Dict}
use domain_determine.Overlay.Models.{candidate, approved, OverlayNode, with_state, EvidencePack}
use domain_determine.Overlay.Lifecycle.{
  OverlayRegistry, OverlayError, done, raise, lifecycle_events, same_state, transition,
}
use domain_determine.Overlay.Lifecycle.States.{rank}
use domain_determine.Overlay.Minting
use domain_determine.Overlay.Minting.{
  Candidate, new_node, blocked, generate, identifier, slugify, register_candidate,
}
use domain_determine.Overlay.Minting.Identifiers.{generate_total}
use domain_determine.Overlay.Minting.Registration.{registered, register_candidate_lem}
use domain_determine.Overlay.Review.{
  ReviewWorkbench, ReviewError, reject, target, returns, raises, is_accept, submit_decision,
  registry_error, reason_for,
}
use domain_determine.Overlay.Review.Pilot.{
  Measures, PilotConfig, PilotAnnotation, mean_of, durations, compute_percent_agreement,
  pilot_passes, run_pilot,
}
use domain_determine.Overlay.Review.Decisions.{
  record_of, may_take, submit_decision_lem, is_returned, run_pilot_lem,
}
use domain_determine.Overlay.Quality.{
  Library, QualityConfig, label_length, sources_of, first_letter, starts_well,
  duplicate_conflict_score, run_quality_gates,
}
use domain_determine.Overlay.Quality.Gates.{is_passed, is_tagged, run_quality_gates_lem}

abbrev pack : EvidencePack
pack = record {
  documents = record { source_id = "s1"; text = "x"; start_offset = none; end_offset = none } ∷ [];
  policy_notes = [];
}

abbrev proposal : Candidate
proposal = record {
  base_concept_id = "c1";
  preferred_labels = ("en", "income tax!") ∷ [];
  alt_labels = none;
  short_definition = "d";
  long_definition = none;
  examples = [];
  difficulty = "easy";
  jurisdiction_tags = "de" ∷ [];
  evidence_pack = pack;
  provenance = record {
    kos_snapshot_id = "k";
    prompt_template_hash = "p";
    evidence_pack_hash = "e";
    llm_model_ref = none;
    created_by = "ann";
    created_at = 1;
  };
  nearest_concept_id = none;
  explicit_overlay_id = none;
  prompt_hash = none;
}

abbrev same_text : String → String
same_text s = s

abbrev empty_overlay : OverlayRegistry
empty_overlay = record {
  namespace = "overlay";
  issued = [];
  nodes = [];
  events = [];
  policy_guardrail = record { forbidden_categories = []; restricted_jurisdictions = "fr" ∷ [] };
}

abbrev proposed : OverlayRegistry
proposed = (register_candidate same_text proposal 1 empty_overlay).1

-- Punctuation becomes one dash, and none at the ends.
a_slug : slugify same_text "--income   tax!" ≡ "income-tax"
unfolding slugify Minting.dashed Minting.is_slug_char Minting.left_stripped Minting.right_stripped
    Minting.single_dashes
a_slug = refl

generate_total_example :
    (id : String) × (generate 3 "overlay" "tax" 0 ("overlay:tax" ∷ "overlay:tax-1" ∷ []) ≡ some id)
    × (contains ("overlay:tax" ∷ "overlay:tax-1" ∷ []) id ≡ false)
generate_total_example = generate_total "overlay" "tax" ("overlay:tax" ∷ "overlay:tax-1" ∷ [])

-- The third identifier has the counter 2.
third : generate 3 "overlay" "tax" 0 ("overlay:tax" ∷ "overlay:tax-1" ∷ []) ≡ some "overlay:tax-2"
unfolding generate identifier contains show
third = refl

register_candidate_lem_example :
    let (result, r') = register_candidate same_text proposal 1 empty_overlay in
    ((id : String) × (result ≡ done (new_node id proposal))
      × (contains empty_overlay.issued id ≡ false)
      × (Dict.get empty_overlay.nodes id ≡ none)
      × (blocked empty_overlay.policy_guardrail "c1" ("de" ∷ []) ≡ none)
      × ((k : String)
          → Dict.get r'.nodes k
            ≡ (if id == k then some (new_node id proposal) else Dict.get empty_overlay.nodes k))
      × (lifecycle_events id r' ≡ lifecycle_events id empty_overlay ++ registered id 1 ∷ [])
      × (r'.issued ≡ id ∷ empty_overlay.issued))
    ⊎ ((e : OverlayError) × (result ≡ raise e)
        × (r'.nodes ≡ empty_overlay.nodes)
        × (r'.events ≡ empty_overlay.events)
        × ((k : String) → (not (contains empty_overlay.issued k) || contains r'.issued k) ≡ true))
register_candidate_lem_example = register_candidate_lem same_text proposal 1 empty_overlay

abbrev tax_node : OverlayNode
tax_node = new_node "overlay:income-tax" proposal

abbrev with_node : OverlayRegistry
with_node = record empty_overlay {
  issued = "overlay:income-tax" ∷ [];
  nodes = ("overlay:income-tax", tax_node) ∷ [];
}

abbrev bench : ReviewWorkbench
bench = record { registry = with_node; records = [] }

submit_decision_lem_example :
    let (result, w') = submit_decision "overlay:income-tax" "bob" reject none 2 bench in
    let record' = record_of "overlay:income-tax" "bob" reject none 2 bench in
    ((node : OverlayNode) × (Dict.get with_node.nodes "overlay:income-tax" ≡ some node)
      × (may_take reject (same_state node.state candidate) (truthy "bob") ≡ true)
      × (result ≡ returns record')
      × (w'.records ≡ [] ++ record' ∷ [])
      × (w'.registry
          ≡ (transition "overlay:income-tax"
              (target reject)
              (some "bob")
              (reason_for reject none)
              2
              with_node).1)
      × (Dict.get w'.registry.nodes "overlay:income-tax" ≡ some (with_state (target reject) node))
      × (rank node.state ≤ rank (target reject))
      × ((not (is_accept reject) || same_state node.state candidate) ≡ true))
    ⊎ (((node : OverlayNode) × (Dict.get with_node.nodes "overlay:income-tax" ≡ some node)
          × (may_take reject (same_state node.state candidate) (truthy "bob") ≡ false)
          × (e : ReviewError) × (result ≡ raises e)
          × (w' ≡ bench))
        ⊎ ((Dict.get with_node.nodes "overlay:income-tax" ≡ none)
            × (result ≡ raises (registry_error (OverlayError.key_error "overlay:income-tax")))
            × (w' ≡ bench)))
submit_decision_lem_example = submit_decision_lem "overlay:income-tax" "bob" reject none 2 bench

-- Whole numbers for floats, in per cent.
abbrev percents : Measures
percents = record {
  Float = ℕ;
  one = 100;
  quotient = λ m n. m * 100 / n;
  mean = λ d ds. d;
  le = leb;
}

abbrev pilot_config : PilotConfig percents
pilot_config = record { sample_size = 1; iaa_threshold = 80; throughput_threshold = 60 }

abbrev samples : List (PilotAnnotation percents)
samples =
    record { item_id = "i"; annotations = "yes" ∷ "no" ∷ []; durations_seconds = 30 ∷ [] } ∷ []

abbrev approved_node : OverlayNode
approved_node = record tax_node { state = approved }

abbrev with_approved : OverlayRegistry
with_approved = record with_node { nodes = ("overlay:income-tax", approved_node) ∷ [] }

approved_is_there : Dict.get with_approved.nodes "overlay:income-tax" ≡ some approved_node
unfolding Dict.get new_node
approved_is_there = refl

has_duration : mean_of percents (durations percents samples) ≡ some 30
unfolding durations
has_duration = refl

run_pilot_lem_example :
    is_returned
      (run_pilot percents "overlay:income-tax" pilot_config samples "bob" none 3 with_approved).0
    ≡ (if pilot_passes percents (compute_percent_agreement percents samples) 30 pilot_config
        then true
        else false)
unfolding same_state new_node
run_pilot_lem_example =
    run_pilot_lem percents "overlay:income-tax" "bob" pilot_config samples none 3 with_approved
      approved_node 30 approved_is_there has_duration

abbrev ascii : Library
ascii = record {
  Float = ℕ;
  zero = 0;
  ratio = λ s t. if s == t then 100 else 0;
  gt = λ m n. ltb n m;
  is_alpha = λ c. true;
  is_upper = λ c. true;
}

abbrev gates : QualityConfig ascii
gates = record { duplicate_threshold = 85; max_label_length = 120; enforce_language_labels = true }

run_quality_gates_lem_example :
    is_passed
      (run_quality_gates ascii (("en", "Tax") ∷ []) "Tax" ("Duty" ∷ []) pack ("s1" ∷ []) gates)
    ≡ ((not true || every is_tagged (("en", "Tax") ∷ []))
        && (truthy "Tax"
            && (leb (label_length "Tax") 120
                && (starts_well ascii (first_letter ascii "Tax")
                    && (not (ltb 85 (duplicate_conflict_score ascii "Tax" ("Duty" ∷ [])))
                        && subset ("s1" ∷ []) (sources_of pack))))))
run_quality_gates_lem_example =
    run_quality_gates_lem ascii (("en", "Tax") ∷ []) "Tax" ("Duty" ∷ []) pack ("s1" ∷ []) gates
