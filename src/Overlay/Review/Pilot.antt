-- ===== src/Overlay/Review/Pilot.antt =====
-- src/DomainDetermine/overlay/review.py: the view of a reviewer and the pilot. Scores, durations and
-- thresholds are floats of the interpreter, the interface `Measures`; the search for neighbours is an
-- argument.
use domain_determine.Base.{
  ℕ, ◌+◌, String, Bool, true, false, ◌&&◌, Option, none, some, List, [], ◌∷◌, ◌++◌, map, ◌==◌,
  nat_eq, string_eq, nat_beq, if◌then◌else◌, length, truthy,
}
use domain_determine.Base.Dict
use domain_determine.Base.Dict.{Dict}
use domain_determine.Overlay.Models.{
  OverlayNodeState, candidate, published, EvidenceDocument, OverlayNode,
}
use domain_determine.Overlay.Lifecycle.{
  OverlayRegistry, OverlayError, missing_label, Outcome, done, raise, get_node, transition,
}
use domain_determine.Overlay.Review.{
  ReviewWorkbench, Reviewed, rationale_or, registry_error, no_durations, returns, raises,
}

-- What the module does with floats: the quotient of two counts, 1.0, the mean of durations, and two
-- comparisons.
pub record Measures : Type 1 where
  pub Float : Type 0
  pub one : Float
  pub quotient : ℕ → ℕ → Float
  pub mean : Float → List Float → Float
  pub le : Float → Float → Bool

-- The pairs of a label with those behind it, and those of them that agree
unfoldable pub agreements_with : String → List String → ℕ
agreements_with label [] = 0
agreements_with label (other ∷ ls) = (if label == other then 1 else 0) + agreements_with label ls

unfoldable pub agreements_in : List String → ℕ
unfolding agreements_with
agreements_in [] = 0
agreements_in (label ∷ ls) = agreements_with label ls + agreements_in ls

unfoldable pub pairs_in : List String → ℕ
pairs_in [] = 0
pairs_in (label ∷ ls) = length ls + pairs_in ls

abbrev pub pilot_target : Bool → OverlayNodeState
pilot_target true = published
pilot_target false = candidate

abbrev pub pilot_reason : Bool → String
pilot_reason true = "pilot_pass"
pilot_reason false = "pilot_fail"

module _ (measures : Measures) where
  open measures use {Float, one, quotient, mean, le}

  pub record ReviewerView : Type 0 where
    pub overlay_id : String
    pub summary : String
    pub evidence_quotes : List String
    pub sibling_labels : List String
    pub nearest_neighbors : Dict Float

  abbrev pub summary_of : String → Dict String → Outcome String
  summary_of short [] = if truthy short then done short else raise missing_label
  summary_of short ((lang, label) ∷ d) = done (if truthy short then short else label)

  -- ReviewWorkbench.present
  unfoldable pub present :
      (OverlayNode → Dict Float) → String → List String → ReviewWorkbench → Outcome ReviewerView
  unfolding get_node
  present neighbor_search overlay_id sibling_labels w =
      elim (Dict.get w.registry.nodes overlay_id) [
        | none ↦ raise (OverlayError.key_error overlay_id)
        | some node ↦ elim (summary_of node.short_definition node.preferred_labels) [
          | raise e ↦ raise e
          | done summary ↦ done (record {
            overlay_id = overlay_id;
            summary = summary;
            evidence_quotes = map (λ (d : EvidenceDocument). d.text) node.evidence_pack.documents;
            sibling_labels = sibling_labels;
            nearest_neighbors = neighbor_search node;
          })
        ]
      ]

  pub record PilotConfig : Type 0 where
    pub sample_size : ℕ
    pub iaa_threshold : Float
    pub throughput_threshold : Float

  pub record PilotAnnotation : Type 0 where
    pub item_id : String
    pub annotations : List String
    pub durations_seconds : List Float

  pub record PilotResult : Type 0 where
    pub iaa : Float
    pub average_duration : Float
    pub sample_size : ℕ
    pub passes : Bool

  unfoldable pub total_pairs : List PilotAnnotation → ℕ
  unfolding pairs_in
  total_pairs [] = 0
  total_pairs (s ∷ ss) = pairs_in s.annotations + total_pairs ss

  unfoldable pub total_agreements : List PilotAnnotation → ℕ
  unfolding agreements_in
  total_agreements [] = 0
  total_agreements (s ∷ ss) = agreements_in s.annotations + total_agreements ss

  -- _compute_percent_agreement
  unfoldable pub compute_percent_agreement : List PilotAnnotation → Float
  unfolding total_pairs total_agreements
  compute_percent_agreement samples =
      let pairs = total_pairs samples in
      if nat_beq pairs 0 then one else quotient (total_agreements samples) pairs

  unfoldable pub durations : List PilotAnnotation → List Float
  durations [] = []
  durations (s ∷ ss) = s.durations_seconds ++ durations ss

  abbrev pub mean_of : List Float → Option Float
  mean_of [] = none
  mean_of (d ∷ ds) = some (mean d ds)

  abbrev pub pilot_result :
      Outcome OverlayNode → OverlayRegistry → PilotResult → Reviewed PilotResult × OverlayRegistry
  pilot_result (raise e) r result = (raises (registry_error e), r)
  pilot_result (done _) r result = (returns result, r)

  abbrev pub pilot_passes : Float → Float → PilotConfig → Bool
  pilot_passes iaa duration config =
      le config.iaa_threshold iaa && le duration config.throughput_threshold

  -- PilotOrchestrator.run_pilot
  unfoldable pub run_pilot :
      String
      → PilotConfig
      → List PilotAnnotation
      → String
      → Option String
      → ℕ
      → OverlayRegistry
      → Reviewed PilotResult × OverlayRegistry
  unfolding compute_percent_agreement durations rationale_or
  run_pilot overlay_id config samples reviewer_id rationale now r =
      elim (mean_of (durations samples)) [
        | none ↦ (raises no_durations, r)
        | some average ↦
            let iaa = compute_percent_agreement samples in
            let passes = pilot_passes iaa average config in
            let (result, r') =
              transition overlay_id (pilot_target passes) (some reviewer_id)
                (rationale_or rationale (pilot_reason passes)) now r in
            pilot_result result r' (record {
              iaa = iaa;
              average_duration = average;
              sample_size = length samples;
              passes = passes;
            })
      ]
