-- ===== src/Overlay/Review.antt =====
-- src/DomainDetermine/overlay/review.py: the decisions of reviewers and the migration plans.
pub mod Pilot
pub mod Decisions
use domain_determine.Base.{
  ℕ, zero, suc, ◌+◌, ◌-◌, ◌*◌, ◌/◌, ◌%◌, ◌≤◌, ◌<◌, String, ◌≡◌, ◌≢◌, ◌↔◌, ◌⊎◌, inl, inr, refl, sym,
  ap, ◌∙◌, Bool, true, false, not, ◌&&◌, ◌||◌, Option, none, some, List, [], ◌∷◌, ◌++◌, map, arith,
  Eq, ◌==◌, nat_eq, string_eq, nat_beq, eq_of_discrete, if◌then◌else◌, ltb, leb, is_some, get_or,
  Bool-cases, Option-cases, absurd_bool, none_some, some_inj, or_left, or_right, length, keep,
  every, some_of, contains, add, to_set, subset, meets, insert_sorted, sorted, text_le, All,
  length-append, contains-append, contains-add, contains-to_set, contains_of_subset, subset_mono,
  contains-sorted, show, ◌<>◌, emit, digit, value, code-digit, value-show, show-injective,
  numbered-injective, truthy, truthy_opt, is_space, strip_left, strip_right, strip, prepend, split,
  split_once, eq_iff,
}
use domain_determine.Base.Dict
use domain_determine.Base.Dict.{Dict}
use domain_determine.Overlay.Models.{
  OverlayNodeState, candidate, approved, published, deprecated, EvidenceDocument, OverlayNode,
}
use domain_determine.Overlay.Lifecycle.{
  OverlayRegistry, OverlayError, missing_label, Outcome, done, raise, get_node, same_state,
  transition,
}

pub data ReviewDecision : Type 0 where
  accept revise reject : ReviewDecision

pub record ReviewRecord : Type 0 where
  pub overlay_id : String
  pub reviewer_id : String
  pub decision : ReviewDecision
  pub rationale : Option String

-- ReviewWorkbench: its registry and its records
pub record ReviewWorkbench : Type 0 where
  pub registry : OverlayRegistry
  pub records : List ReviewRecord

-- What a method of this module raises: an error of the registry, "Only candidate nodes can be accepted",
-- or the StatisticsError of a mean without data.
pub data ReviewError : Type 0 where
  registry_error : OverlayError → ReviewError
  only_candidates no_durations : ReviewError

pub data Reviewed {ℓ} (A : Type ℓ) : Type ℓ where
  returns : A → Reviewed A
  raises : ReviewError → Reviewed A

-- rationale or default
unfoldable pub rationale_or : Option String → String → Option String
rationale_or rationale default = if truthy_opt rationale then rationale else some default

-- The state and the rationale of the transition that a decision asks for
unfoldable pub target : ReviewDecision → OverlayNodeState
target accept = approved
target revise = candidate
target reject = deprecated

unfoldable pub reason_for : ReviewDecision → Option String → Option String
unfolding rationale_or
reason_for accept rationale = rationale
reason_for revise rationale = rationale_or rationale "revision_requested"
reason_for reject rationale = rationale_or rationale "rejected"

abbrev pub is_accept : ReviewDecision → Bool
is_accept accept = true
is_accept _ = false

abbrev pub record_decision :
    Outcome OverlayNode
    → OverlayRegistry
    → ReviewRecord
    → ReviewWorkbench
    → Reviewed ReviewRecord × ReviewWorkbench
record_decision (raise e) r record' w = (raises (registry_error e), record w { registry = r })
record_decision (done _) r record' w =
    (returns record', record { registry = r; records = w.records ++ record' ∷ [] })

-- ReviewWorkbench.submit_decision
unfoldable pub submit_decision :
    String
    → String
    → ReviewDecision
    → Option String
    → ℕ
    → ReviewWorkbench
    → Reviewed ReviewRecord × ReviewWorkbench
unfolding same_state target reason_for
submit_decision overlay_id reviewer_id decision rationale now w =
    elim (get_node overlay_id w.registry) [
      | raise e ↦ (raises (registry_error e), w)
      | done node ↦
          if not (same_state node.state candidate) && is_accept decision
          then (raises only_candidates, w)
          else (let (result, r) =
                transition overlay_id (target decision) (some reviewer_id)
                  (reason_for decision rationale) now w.registry in
              record_decision result r
                (record {
                  overlay_id = overlay_id;
                  reviewer_id = reviewer_id;
                  decision = decision;
                  rationale = rationale;
                })
                w)
    ]

-- ReviewWorkbench.decisions
unfoldable pub decisions : ReviewWorkbench → List ReviewRecord
decisions w = w.records

pub record SplitOperation : Type 0 where
  pub parent_overlay_id : String
  pub child_labels : List String
  pub migration_notes : List String

pub record MergeOperation : Type 0 where
  pub deprecated_overlay_ids : List String
  pub canonical_overlay_id : String
  pub justification : String

pub record SynonymOperation : Type 0 where
  pub overlay_id : String
  pub language : String
  pub synonym : String

abbrev pub migration_note : String → String → String
migration_note overlay_id child =
    "Remap mappings referencing '" <> overlay_id <> "' to child '" <> child <> "'"

-- MigrationPlanner.build_split_plan
unfoldable pub build_split_plan : OverlayNode → List String → SplitOperation
build_split_plan node children = record {
  parent_overlay_id = node.overlay_id;
  child_labels = children;
  migration_notes = map (migration_note node.overlay_id) children;
}

-- ", ".join(ids)
unfoldable pub joined : List String → String
joined [] = ""
joined (s ∷ []) = s
joined (s ∷ t ∷ ss) = s <> ", " <> joined (t ∷ ss)

-- MigrationPlanner.build_merge_plan
unfoldable pub build_merge_plan : OverlayNode → List OverlayNode → MergeOperation
unfolding joined
build_merge_plan canonical duplicates =
    let ids = map (λ (d : OverlayNode). d.overlay_id) duplicates in
    record {
      deprecated_overlay_ids = ids;
      canonical_overlay_id = canonical.overlay_id;
      justification =
          "Merge "
          <> joined ids
          <> " into "
          <> canonical.overlay_id
          <> " due to semantic equivalence";
    }

unfoldable pub synonyms_of : String → String → List String → List SynonymOperation
synonyms_of overlay_id language [] = []
synonyms_of overlay_id language (s ∷ ss) =
    record { overlay_id = overlay_id; language = language; synonym = s }
    ∷ synonyms_of overlay_id language ss

-- MigrationPlanner.build_synonym_operations
unfoldable pub build_synonym_operations : OverlayNode → Dict (List String) → List SynonymOperation
unfolding synonyms_of
build_synonym_operations node [] = []
build_synonym_operations node ((language, entries) ∷ d) =
    synonyms_of node.overlay_id language entries ++ build_synonym_operations node d
