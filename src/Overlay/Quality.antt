-- ===== src/Overlay/Quality.antt =====
-- src/DomainDetermine/overlay/quality.py. The similarity of two labels, of difflib, and the classes of
-- the Unicode characters are arguments; a score is a float of the interpreter.
pub mod Gates
use domain_determine.Base.{
  ℕ, zero, suc, ◌+◌, ◌-◌, ◌*◌, ◌/◌, ◌%◌, ◌≤◌, ◌<◌, String, ◌≡◌, ◌≢◌, ◌↔◌, ◌⊎◌, inl, inr, refl, sym,
  ap, ◌∙◌, Bool, true, false, not, ◌&&◌, ◌||◌, Option, none, some, List, [], ◌∷◌, ◌++◌, map, arith,
  Eq, ◌==◌, nat_eq, string_eq, nat_beq, eq_of_discrete, if◌then◌else◌, ltb, leb, is_some, get_or,
  Bool-cases, Option-cases, absurd_bool, none_some, some_inj, or_left, or_right, length, keep,
  every, some_of, contains, add, to_set, subset, meets, insert_sorted, sorted, text_le, All,
  length-append, contains-append, contains-add, contains-to_set, contains_of_subset, subset_mono,
  contains-sorted, show, ◌<>◌, emit, digit, value, code-digit, value-show, show-injective,
  numbered-injective, truthy, truthy_opt, is_space, strip_left, strip_right, strip, prepend, split,
  split_once, eq_iff,
}
use domain_determine.Base.Dict.{Dict}
use Prim.Native.Char.{Char, code}
use domain_determine.Overlay.Models.{EvidenceDocument, EvidencePack}

-- What the gates take from the standard library.
pub record Library : Type 1 where
  pub Float : Type 0
  pub zero : Float
  -- SequenceMatcher(None, a.lower(), b.lower()).ratio()
  pub ratio : String → String → Float
  pub gt : Float → Float → Bool
  pub is_alpha : Char → Bool
  pub is_upper : Char → Bool

-- The messages of QualityGateError and EvidenceValidationError
pub data GateError : Type 0 where
  empty_label label_too_long not_uppercase : GateError
  no_language : GateError
  no_text : String → GateError
  duplicate : GateError
  missing_sources : List String → GateError

pub data Gate : Type 0 where
  passed : Gate
  failed : GateError → Gate

-- One check behind another
abbrev pub then_gate : Gate → Gate → Gate
then_gate passed g = g
then_gate (failed e) g = failed e

unfoldable pub label_length : String → ℕ
label_length String.[] = 0
label_length (String.◌∷◌ c s) = suc (label_length s)

-- The sources that are cited and not among the documents
unfoldable pub missing : List String → List String → List String
unfolding contains
missing sources [] = []
missing sources (i ∷ is) =
    let rest = missing sources is in if contains sources i then rest else i ∷ rest

abbrev pub sources_of : EvidencePack → List String
sources_of pack = map (λ (d : EvidenceDocument). d.source_id) pack.documents

abbrev pub evidence_gate : List String → Gate
evidence_gate [] = passed
evidence_gate (i ∷ is) = failed (missing_sources (i ∷ is))

-- validate_evidence_pack
unfoldable pub validate_evidence_pack : EvidencePack → List String → Gate
unfolding missing
validate_evidence_pack pack cited = evidence_gate (missing (sources_of pack) cited)

unfoldable pub check_tags : Dict String → Gate
check_tags [] = passed
check_tags ((language, value) ∷ d) =
    let rest = check_tags d in
    if truthy language
    then (if truthy value then rest else failed (no_text language))
    else failed no_language

module _ (library : Library) where
  open library use {Float, zero, ratio, gt, is_alpha, is_upper}

  pub record QualityConfig : Type 0 where
    pub duplicate_threshold : Float
    pub max_label_length : ℕ
    pub enforce_language_labels : Bool

  -- max(scores, default=0.0): the first of the largest
  unfoldable pub best_score : String → Float → List String → Float
  best_score label best [] = best
  best_score label best (other ∷ others) =
      let score = ratio label other in
      best_score label (if gt score best then score else best) others

  -- duplicate_conflict_score
  unfoldable pub duplicate_conflict_score : String → List String → Float
  unfolding best_score
  duplicate_conflict_score label [] = zero
  duplicate_conflict_score label (other ∷ others) = best_score label (ratio label other) others

  -- next((c for c in label if c.isalpha()), "")
  unfoldable pub first_letter : String → Option Char
  first_letter String.[] = none
  first_letter (String.◌∷◌ c s) = let rest = first_letter s in if is_alpha c then some c else rest

  abbrev pub starts_well : Option Char → Bool
  starts_well none = true
  starts_well (some c) = is_upper c

  -- ensure_editorial_compliance
  unfoldable pub ensure_editorial_compliance : String → QualityConfig → Gate
  unfolding label_length first_letter
  ensure_editorial_compliance label config =
      if truthy label
      then (if ltb config.max_label_length (label_length label)
          then failed label_too_long
          else if starts_well (first_letter label)
          then passed
          else failed not_uppercase)
      else failed empty_label

  -- ensure_language_tags
  unfoldable pub ensure_language_tags : Dict String → QualityConfig → Gate
  unfolding check_tags
  ensure_language_tags labels config =
      if config.enforce_language_labels then check_tags labels else passed

  -- run_quality_gates
  unfoldable pub run_quality_gates :
      Dict String → String → List String → EvidencePack → List String → QualityConfig → Gate
  unfolding ensure_language_tags ensure_editorial_compliance duplicate_conflict_score
      validate_evidence_pack
  run_quality_gates preferred_labels new_label existing_labels pack cited config =
      then_gate (ensure_language_tags preferred_labels config) (
        then_gate (ensure_editorial_compliance new_label config) (
          then_gate
            (if gt (duplicate_conflict_score new_label existing_labels) config.duplicate_threshold
              then failed duplicate
              else passed)
            (validate_evidence_pack pack cited)))
