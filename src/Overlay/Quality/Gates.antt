-- ===== src/Overlay/Quality/Gates.antt =====
-- When a proposal passes the quality gates.
use domain_determine.Base.{
  String, ◌≡◌, refl, Bool, true, false, not, ◌&&◌, ◌||◌, List, [], ◌∷◌, arith, nat_eq, string_eq,
  leb, every, subset, value, truthy,
}
use domain_determine.Base.Dict.{Dict}
use domain_determine.Overlay.Models.{EvidencePack}
use domain_determine.Overlay.Quality.{
  Library, Gate, passed, failed, then_gate, label_length, missing, sources_of, evidence_gate,
  validate_evidence_pack, check_tags, QualityConfig, duplicate_conflict_score, first_letter,
  starts_well, ensure_editorial_compliance, ensure_language_tags, run_quality_gates,
}

abbrev pub is_passed : Gate → Bool
is_passed passed = true
is_passed (failed e) = false

is_passed-then_gate : (g h : Gate) → is_passed (then_gate g h) ≡ (is_passed g && is_passed h)
is_passed-then_gate passed h = refl
is_passed-then_gate (failed e) h = refl

-- A label with a language and a text
abbrev pub is_tagged : String × String → Bool
is_tagged (language, value) = truthy language && truthy value

is_passed-check_tags :
    (labels : Dict String) → is_passed (check_tags labels) ≡ every is_tagged labels
unfolding check_tags every
is_passed-check_tags [] = refl
is_passed-check_tags ((language, value) ∷ d) = ground (arith, is_passed-check_tags d)

abbrev no_texts : List String → Bool
no_texts [] = true
no_texts (s ∷ ss) = false

no_texts-missing :
    (sources cited : List String) → no_texts (missing sources cited) ≡ subset cited sources
unfolding missing subset
no_texts-missing sources [] = refl
no_texts-missing sources (i ∷ is) = ground (arith, no_texts-missing sources is)

is_passed-evidence_gate : (is : List String) → is_passed (evidence_gate is) ≡ no_texts is
is_passed-evidence_gate [] = refl
is_passed-evidence_gate (i ∷ is) = refl

module _ (library : Library) where
  -- A proposal passes exactly if each preferred label has a language and a text, where that is enforced,
  -- the new label is not empty, not too long and starts with an upper-case letter if it has a letter,
  -- the conflict score is not above the threshold, and every cited source is in the evidence pack.
  pub run_quality_gates_lem :
      (labels : Dict String) (label : String) (existing : List String) (pack : EvidencePack)
      (cited : List String) (config : QualityConfig library)
      → is_passed (run_quality_gates library labels label existing pack cited config) ≡ (
          (not config.enforce_language_labels || every is_tagged labels)
          && (truthy label
              && (leb (label_length label) config.max_label_length
                  && (starts_well library (first_letter library label)
                      && (not (
                            library.gt
                              (duplicate_conflict_score library label existing)
                              config.duplicate_threshold)
                          && subset cited (sources_of pack))))))
  unfolding run_quality_gates ensure_language_tags ensure_editorial_compliance
      validate_evidence_pack
  run_quality_gates_lem labels label existing pack cited config =
      rw
        (
          is_passed-then_gate, is_passed-then_gate, is_passed-then_gate, is_passed-evidence_gate,
          no_texts-missing,
        )
        (ground (arith, is_passed-check_tags labels))
