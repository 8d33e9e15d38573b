-- ===== src/Overlay/Review/Decisions.antt =====
-- What a reviewer's decision and a pilot do to a node.
use domain_determine.Base.{
  ℕ, ◌≤◌, String, ◌≡◌, ◌⊎◌, inl, inr, refl, sym, ap, ◌∙◌, Bool, true, false, not, ◌&&◌, ◌||◌,
  Option, none, some, List, [], ◌∷◌, ◌++◌, arith, nat_eq, string_eq, if◌then◌else◌, Bool-cases,
  Option-cases, truthy, eq_iff, some_inj,
}
use domain_determine.Base.Dict
use domain_determine.Base.Dict.{Dict}
use domain_determine.Overlay.Models.{
  OverlayNodeState, candidate, approved, published, deprecated, OverlayNode, with_state,
}
use domain_determine.Overlay.Lifecycle.{
  OverlayRegistry, OverlayError, Outcome, done, raise, get_node, same_state, in_table,
  assert_transition, needs_reviewer, transition,
}
use domain_determine.Overlay.Lifecycle.States.{rank, transition_lem}
use domain_determine.Overlay.Review.{
  ReviewDecision, accept, revise, reject, ReviewRecord, ReviewWorkbench, ReviewError,
  registry_error, only_candidates, Reviewed, returns, raises, rationale_or, target, reason_for,
  is_accept, submit_decision,
}
use domain_determine.Overlay.Review.Pilot.{
  Measures, PilotConfig, PilotAnnotation, mean_of, durations, compute_percent_agreement,
  pilot_passes, pilot_target, pilot_reason, pilot_result, PilotResult, run_pilot,
}

abbrev pub is_returned {ℓ} : {A : Type ℓ} → Reviewed A → Bool
is_returned (returns a) = true
is_returned (raises e) = false

abbrev is_done {ℓ} : {A : Type ℓ} → Outcome A → Bool
is_done (done a) = true
is_done (raise e) = false

-- When a transition that names a reviewer returns
transition_done :
    (overlay_id : String) (t : OverlayNodeState) (reviewer_id : String) (rationale : Option String)
    (now : ℕ) (r : OverlayRegistry) (node : OverlayNode)
    → Dict.get r.nodes overlay_id ≡ some node
    → is_done (transition overlay_id t (some reviewer_id) rationale now r).0 ≡ (
        (same_state node.state t || in_table node.state t)
        && (not (needs_reviewer t) || truthy reviewer_id))
unfolding transition assert_transition
transition_done overlay_id t reviewer_id rationale now r node present =
    rw (transition, present) (ground arith)

-- When a decision may be taken, from whether the node is a candidate and the reviewer has a name
abbrev pub may_take : ReviewDecision → Bool → Bool → Bool
may_take accept is_candidate named = is_candidate && named
may_take revise is_candidate named = is_candidate
may_take reject is_candidate named = named

late_may_not :
    (d : ReviewDecision) (is_candidate named : Bool)
    → (not is_candidate && is_accept d) ≡ true
    → may_take d is_candidate named ≡ false
late_may_not accept is_candidate named h = ground (arith, h)
late_may_not revise is_candidate named h = ground (arith, h)
late_may_not reject is_candidate named h = ground (arith, h)

by_decision :
    (d : ReviewDecision) (s : OverlayNodeState) (named : Bool)
    → (not (same_state s candidate) && is_accept d) ≡ false
    → ((same_state s (target d) || in_table s (target d))
        && (not (needs_reviewer (target d)) || named))
      ≡ may_take d (same_state s candidate) named
unfolding same_state in_table needs_reviewer target
by_decision accept candidate named h = refl
by_decision accept approved named h = ground (arith, h)
by_decision accept published named h = ground (arith, h)
by_decision accept deprecated named h = ground (arith, h)
by_decision revise candidate named h = refl
by_decision revise approved named h = refl
by_decision revise published named h = refl
by_decision revise deprecated named h = refl
by_decision reject candidate named h = refl
by_decision reject approved named h = refl
by_decision reject published named h = refl
by_decision reject deprecated named h = refl

module _ (overlay_id reviewer_id : String) (decision : ReviewDecision) (rationale : Option String)
    (now : ℕ) (w : ReviewWorkbench) where
  abbrev pub record_of : ReviewRecord
  record_of = record {
    overlay_id = overlay_id;
    reviewer_id = reviewer_id;
    decision = decision;
    rationale = rationale;
  }

  -- A decision on a registered node returns exactly if it may be taken: an acceptance by a named reviewer
  -- on a candidate, a revision on a candidate, a rejection by a named reviewer on any node. Then the
  -- registry is the one that the transition to the state asked for leaves, in which the node has that
  -- state, which is not behind its old one, and the decision is recorded behind the earlier ones. A
  -- decision that may not be taken raises, as does one on a missing node, with KeyError, and both change
  -- nothing.
  pub submit_decision_lem :
      let (result, w') = submit_decision overlay_id reviewer_id decision rationale now w in
      ((node : OverlayNode) × (Dict.get w.registry.nodes overlay_id ≡ some node)
        × (may_take decision (same_state node.state candidate) (truthy reviewer_id) ≡ true)
        × (result ≡ returns record_of)
        × (w'.records ≡ w.records ++ record_of ∷ [])
        × (w'.registry
            ≡ (transition overlay_id
                (target decision)
                (some reviewer_id)
                (reason_for decision rationale)
                now
                w.registry).1)
        × (Dict.get w'.registry.nodes overlay_id ≡ some (with_state (target decision) node))
        × (rank node.state ≤ rank (target decision))
        × ((not (is_accept decision) || same_state node.state candidate) ≡ true))
      ⊎ (((node : OverlayNode) × (Dict.get w.registry.nodes overlay_id ≡ some node)
            × (may_take decision (same_state node.state candidate) (truthy reviewer_id) ≡ false)
            × (e : ReviewError) × (result ≡ raises e)
            × (w' ≡ w))
          ⊎ ((Dict.get w.registry.nodes overlay_id ≡ none)
              × (result ≡ raises (registry_error (OverlayError.key_error overlay_id)))
              × (w' ≡ w)))
  unfolding submit_decision get_node
  submit_decision_lem = elim (Option-cases (Dict.get w.registry.nodes overlay_id)) [
    | inl missing ↦ inr (
        inr (
          missing,
          rw (submit_decision, get_node, missing) refl,
          rw (submit_decision, get_node, missing) refl,
        ))
    | inr (node, present) ↦
        elim (Bool-cases (not (same_state node.state candidate) && is_accept decision)) [
          | inl late ↦ inr (
              inl (
                node,
                present,
                late_may_not decision _ (truthy reviewer_id) late,
                only_candidates,
                rw (submit_decision, get_node, present, late) refl,
                rw (submit_decision, get_node, present, late) refl,
              ))
          | inr fitting ↦
              let done_if =
                transition_done overlay_id (target decision) reviewer_id
                  (reason_for decision rationale) now w.registry node present
                ∙ by_decision decision node.state (truthy reviewer_id) fitting in
              elim (transition_lem overlay_id (target decision) (some reviewer_id)
                (reason_for decision rationale) now w.registry) [
                  | inr (e, raised, same) ↦ inr (
                      inl (
                        node,
                        present,
                        sym done_if ∙ ap (λ o. is_done o) raised,
                        registry_error e,
                        rw (submit_decision, get_node, present, fitting, raised) refl,
                        rw (submit_decision, get_node, present, fitting, raised)
                            (ap (λ r. record w { registry = r }) same),
                      ))
                  | inl (old, found, result, forward, ready, stored, logged) ↦
                      let is : node ≡ old = some_inj node old (sym present ∙ found) in
                      inl (
                        node,
                        present,
                        sym done_if ∙ ap (λ o. is_done o) result,
                        rw (submit_decision, get_node, present, fitting, result) refl,
                        rw (submit_decision, get_node, present, fitting, result) refl,
                        rw (submit_decision, get_node, present, fitting, result) refl,
                        rw (submit_decision, get_node, present, fitting, result, is)
                            (stored overlay_id ∙ rw ((eq_iff overlay_id overlay_id).1 refl) refl),
                        rw is forward,
                        ground arith,
                      )
                ]
        ]
  ]

is_returned-pilot_result :
    (measures : Measures) (o : Outcome OverlayNode) (r : OverlayRegistry) (p : PilotResult measures)
    → is_returned (pilot_result measures o r p).0 ≡ is_done o
is_returned-pilot_result measures (done n) r p = refl
is_returned-pilot_result measures (raise e) r p = refl

by_state :
    (s : OverlayNodeState) (v named : Bool)
    → ((same_state s (pilot_target v) || in_table s (pilot_target v))
        && (not (needs_reviewer (pilot_target v)) || named))
      ≡ (if v
          then (same_state s approved || same_state s published) && named
          else same_state s candidate)
unfolding same_state in_table needs_reviewer
by_state candidate true named = refl
by_state approved true named = refl
by_state published true named = refl
by_state deprecated true named = refl
by_state candidate false named = refl
by_state approved false named = refl
by_state published false named = refl
by_state deprecated false named = refl

module _ (measures : Measures) (overlay_id reviewer_id : String) (config : PilotConfig measures)
    (samples : List (PilotAnnotation measures)) (rationale : Option String) (now : ℕ)
    (r : OverlayRegistry) (node : OverlayNode) (average : measures.Float)
    (present : Dict.get r.nodes overlay_id ≡ some node)
    (measured : mean_of measures (durations measures samples) ≡ some average) where
  abbrev verdict : Bool
  verdict = pilot_passes measures (compute_percent_agreement measures samples) average config

  -- A pilot of a registered node, with a duration in its samples, returns exactly if it passes on an
  -- approved or published node and the reviewer has a name, or fails on a candidate. In all other cases
  -- it raises: a failed pilot does not send an approved node back, and a passed one does not publish a
  -- candidate.
  pub run_pilot_lem :
      is_returned (run_pilot measures overlay_id config samples reviewer_id rationale now r).0 ≡ (
        if verdict
        then (same_state node.state approved || same_state node.state published)
          && truthy reviewer_id
        else same_state node.state candidate)
  unfolding run_pilot
  run_pilot_lem =
      rw (run_pilot, measured)
        (is_returned-pilot_result measures
            (transition overlay_id (pilot_target verdict) (some reviewer_id)
              (rationale_or rationale (pilot_reason verdict)) now r).0
            _ _
          ∙ transition_done overlay_id (pilot_target verdict) reviewer_id _ now r node present
          ∙ by_state node.state verdict (truthy reviewer_id))
