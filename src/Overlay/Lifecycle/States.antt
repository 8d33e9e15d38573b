-- ===== src/Overlay/Lifecycle/States.antt =====
-- The state machine of the overlay nodes: what a transition does, and that states only go forward.
use domain_determine.Base.{
  ℕ, ◌≤◌, String, ◌≡◌, ◌⊎◌, inl, inr, refl, sym, ap, ◌∙◌, true, not, ◌||◌, Option, none, some, [],
  ◌∷◌, ◌++◌, arith, ◌==◌, nat_eq, string_eq, if◌then◌else◌, get_or, Bool-cases, Option-cases,
  none_some, add, to_set, sorted, truthy_opt, eq_iff,
}
use domain_determine.Base.Dict
use domain_determine.Base.Dict.{Dict, get-put, get-put_self}
use domain_determine.Overlay.Models.{
  OverlayNodeState, candidate, approved, published, deprecated, OverlayNode, with_state,
  OverlayLifecycleEvent,
}
use domain_determine.Overlay.Lifecycle.{
  OverlayRegistry, OverlayError, key_error, reviewer_required, done, raise, same_state, in_table,
  assert_transition, needs_reviewer, append_lifecycle, moved, transition, with_links,
  attach_coverage_plan, lifecycle_events,
}
use domain_determine.Overlay.Minting.{Candidate, register_candidate}
use domain_determine.Overlay.Minting.Registration.{register_candidate_lem}

-- How far a state is along the life cycle.
unfoldable pub rank : OverlayNodeState → ℕ
rank candidate = 0
rank approved = 1
rank published = 2
rank deprecated = 3

-- The registry records of the node's move.
abbrev pub event_of :
    String
    → OverlayNodeState
    → OverlayNodeState
    → Option String
    → Option String
    → ℕ
    → OverlayLifecycleEvent
event_of overlay_id from_state to_state reviewer_id rationale now = record {
  overlay_id = overlay_id;
  from_state = from_state;
  to_state = to_state;
  reviewer_id = reviewer_id;
  rationale = rationale;
  timestamp = now;
}

assert_transition_cases :
    (s t : OverlayNodeState)
    → ((assert_transition s t ≡ done tt) × (rank s ≤ rank t))
      ⊎ ((e : OverlayError) × (assert_transition s t ≡ raise e))
unfolding assert_transition same_state in_table rank
assert_transition_cases candidate candidate = inl (refl, omega arith)
assert_transition_cases candidate approved = inl (refl, omega arith)
assert_transition_cases candidate published = inr (_, refl)
assert_transition_cases candidate deprecated = inl (refl, omega arith)
assert_transition_cases approved candidate = inr (_, refl)
assert_transition_cases approved approved = inl (refl, omega arith)
assert_transition_cases approved published = inl (refl, omega arith)
assert_transition_cases approved deprecated = inl (refl, omega arith)
assert_transition_cases published candidate = inr (_, refl)
assert_transition_cases published approved = inr (_, refl)
assert_transition_cases published published = inl (refl, omega arith)
assert_transition_cases published deprecated = inl (refl, omega arith)
assert_transition_cases deprecated candidate = inr (_, refl)
assert_transition_cases deprecated approved = inr (_, refl)
assert_transition_cases deprecated published = inr (_, refl)
assert_transition_cases deprecated deprecated = inl (refl, omega arith)

module _ (overlay_id : String) (to_state : OverlayNodeState) (reviewer_id rationale : Option String)
    (now : ℕ) (r : OverlayRegistry) where
  -- A transition succeeds only on a registered node, to a state that is not behind the node's, and with
  -- a reviewer unless the state is `candidate`. Then the node has the new state, the other nodes are as
  -- they were, and the node's events have one more, which records the move. Otherwise it raises and
  -- changes nothing.
  pub transition_lem :
      let (result, r') = transition overlay_id to_state reviewer_id rationale now r in
      ((node : OverlayNode) × (Dict.get r.nodes overlay_id ≡ some node)
        × (result ≡ done (with_state to_state node))
        × (rank node.state ≤ rank to_state)
        × ((not (needs_reviewer to_state) || truthy_opt reviewer_id) ≡ true)
        × ((k : String)
            → Dict.get r'.nodes k
              ≡ (if overlay_id == k then some (with_state to_state node) else Dict.get r.nodes k))
        × (lifecycle_events overlay_id r'
            ≡ lifecycle_events overlay_id r
              ++ event_of overlay_id node.state to_state reviewer_id rationale now ∷ []))
      ⊎ ((e : OverlayError) × (result ≡ raise e) × (r' ≡ r))
  unfolding transition moved append_lifecycle lifecycle_events
  transition_lem = elim (Option-cases (Dict.get r.nodes overlay_id)) [
    | inl missing ↦ inr (key_error overlay_id, rw (transition, missing), rw (transition, missing))
    | inr (node, present) ↦ elim (assert_transition_cases node.state to_state) [
      | inr (e, refused) ↦
          inr (e, rw (transition, present, refused), rw (transition, present, refused))
      | inl (allowed, forward) ↦
          elim (Bool-cases (not (needs_reviewer to_state) || truthy_opt reviewer_id)) [
            | inr unready ↦ inr (
              reviewer_required to_state,
              rw (transition, present, allowed, unready),
              rw (transition, present, allowed, unready),
            )
            | inl ready ↦ inl (
              node,
              present,
              rw (transition, present, allowed, ready),
              forward,
              ready,
              (λ k.
                  rw (transition, present, allowed, ready)
                    (get-put r.nodes overlay_id k (with_state to_state node))),
              rw (transition, present, allowed, ready)
                  (ap (λ o. get_or o []) (get-put_self r.events overlay_id _)),
            )
          ]
    ]
  ]

-- One change of a registry: a registration, a transition or the link to a coverage plan, successful or
-- not.
pub data Change (r : OverlayRegistry) : OverlayRegistry → Type 0 where
  transitions :
      (overlay_id : String) (to_state : OverlayNodeState) (reviewer_id rationale : Option String)
      (now : ℕ)
      → Change r (transition overlay_id to_state reviewer_id rationale now r).1
  attaches :
      (overlay_id coverage_plan_id : String)
      → Change r (attach_coverage_plan overlay_id coverage_plan_id r).1
  registers :
      (fold : String → String) (c : Candidate) (now : ℕ)
      → Change r (register_candidate fold c now r).1

pub data Changes (r : OverlayRegistry) : OverlayRegistry → Type 0 where
  none_yet : Changes r r
  then_change : {r' r'' : OverlayRegistry} → Changes r r' → Change r' r'' → Changes r r''

abbrev rank_at : Option OverlayNode → ℕ
rank_at none = 0
rank_at (some node) = rank node.state

-- The node is still there, and its state has not gone back.
abbrev pub Onward : Option OverlayNode → ℕ → Type 0
Onward o n = (node : OverlayNode) × (o ≡ some node) × (n ≤ rank node.state)

rank-some : (old node : OverlayNode) → some old ≡ some node → rank old.state ≡ rank node.state
rank-some old node h = ap rank_at h

transition-Onward :
    (overlay_id : String) (to_state : OverlayNodeState) (reviewer_id rationale : Option String)
    (now : ℕ) (r : OverlayRegistry) (k : String) (node : OverlayNode)
    → Dict.get r.nodes k ≡ some node
    → Onward
        (Dict.get (transition overlay_id to_state reviewer_id rationale now r).1.nodes k)
        (rank node.state)
unfolding with_state
transition-Onward overlay_id to_state reviewer_id rationale now r k node present =
    elim (transition_lem overlay_id to_state reviewer_id rationale now r) [
      | inr (e, raised, same) ↦
          (node, ap (λ (x : OverlayRegistry). Dict.get x.nodes k) same ∙ present, omega arith)
      | inl (old, found, result, forward, ready, stored, logged) ↦
          elim (Bool-cases (overlay_id == k)) [
            | inl is ↦
                let here : overlay_id ≡ k = (eq_iff overlay_id k).0 is in
                let old_is_node : some old ≡ some node =
                  sym found ∙ ap (Dict.get r.nodes) here ∙ present in
                (
                  with_state to_state old,
                  stored k ∙ rw is,
                  omega (arith, forward, rank-some old node old_is_node),
                )
            | inr other ↦ (node, stored k ∙ rw other present, omega arith)
          ]
    ]

attach-Onward :
    (overlay_id coverage_plan_id : String) (r : OverlayRegistry) (k : String) (node : OverlayNode)
    → Dict.get r.nodes k ≡ some node
    → Onward
        (Dict.get (attach_coverage_plan overlay_id coverage_plan_id r).1.nodes k)
        (rank node.state)
unfolding attach_coverage_plan with_links
attach-Onward overlay_id coverage_plan_id r k node present =
    elim (Option-cases (Dict.get r.nodes overlay_id)) [
      | inl missing ↦ (node, rw (attach_coverage_plan, missing) present, omega arith)
      | inr (old, found) ↦ elim (Bool-cases (overlay_id == k)) [
        | inl is ↦
            let here : overlay_id ≡ k = (eq_iff overlay_id k).0 is in
            let old_is_node : some old ≡ some node =
              sym found ∙ ap (Dict.get r.nodes) here ∙ present in
            (
              with_links (sorted (add (to_set old.coverage_plan_links) coverage_plan_id)) old,
              rw (attach_coverage_plan, found) (get-put r.nodes overlay_id k _ ∙ rw is),
              omega (arith, rank-some old node old_is_node),
            )
        | inr other ↦ (
          node,
          rw (attach_coverage_plan, found) (get-put r.nodes overlay_id k _ ∙ rw other present),
          omega arith,
        )
      ]
    ]

register-Onward :
    (fold : String → String) (c : Candidate) (now : ℕ) (r : OverlayRegistry) (k : String)
    (node : OverlayNode)
    → Dict.get r.nodes k ≡ some node
    → Onward (Dict.get (register_candidate fold c now r).1.nodes k) (rank node.state)
register-Onward fold c now r k node present = elim (register_candidate_lem fold c now r) [
  | inr (e, raised, same, events, grown) ↦
      (node, ap (λ d. Dict.get d k) same ∙ present, omega arith)
  | inl (id, result, free, unused, allowed, stored, logged, issued) ↦ elim (Bool-cases (id == k)) [
    | inl is ↦ none_some (sym unused ∙ ap (Dict.get r.nodes) ((eq_iff id k).0 is) ∙ present)
    | inr other ↦ (node, stored k ∙ rw other present, omega arith)
  ]
]

-- However registrations, transitions and links follow one another, a node that was registered stays registered, and
-- its state never goes back: a published node is published or deprecated from then on.
pub Changes-Onward :
    {r r' : OverlayRegistry} (k : String) (node : OverlayNode)
    → Dict.get r.nodes k ≡ some node
    → Changes r r'
    → Onward (Dict.get r'.nodes k) (rank node.state)
Changes-Onward k node present none_yet = (node, present, omega arith)
Changes-Onward k node present
      (then_change {r' = r'} run (transitions overlay_id to_state reviewer_id rationale now)) =
    let (mid, there, on) = Changes-Onward k node present run in
    let (last, now_there, further) =
      transition-Onward overlay_id to_state reviewer_id rationale now r' k mid there in
    (last, now_there, omega arith)
Changes-Onward k node present (then_change {r' = r'} run (attaches overlay_id coverage_plan_id)) =
    let (mid, there, on) = Changes-Onward k node present run in
    let (last, now_there, further) = attach-Onward overlay_id coverage_plan_id r' k mid there in
    (last, now_there, omega arith)
Changes-Onward k node present (then_change {r' = r'} run (registers fold c now)) =
    let (mid, there, on) = Changes-Onward k node present run in
    let (last, now_there, further) = register-Onward fold c now r' k mid there in
    (last, now_there, omega arith)
