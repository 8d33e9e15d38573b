-- ===== src/Overlay/Minting/Registration.antt =====
-- What `register_candidate` does to the registry.
use domain_determine.Base.{
  ℕ, String, ◌≡◌, ◌⊎◌, inl, inr, refl, ap, Bool, true, false, not, ◌||◌, none, some, [], ◌∷◌, ◌++◌,
  arith, ◌==◌, nat_eq, string_eq, if◌then◌else◌, get_or, Bool-cases, Option-cases, contains, truthy,
}
use domain_determine.Base.Dict
use domain_determine.Base.Dict.{Dict, get-put, get-put_self}
use domain_determine.Overlay.Models.{candidate, OverlayLifecycleEvent}
use domain_determine.Overlay.Lifecycle.{
  OverlayRegistry, OverlayError, identifier_collision, policy_violation, done, raise,
  append_lifecycle, reserve, lifecycle_events,
}
use domain_determine.Overlay.Minting.{
  slugify, Candidate, label_hint, new_node, blocked, mint, store_node, admit, register_candidate,
}
use domain_determine.Overlay.Minting.Identifiers.{generate_total}

kept : (a b : Bool) → (not a || (b || a)) ≡ true
kept a b = ground arith

-- The event of a registration
abbrev pub registered : String → ℕ → OverlayLifecycleEvent
registered overlay_id now = record {
  overlay_id = overlay_id;
  from_state = candidate;
  to_state = candidate;
  reviewer_id = none;
  rationale = some "candidate_registered";
  timestamp = now;
}

module _ (fold : String → String) (c : Candidate) where
  mint_cases :
      (r : OverlayRegistry)
      → ((id : String) × (mint fold c r ≡ done (id, id ∷ r.issued))
          × (contains r.issued id ≡ false))
        ⊎ ((e : OverlayError) × (mint fold c r ≡ raise e))
  unfolding mint reserve
  mint_cases r = elim (Bool-cases (truthy (get_or c.explicit_overlay_id ""))) [
    | inl explicit ↦ elim (Bool-cases (contains r.issued (get_or c.explicit_overlay_id ""))) [
      | inl taken ↦ inr (
        identifier_collision (get_or c.explicit_overlay_id ""),
        rw (explicit, mint, reserve, taken) refl,
      )
      | inr free ↦
          inl (get_or c.explicit_overlay_id "", rw (explicit, mint, reserve, free) refl, free)
    ]
    | inr implicit ↦
        let (id, found, free) =
          generate_total r.namespace (slugify fold (label_hint c c.preferred_labels)) r.issued in
        inl (id, rw (implicit, mint, found) refl, free)
  ]

  module _ (now : ℕ) (r : OverlayRegistry) where
    -- A registration either makes a candidate under an identifier that was neither issued nor in use,
    -- which the guardrail allows in each of its jurisdictions, stores it, leaves the other nodes and records
    -- it in the node's events, or raises and leaves all nodes and events as they were.
    pub register_candidate_lem :
        let (result, r') = register_candidate fold c now r in
        ((id : String) × (result ≡ done (new_node id c))
          × (contains r.issued id ≡ false)
          × (Dict.get r.nodes id ≡ none)
          × (blocked r.policy_guardrail c.base_concept_id c.jurisdiction_tags ≡ none)
          × ((k : String)
              → Dict.get r'.nodes k
                ≡ (if id == k then some (new_node id c) else Dict.get r.nodes k))
          × (lifecycle_events id r' ≡ lifecycle_events id r ++ registered id now ∷ [])
          × (r'.issued ≡ id ∷ r.issued))
        ⊎ ((e : OverlayError) × (result ≡ raise e)
            × (r'.nodes ≡ r.nodes)
            × (r'.events ≡ r.events)
            × ((k : String) → (not (contains r.issued k) || contains r'.issued k) ≡ true))
    unfolding register_candidate admit store_node append_lifecycle lifecycle_events
    register_candidate_lem = elim (mint_cases r) [
      | inr (e, refused) ↦ inr (
        e,
        rw (register_candidate, refused) refl,
        rw (register_candidate, refused) refl,
        rw (register_candidate, refused) refl,
        λ k. rw (register_candidate, refused) (ground arith),
      )
      | inl (id, minted, free) ↦ elim (Option-cases (Dict.get r.nodes id)) [
        | inr (old, used) ↦ inr (
          identifier_collision id,
          rw (register_candidate, minted, admit, used) refl,
          rw (register_candidate, minted, admit, used) refl,
          rw (register_candidate, minted, admit, used) refl,
          λ k. rw (register_candidate, minted, admit, used) (kept (contains r.issued k) (id == k)),
        )
        | inl unused ↦
            elim (Option-cases (blocked r.policy_guardrail c.base_concept_id c.jurisdiction_tags)) [
              | inr (j, stop) ↦ inr (
                policy_violation j c.base_concept_id,
                rw (register_candidate, minted, admit, unused, stop) refl,
                rw (register_candidate, minted, admit, unused, stop) refl,
                rw (register_candidate, minted, admit, unused, stop) refl,
                λ k.
                    rw (register_candidate, minted, admit, unused, stop)
                      (kept (contains r.issued k) (id == k)),
              )
              | inl allowed ↦ inl (
                id,
                rw (register_candidate, minted, admit, unused, allowed) refl,
                free,
                unused,
                allowed,
                (λ k.
                    rw (register_candidate, minted, admit, unused, allowed)
                      (get-put r.nodes id k (new_node id c))),
                rw (register_candidate, minted, admit, unused, allowed)
                    (ap (λ o. get_or o []) (get-put_self r.events id _)),
                rw (register_candidate, minted, admit, unused, allowed) refl,
              )
            ]
      ]
    ]
