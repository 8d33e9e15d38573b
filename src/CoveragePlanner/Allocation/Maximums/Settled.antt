-- ===== src/CoveragePlanner/Allocation/Maximums/Settled.antt =====
-- The rounds of `_respect_maximums`: two are enough, and the quotas that they settle on.
use domain_determine.Base.{
  ℕ, ◌+◌, ◌≤◌, String, ◌≡◌, ◌⊎◌, inl, inr, refl, sym, ap, ◌∙◌, true, false, Option, none, some,
  List, [], ◌∷◌, ◌++◌, arith, ◌==◌, nat_eq, string_eq, nat_beq, ltb, leb, Bool-cases, none_some,
  some_inj, All, eq_iff,
}
use domain_determine.Base.Dict
use domain_determine.Base.Dict.{
  Dict, get-put, get-put_self, get-put_ne, get-remove, size-put, size-put_new, size-put_old,
  put_new, values-append,
}
use mathlib.Core.Path.{subst}
use domain_determine.CoveragePlanner.Allocation.{Floats, total_of, at}
use domain_determine.CoveragePlanner.Allocation.Maximums.{
  Capacity, capacity_for, Giving, Capping, Capped, capped, unable, respected, value_error,
  capacities, if_placed, cap_to, cap_all, cap_loop, adjust_total, respect_maximums,
}
use domain_determine.CoveragePlanner.Allocation.Maximums.Kept.{Fits, capacity_at-put, All-map, Fit}
use domain_determine.CoveragePlanner.Allocation.Maximums.TakenDown.{
  Known, Kept, Input, Within, Kept-refl, Kept-cap_to,
}

module _ (floats : Floats) (maximum_of : String → Option ℕ) where
  abbrev Stratum : Type 0
  Stratum = Input floats maximum_of

  Fits-capacity_for : (o : Option ℕ) (m n : ℕ) → o ≡ some m → Fits m n (capacity_for floats o n)
  Fits-capacity_for none m n e = none_some e
  Fits-capacity_for (some l) m n e =
      λ some_left. let same = some_inj l m e in omega (arith, some_left, same)

  Fit-capacities :
      (es : List Stratum) (rounded : Dict ℕ) (d : Dict Capacity)
      → Known floats maximum_of rounded es
      → Fit maximum_of d rounded
      → Fit maximum_of (capacities floats es rounded d) rounded
  unfolding capacities
  Fit-capacities [] rounded d known h = h
  Fit-capacities (e ∷ es) rounded d ((here, max), known) h =
      let c = capacity_for floats e.maximum (at rounded e.stratum_id) in
      Fit-capacities es rounded (Dict.put d e.stratum_id c) known (λ k m q.
        rw (capacity_at-put d e.stratum_id k c) (elim (Bool-cases (e.stratum_id == k)) [
          | inl same ↦
              let id_is_k = (eq_iff e.stratum_id k).0 same in
              rw same (
                subst (λ x. Fits m (at rounded x) c) id_is_k
                  (Fits-capacity_for e.maximum m (at rounded e.stratum_id)
                    (sym max ∙ ap maximum_of id_is_k ∙ q)))
          | inr other ↦ rw other (h k m q)
        ]))

  nothing_to_give : (rounded : Dict ℕ) → Fit maximum_of [] rounded
  unfolding Dict.get
  nothing_to_give rounded k m e = λ some_left. omega (arith, some_left)

  -- A call raises or gives a state of a kind.
  abbrev EndsIn : Capped → (Capping → Type 0) → Type 0
  EndsIn r P = (r ≡ unable) ⊎ ((t : Capping) × (r ≡ capped t) × P t)

  if_placed-cases :
      (note : String) (s : Capping) (g : Giving)
      → EndsIn (if_placed floats note s g) (λ t. Unit {0})
  if_placed-cases note s (left, capacity, rounded) = elim (Bool-cases (ltb 0 left)) [
    | inl remains ↦ inl (rw remains refl)
    | inr all_given ↦ inr (
      record {
        capacity = capacity;
        rounded = rounded;
        notes = s.notes ++ note ∷ [];
        changed = true;
      },
      rw all_given refl,
      tt,
    )
  ]

  cap_to-cases :
      (es : List Stratum) (id : String) (o : Option ℕ) (s : Capping)
      → EndsIn (cap_to floats es id o s) (λ t. Unit {0})
  unfolding cap_to
  cap_to-cases es id none s = inr (s, refl, tt)
  cap_to-cases es id (some m) s = elim (Bool-cases (leb (at s.rounded id) m)) [
    | inl below ↦ rw below (inr (s, refl, tt))
    | inr over ↦ rw over (if_placed-cases _ s _)
  ]

  cap_to-within :
      (es : List Stratum) (id : String) (o : Option ℕ) (s : Capping)
      → ((m : ℕ) → o ≡ some m → at s.rounded id ≤ m)
      → cap_to floats es id o s ≡ capped s
  unfolding cap_to
  cap_to-within es id none s h = refl
  cap_to-within es id (some m) s h =
      let below = h m refl in
      let test : leb (at s.rounded id) m ≡ true = ground (arith, below) in rw test refl

  -- A round over strata within their maximums changes nothing.
  cap_all-Within :
      (inputs es : List Stratum) (s : Capping)
      → All (Within floats maximum_of s.rounded) es
      → cap_all floats inputs es s ≡ capped s
  unfolding cap_all
  cap_all-Within inputs [] s h = refl
  cap_all-Within inputs (e ∷ es) s (h, hs) =
      rw (cap_all, cap_to-within inputs e.stratum_id e.maximum s h) (cap_all-Within inputs es s hs)

  Known-Kept :
      {before after : Dict ℕ} {capacity : Dict Capacity}
      → Kept floats maximum_of before capacity after
      → (es : List Stratum) → Known floats maximum_of before es
      → Known floats maximum_of after es
  Known-Kept kept es known =
      All-map (λ (e : Stratum) h. (kept.has_all e.stratum_id h.0, h.1)) es known

  Kept-trans :
      {before between after : Dict ℕ} {c d : Dict Capacity}
      → Kept floats maximum_of before c between
      → Kept floats maximum_of between d after
      → Kept floats maximum_of before d after
  Kept-trans first second = record {
    fit = second.fit;
    stays = λ k m e le. second.stays k m e (first.stays k m e le);
    same_total = second.same_total ∙ first.same_total;
    has_all = λ k g. second.has_all k (first.has_all k g);
  }

  -- What a whole round does
  abbrev Round : List Stratum → Dict ℕ → Capping → Type 0
  Round es before t =
      Kept floats maximum_of before t.capacity t.rounded
      × All (Within floats maximum_of t.rounded) es

  cap_all-cases :
      (inputs es : List Stratum) (s : Capping)
      → Known floats maximum_of s.rounded inputs
      → Known floats maximum_of s.rounded es
      → Fit maximum_of s.capacity s.rounded
      → EndsIn (cap_all floats inputs es s) (Round es s.rounded)
  unfolding cap_all
  cap_all-cases inputs [] s known mine fit =
      inr (s, refl, (Kept-refl floats maximum_of s.capacity s.rounded fit, tt))
  cap_all-cases inputs (e ∷ es) s known ((here, max), mine) fit =
      elim (cap_to-cases inputs e.stratum_id e.maximum s) [
        | inl stops ↦ inl (rw (cap_all, stops) refl)
        | inr (t, run, _) ↦
            let (kept, within) =
              Kept-cap_to floats maximum_of inputs e.stratum_id e.maximum s t known here max fit
                run in
            elim (cap_all-cases inputs es t (Known-Kept kept inputs known) (Known-Kept kept es mine)
              kept.fit) [
                | inl later_stops ↦ inl (rw (cap_all, run) later_stops)
                | inr (u, rest, (later, all_within)) ↦ inr (
                  u,
                  rw (cap_all, run) rest,
                  (
                    Kept-trans kept later,
                    (λ m q. later.stays e.stratum_id m (max ∙ q) (within m q), all_within),
                  ),
                )
              ]
      ]

  abbrev unchanged : Capping → Capping
  unchanged s = record s { changed = false }

  -- Two rounds of the loop are enough: the second changes nothing.
  cap_loop-cases :
      (inputs : List Stratum) (s : Capping)
      → Known floats maximum_of s.rounded inputs
      → Fit maximum_of s.capacity s.rounded
      → EndsIn (cap_loop floats 2 inputs s) (Round inputs s.rounded)
  unfolding cap_loop
  cap_loop-cases inputs s known fit =
      elim (cap_all-cases inputs inputs (unchanged s) known known fit) [
        | inl stops ↦ inl (rw (cap_loop, stops) refl)
        | inr (t, run, (kept, within)) ↦
            let second = cap_all-Within inputs inputs (unchanged t) within in
            elim (Bool-cases t.changed) [
              | inl again ↦
                  inr (unchanged t, rw (cap_loop, run, again, second) refl, (kept, within))
              | inr settled ↦ inr (t, rw (cap_loop, run, settled) refl, (kept, within))
            ]
      ]

  adjust_total-same :
      (rounded : Dict ℕ) (notes : List String) (total : ℕ)
      → total_of rounded ≡ total
      → adjust_total floats rounded notes total ≡ respected rounded notes
  unfolding total_of
  adjust_total-same [] notes total h =
      let same : nat_beq total 0 ≡ true = ground (arith, h) in rw same refl
  adjust_total-same ((k, n) ∷ d) notes total h =
      let same : nat_beq (n + total_of d) total ≡ true = ground (arith, h) in rw same refl

  -- On quotas that hold every stratum and add up to the total, where strata of one name have one maximum,
  -- `_respect_maximums` raises, or it returns after at most two rounds quotas with the same total, in which
  -- no stratum is above its maximum.
  pub respect_maximums_lem :
      (rounded : Dict ℕ) (inputs : List Stratum) (total : ℕ)
      → Known floats maximum_of rounded inputs
      → total_of rounded ≡ total
      → (respect_maximums floats rounded inputs total ≡ value_error)
        ⊎ ((after : Dict ℕ) × (notes : List String) × (respect_maximums floats rounded inputs total
              ≡ respected after notes)
            × (total_of after ≡ total)
            × All (Within floats maximum_of after) inputs)
  unfolding respect_maximums
  respect_maximums_lem rounded inputs total known sum =
      let s : Capping = record {
        capacity = capacities floats inputs rounded [];
        rounded = rounded;
        notes = [];
        changed = true;
      } in
      elim (cap_loop-cases inputs s known
        (Fit-capacities inputs rounded [] known (nothing_to_give rounded))) [
          | inl stops ↦ inl (rw (respect_maximums, stops) refl)
          | inr (t, run, (kept, within)) ↦
              let same = kept.same_total ∙ sum in
              inr (
                t.rounded,
                t.notes,
                rw (respect_maximums, run) (adjust_total-same t.rounded t.notes total same),
                same,
                within,
              )
        ]
