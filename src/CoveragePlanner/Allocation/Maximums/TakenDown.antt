-- ===== src/CoveragePlanner/Allocation/Maximums/TakenDown.antt =====
-- What taking one stratum down to its maximum keeps.
use domain_determine.Base.{
  ℕ, ◌-◌, ◌≤◌, ◌<◌, String, ◌≡◌, inl, inr, refl, sym, ap, ◌∙◌, Bool, true, not, Option, none, some,
  List, [], ◌∷◌, ◌++◌, map, arith, ◌==◌, nat_eq, string_eq, ltb, leb, Bool-cases, none_some,
  some_inj, keep, All, show, ◌<>◌, eq_iff,
}
use domain_determine.Base.Dict
use domain_determine.Base.Dict.{
  Dict, get-put, get-put_self, get-put_ne, get-remove, size-put, size-put_new, size-put_old,
  put_new, values-append,
}
use mathlib.Core.Path.{subst, subst₂}
use domain_determine.CoveragePlanner.Allocation.{Floats, StratumAllocationInput, total_of, at}
use domain_determine.CoveragePlanner.Allocation.Rounding.{at-put, has-put, total_of-put}
use domain_determine.CoveragePlanner.Allocation.Maximums.{
  Capacity, capacity_at, Giving, hand_out, Capping, Capped, capped, unable, out_of_fuel, receivers,
  if_placed, cap_to,
}
use domain_determine.CoveragePlanner.Allocation.Maximums.Kept.{
  Fits, All-map, Receivers, Receivers-sort_receivers, Fit, Keeps, Keeps-hand_out,
}

module _ (floats : Floats) (maximum_of : String → Option ℕ) where
  abbrev pub Input : Type 0
  Input = StratumAllocationInput floats

  -- The strata are there, and their maximums are given by `maximum_of`.
  abbrev pub Known : Dict ℕ → List Input → Type 0
  Known rounded es =
      All
        (λ (e : Input).
          (Dict.has rounded e.stratum_id ≡ true) × (maximum_of e.stratum_id ≡ e.maximum))
        es

  abbrev Names : (String → Type 0) → List Input → Type 0
  Names P es = All (λ (e : Input). P e.stratum_id) es

  Receivers-keep :
      (P : String → Type 0) (capacity : Dict Capacity) (p : Input → Bool) (es : List Input)
      → Names P es
      → Receivers P
          (map (λ (e : Input). (capacity_at capacity e.stratum_id, e.stratum_id)) (keep p es))
  unfolding keep
  Receivers-keep P capacity p [] h = tt
  Receivers-keep P capacity p (e ∷ es) (h, hs) = elim (Bool-cases (p e)) [
    | inl kept ↦ rw kept (h, Receivers-keep P capacity p es hs)
    | inr dropped ↦ rw dropped (Receivers-keep P capacity p es hs)
  ]

  All-receivers :
      (P : String → Type 0) (es : List Input) (id : String) (capacity : Dict Capacity)
      → Names P es
      → All P (receivers floats es id capacity)
  unfolding receivers
  All-receivers P es id capacity h =
      Receivers-sort_receivers P _
        (Receivers-keep P capacity (λ (e : Input). not (e.stratum_id == id)) es h)

  -- A stratum above its maximum can receive nothing, so it fits once it is taken down.
  Fits-capped : (m n : ℕ) (c : Capacity) → m < n → Fits m n c → Fits m m c
  Fits-capped m n none above h = h
  Fits-capped m n (some f) above h =
      λ some_left. let room = h some_left in omega (arith, room, above)

  Fit-capped :
      (capacity : Dict Capacity) (rounded : Dict ℕ) (id : String) (m : ℕ)
      → maximum_of id ≡ some m
      → m < at rounded id
      → Fit maximum_of capacity rounded
      → Fit maximum_of capacity (Dict.put rounded id m)
  Fit-capped capacity rounded id m e above h k n e' =
      rw (at-put rounded id k m) (elim (Bool-cases (id == k)) [
        | inl same ↦
            let id_is_k = (eq_iff id k).0 same in
            let m_is_n = some_inj m n (sym e ∙ ap maximum_of id_is_k ∙ e') in
            rw same (
              subst₂ (λ x y. Fits x m (capacity_at capacity y)) m_is_n id_is_k
                (Fits-capped m (at rounded id) (capacity_at capacity id) above (h id m e)))
        | inr other ↦ rw other (h k n e')
      ])

  abbrev pub Within : Dict ℕ → Input → Type 0
  Within rounded e = (m : ℕ) → e.maximum ≡ some m → at rounded e.stratum_id ≤ m

  -- What a round keeps, from the quotas before to the capacities and quotas behind
  pub record Kept (before : Dict ℕ) (capacity : Dict Capacity) (after : Dict ℕ) : Type 0 where
    pub fit : Fit maximum_of capacity after
    pub stays : (k : String) (m : ℕ) → maximum_of k ≡ some m → at before k ≤ m → at after k ≤ m
    pub same_total : total_of after ≡ total_of before
    pub has_all : (k : String) → Dict.has before k ≡ true → Dict.has after k ≡ true

  pub Kept-refl :
      (capacity : Dict Capacity) (rounded : Dict ℕ)
      → Fit maximum_of capacity rounded
      → Kept rounded capacity rounded
  Kept-refl capacity rounded h = record {
    fit = h;
    stays = λ k m e le. le;
    same_total = refl;
    has_all = λ k g. g;
  }

  abbrev state : Capped → Option Capping
  state (capped s) = some s
  state unable = none
  state out_of_fuel = none

  pub capped_inj : (s t : Capping) → capped s ≡ capped t → s ≡ t
  capped_inj s t h = some_inj s t (ap state h)

  placed-lem :
      (note : String) (s t : Capping) (g : Giving)
      → if_placed floats note s g ≡ capped t
      → (g.0 ≡ 0) × (g.1 ≡ t.capacity) × (g.2 ≡ t.rounded)
  placed-lem note s t (left, capacity, rounded) h =
      let w : Capping = record {
        capacity = capacity;
        rounded = rounded;
        notes = s.notes ++ note ∷ [];
        changed = true;
      } in
      elim (Bool-cases (ltb 0 left)) [
        | inl remains ↦
            let stops : if_placed floats note s (left, capacity, rounded) ≡ unable =
              rw remains refl in
            none_some (ap state (sym stops ∙ h))
        | inr all_given ↦
            let same = capped_inj w t (sym (rw all_given refl) ∙ h) in
            (ground (arith, all_given), ap (λ x. x.capacity) same, ap (λ x. x.rounded) same)
      ]

  -- A stratum taken down to its maximum, with all of the excess given away
  Kept-taken_down :
      (es : List Input) (id : String) (m : ℕ) (s : Capping) (g : Giving)
      → maximum_of id ≡ some m
      → m < at s.rounded id
      → Dict.has s.rounded id ≡ true
      → Keeps maximum_of (at s.rounded id - m, s.capacity, Dict.put s.rounded id m) g
      → g.0 ≡ 0
      → Kept s.rounded g.1 g.2 × (at g.2 id ≤ m)
  Kept-taken_down es id m s g e above here keeps all_given =
      let sum = total_of-put s.rounded id m here in
      (
        record {
          fit = keeps.fit;
          stays = λ k n e' le. keeps.stays k n e' (
              rw (at-put s.rounded id k m) (elim (Bool-cases (id == k)) [
                | inl same ↦ rw same (
                    omega (arith, some_inj m n (sym e ∙ ap maximum_of ((eq_iff id k).0 same) ∙ e')))
                | inr other ↦ rw other le
              ]));
          same_total = omega (arith, keeps.same_sum, sum, all_given, above);
          has_all = λ k g'. keeps.has_all k (ground (arith, has-put s.rounded id k m, g'));
        },
        keeps.stays id m e (ground (arith, at-put s.rounded id id m, eq_iff id id)),
      )

  pub Kept-cap_to :
      (es : List Input) (id : String) (o : Option ℕ) (s t : Capping)
      → Known s.rounded es
      → Dict.has s.rounded id ≡ true
      → maximum_of id ≡ o
      → Fit maximum_of s.capacity s.rounded
      → cap_to floats es id o s ≡ capped t
      → Kept s.rounded t.capacity t.rounded × ((m : ℕ) → o ≡ some m → at t.rounded id ≤ m)
  unfolding cap_to
  Kept-cap_to es id none s t known here max fit run = (
    subst (λ (x : Capping). Kept s.rounded x.capacity x.rounded) (capped_inj s t run)
        (Kept-refl s.capacity s.rounded fit),
    λ m e. none_some e,
  )
  Kept-cap_to es id (some m) s t known here max fit run =
      let note = "Capped stratum " <> id <> " at maximum " <> show m in
      let start : Giving = (at s.rounded id - m, s.capacity, Dict.put s.rounded id m) in
      let rs = receivers floats es id s.capacity in
      elim (Bool-cases (leb (at s.rounded id) m)) [
        | inl below ↦
            let same = capped_inj s t (sym (rw below refl) ∙ run) in
            subst
              (λ (x : Capping).
                Kept s.rounded x.capacity x.rounded
                × ((n : ℕ) → some m ≡ some n → at x.rounded id ≤ n))
              same
              (
                Kept-refl s.capacity s.rounded fit,
                λ n e. let m_is_n = some_inj m n e in ground (arith, below, m_is_n),
              )
        | inr over ↦
            let above : m < at s.rounded id = ground (arith, over) in
            let (all_given, same_capacity, same_rounded) =
              placed-lem note s t (hand_out rs start) (sym (rw over refl) ∙ run) in
            let there : All (λ k. Dict.has start.2 k ≡ true) rs =
              All-receivers (λ k. Dict.has start.2 k ≡ true) es id s.capacity
                (All-map (λ (e : Input) h. ground (arith, h.0, has-put s.rounded id e.stratum_id m))
                  es known) in
            let keeps =
              Keeps-hand_out maximum_of rs start
                (Fit-capped s.capacity s.rounded id m max above fit) there in
            let (kept, within) =
              Kept-taken_down es id m s (hand_out rs start) max above here keeps all_given in
            (
              subst₂ (λ c r. Kept s.rounded c r) same_capacity same_rounded kept,
              λ n e. subst₂ (λ r x. at r id ≤ x) same_rounded (some_inj m n e) within,
            )
      ]
