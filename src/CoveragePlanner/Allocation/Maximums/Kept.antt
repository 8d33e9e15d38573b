-- ===== src/CoveragePlanner/Allocation/Maximums/Kept.antt =====
-- What giving an excess to other strata keeps.
use domain_determine.Base.{
  ℕ, zero, suc, ◌+◌, ◌≤◌, String, ◌≡◌, inl, inr, refl, sym, ◌∙◌, true, Option, none, some, List, [],
  ◌∷◌, map, arith, ◌==◌, nat_eq, string_eq, nat_beq, if◌then◌else◌, Bool-cases, All, eq_iff,
}
use domain_determine.Base.Dict
use domain_determine.Base.Dict.{
  Dict, get-put, get-put_self, get-put_ne, get-remove, size-put, size-put_new, size-put_old,
  put_new, values-append,
}
use mathlib.Core.Path.{subst}
use domain_determine.CoveragePlanner.Allocation.{total_of, at}
use domain_determine.CoveragePlanner.Allocation.Rounding.{at-put, has-put, total_of-put}
use domain_determine.CoveragePlanner.Allocation.Maximums.{
  Capacity, capacity_at, Giving, taken, less, give_one, hand_out, receiver_le, insert_receiver,
  sort_receivers,
}

-- A quota and a capacity that fit a maximum: something can be added only as far as the maximum
abbrev pub Fits : ℕ → ℕ → Capacity → Type 0
Fits maximum n none = ⊥
Fits maximum n (some f) = 1 ≤ f → n + f ≤ maximum

pub capacity_at-put :
    (d : Dict Capacity) (k j : String) (c : Capacity)
    → capacity_at (Dict.put d k c) j ≡ (if k == j then c else capacity_at d j)
capacity_at-put d k j c = ground (arith, get-put d k j c)

pub All-map :
    {A : Type 0} {P Q : A → Type 0} → ((x : A) → P x → Q x) → (xs : List A) → All P xs → All Q xs
All-map f [] h = tt
All-map f (x ∷ xs) (h, hs) = (f x h, All-map f xs hs)

abbrev pub Receivers : (String → Type 0) → List (Capacity × String) → Type 0
Receivers P ps = All P (map (λ (p : Capacity × String). p.1) ps)

Receivers-insert_receiver :
    (P : String → Type 0) (p : Capacity × String) (qs : List (Capacity × String))
    → P p.1
    → Receivers P qs
    → Receivers P (insert_receiver p qs)
unfolding insert_receiver
Receivers-insert_receiver P p [] h hs = (h, tt)
Receivers-insert_receiver P p (q ∷ qs) h (g, hs) = elim (Bool-cases (receiver_le p q)) [
  | inl first ↦ rw first (h, (g, hs))
  | inr later ↦ rw later (g, Receivers-insert_receiver P p qs h hs)
]

pub Receivers-sort_receivers :
    (P : String → Type 0) (ps : List (Capacity × String))
    → Receivers P ps
    → Receivers P (sort_receivers ps)
unfolding sort_receivers
Receivers-sort_receivers P [] h = tt
Receivers-sort_receivers P (p ∷ ps) (h, hs) =
    Receivers-insert_receiver P p (sort_receivers ps) h (Receivers-sort_receivers P ps hs)

module _ (maximum_of : String → Option ℕ) where
  -- Every stratum with a maximum fits it.
  abbrev pub Fit : Dict Capacity → Dict ℕ → Type 0
  Fit capacity rounded =
      (k : String) (m : ℕ) → maximum_of k ≡ some m → Fits m (at rounded k) (capacity_at capacity k)

  abbrev pub FitGiving : Giving → Type 0
  FitGiving (excess, capacity, rounded) = Fit capacity rounded

  abbrev pub quota : Giving → String → ℕ
  quota (excess, capacity, rounded) k = at rounded k

  -- A quota that is within its maximum stays so.
  abbrev pub Stays : Giving → Giving → Type 0
  Stays s t = (k : String) (m : ℕ) → maximum_of k ≡ some m → quota s k ≤ m → quota t k ≤ m

  taken-le : (excess f : ℕ) → (taken excess (some f) ≤ f) × (taken excess (some f) ≤ excess)
  taken-le excess f = (ground arith, ground arith)

  Fits-taken :
      (m n excess : ℕ) (c : Capacity)
      → Fits m n c
      → Fits m (n + taken excess c) (less c (taken excess c)) × (n ≤ m → n + taken excess c ≤ m)
  Fits-taken m n excess none h = absurd h
  Fits-taken m n excess (some zero) h =
      let (le_none, le_excess) = taken-le excess 0 in
      (λ some_left. omega (arith, some_left), λ below. omega (arith, below, le_none))
  Fits-taken m n excess (some (suc f)) h =
      let (le_f, le_excess) = taken-le excess (suc f) in
      let room = h (omega arith) in
      (λ some_left. omega (arith, room, le_f), λ below. omega (arith, room, le_f))

  -- One receiver's new quota and capacity, at any stratum
  Fits-put :
      (capacity : Dict Capacity) (rounded : Dict ℕ) (r k : String) (excess m : ℕ)
      → Fits m (at rounded k) (capacity_at capacity k)
      → (let a = taken excess (capacity_at capacity r) in
          Fits m
            (at (Dict.put rounded r (at rounded r + a)) k)
            (capacity_at (Dict.put capacity r (less (capacity_at capacity r) a)) k)
          × (at rounded k ≤ m → at (Dict.put rounded r (at rounded r + a)) k ≤ m))
  Fits-put capacity rounded r k excess m h =
      let a = taken excess (capacity_at capacity r) in
      rw
        (
          at-put rounded r k (at rounded r + a),
          capacity_at-put capacity r k (less (capacity_at capacity r) a),
        )
        (elim (Bool-cases (r == k)) [
          | inl same ↦
              let r_is_k = (eq_iff r k).0 same in
              let (fits, stays) =
                Fits-taken m (at rounded r) excess (capacity_at capacity r)
                  (subst (λ x. Fits m (at rounded x) (capacity_at capacity x)) (sym r_is_k) h) in
              rw same (fits, λ le. stays (subst (λ x. at rounded x ≤ m) (sym r_is_k) le))
          | inr other ↦ rw other (h, λ le. le)
        ])

  Fit-give_one :
      (r : String) (s : Giving) → FitGiving s → FitGiving (give_one r s) × Stays s (give_one r s)
  unfolding give_one
  Fit-give_one r (excess, capacity, rounded) h =
      elim (Bool-cases (nat_beq (taken excess (capacity_at capacity r)) 0)) [
        | inl nothing ↦ rw nothing (h, λ k m e le. le)
        | inr something ↦ rw something (
          λ k m e. (Fits-put capacity rounded r k excess m (h k m e)).0,
          λ k m e. (Fits-put capacity rounded r k excess m (h k m e)).1,
        )
      ]

  -- What giving keeps: the fit, the quotas within their maximums, the sum with the excess, and the strata
  pub record Keeps (s t : Giving) : Type 0 where
    pub fit : FitGiving t
    pub stays : Stays s t
    pub same_sum : t.0 + total_of t.2 ≡ s.0 + total_of s.2
    pub has_all : (k : String) → Dict.has s.2 k ≡ true → Dict.has t.2 k ≡ true

  taken-le_excess : (excess : ℕ) (c : Capacity) → taken excess c ≤ excess
  taken-le_excess excess none = omega arith
  taken-le_excess excess (some f) = (taken-le excess f).1

  Keeps-give_one :
      (r : String) (s : Giving) → FitGiving s → Dict.has s.2 r ≡ true → Keeps s (give_one r s)
  unfolding give_one
  Keeps-give_one r (excess, capacity, rounded) h there =
      let a = taken excess (capacity_at capacity r) in
      let (kept, still) = Fit-give_one r (excess, capacity, rounded) h in
      let sum = total_of-put rounded r (at rounded r + a) there in
      let few = taken-le_excess excess (capacity_at capacity r) in
      record {
        fit = kept;
        stays = still;
        same_sum = elim (Bool-cases (nat_beq a 0)) [
          | inl nothing ↦ rw nothing refl
          | inr something ↦ rw something (omega (arith, sum, few))
        ];
        has_all = λ k g. elim (Bool-cases (nat_beq a 0)) [
          | inl nothing ↦ rw nothing g
          | inr something ↦ rw something (ground (arith, has-put rounded r k (at rounded r + a), g))
        ];
      }

  Keeps-trans : (s t u : Giving) → Keeps s t → Keeps t u → Keeps s u
  Keeps-trans s t u first second = record {
    fit = second.fit;
    stays = λ k m e le. second.stays k m e (first.stays k m e le);
    same_sum = second.same_sum ∙ first.same_sum;
    has_all = λ k g. second.has_all k (first.has_all k g);
  }

  pub Keeps-hand_out :
      (rs : List String) (s : Giving)
      → FitGiving s
      → All (λ r. Dict.has s.2 r ≡ true) rs
      → Keeps s (hand_out rs s)
  unfolding hand_out
  Keeps-hand_out [] s h there = record {
    fit = h;
    stays = λ k m e le. le;
    same_sum = refl;
    has_all = λ k g. g;
  }
  Keeps-hand_out (r ∷ rs) s h (here, there) =
      let one = Keeps-give_one r s h here in
      let rest = Keeps-hand_out rs (give_one r s) one.fit (All-map one.has_all rs there) in
      elim (Bool-cases (nat_beq (give_one r s).0 0)) [
        | inl placed ↦ rw placed one
        | inr remains ↦
            rw remains (Keeps-trans s (give_one r s) (hand_out rs (give_one r s)) one rest)
      ]
