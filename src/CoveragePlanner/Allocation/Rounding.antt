-- ===== src/CoveragePlanner/Allocation/Rounding.antt =====
-- Hamilton's method keeps the total and gives each stratum its floor or one more.
use domain_determine.Base.{
  ℕ, zero, suc, ◌+◌, ◌-◌, ◌≤◌, String, ◌≡◌, refl, ◌∙◌, true, ◌||◌, List, [], ◌∷◌, arith, ◌==◌,
  nat_eq, string_eq, if◌then◌else◌, length, All, eq_iff,
}
use domain_determine.Base.Dict
use domain_determine.Base.Dict.{
  Dict, get-put, get-put_self, get-put_ne, get-remove, size-put, size-put_new, size-put_old,
  put_new, values-append,
}
use domain_determine.CoveragePlanner.Allocation.{
  Floats, total_of, at, take, raise_each, floors, insert_ranked, ranked, names, largest_remainder,
}

pub at-put :
    (d : Dict ℕ) (k j : String) (w : ℕ) → at (Dict.put d k w) j ≡ (if k == j then w else at d j)
at-put d k j w = ground (arith, get-put d k j w)

pub has-put :
    (d : Dict ℕ) (k j : String) (w : ℕ) → Dict.has (Dict.put d k w) j ≡ (k == j || Dict.has d j)
has-put d k j w = ground (arith, get-put d k j w)

pub total_of-put :
    (d : Dict ℕ) (k : String) (w : ℕ)
    → Dict.has d k ≡ true
    → total_of (Dict.put d k w) + at d k ≡ total_of d + w
unfolding total_of Dict.get Dict.put
total_of-put [] k w h = cc
total_of-put ((j, u) ∷ d) k w h = ground (arith, total_of-put d k w)

-- How often a text is in a list
unfoldable pub count : List String → String → ℕ
count [] k = 0
count (j ∷ js) k = let rest = count js k in if j == k then suc rest else rest

count-take : (n : ℕ) (ks : List String) (k : String) → count (take n ks) k ≤ count ks k
unfolding count take
count-take zero ks k = omega arith
count-take (suc n) [] k = omega arith
count-take (suc n) (j ∷ js) k = ground (arith, count-take n js k)

length-take : (n : ℕ) (ks : List String) → n ≤ length ks → length (take n ks) ≡ n
unfolding take
length-take zero ks h = refl
length-take (suc n) [] h = omega arith
length-take (suc n) (j ∷ js) h = omega (arith, length-take n js)

pub has-raise_each :
    (ks : List String) (d : Dict ℕ) (k : String)
    → Dict.has d k ≡ true
    → Dict.has (raise_each ks d) k ≡ true
unfolding raise_each
has-raise_each [] d k h = h
has-raise_each (j ∷ js) d k h =
    has-raise_each js (Dict.put d j (at d j + 1)) k (ground (arith, has-put d j k (at d j + 1)))

at-raise_each :
    (ks : List String) (d : Dict ℕ) (k : String) → at (raise_each ks d) k ≡ at d k + count ks k
unfolding raise_each count
at-raise_each [] d k = omega arith
at-raise_each (j ∷ js) d k =
    ground
      (arith, at-raise_each js (Dict.put d j (at d j + 1)) k, at-put d j k (at d j + 1), eq_iff j k)

All-has :
    (ks : List String) (d : Dict ℕ) (j : String) (w : ℕ)
    → All (λ k. Dict.has d k ≡ true) ks
    → All (λ k. Dict.has (Dict.put d j w) k ≡ true) ks
All-has [] d j w h = tt
All-has (k ∷ ks) d j w (h, hs) = (ground (arith, has-put d j k w), All-has ks d j w hs)

total_of-raise_each :
    (ks : List String) (d : Dict ℕ)
    → All (λ k. Dict.has d k ≡ true) ks
    → total_of (raise_each ks d) ≡ total_of d + length ks
unfolding raise_each
total_of-raise_each [] d h = omega arith
total_of-raise_each (j ∷ js) d (h, hs) =
    let more =
      total_of-raise_each js (Dict.put d j (at d j + 1)) (All-has js d j (at d j + 1) hs) in
    omega (arith, more, total_of-put d j (at d j + 1) h)

All-of_count :
    (ks : List String) (d : Dict ℕ)
    → ((k : String) → 1 ≤ count ks k → Dict.has d k ≡ true)
    → All (λ k. Dict.has d k ≡ true) ks
unfolding count
All-of_count [] d h = tt
All-of_count (k ∷ ks) d h =
    (h k (ground (arith, eq_iff k k)), All-of_count ks d (λ j c. h j (ground (arith, c))))

module _ (floats : Floats) where
  open floats use {Float, floor, subtract, of_int}

  count-insert_ranked :
      (p : Float × String) (qs : List (Float × String)) (k : String)
      → count (names floats (insert_ranked floats p qs)) k ≡ count (names floats (p ∷ qs)) k
  unfolding count insert_ranked
  count-insert_ranked p [] k = refl
  count-insert_ranked p (q ∷ qs) k = ground (arith, count-insert_ranked p qs k)

  count-ranked :
      (d : Dict Float) (k : String)
      → count (names floats (ranked floats d)) k ≡ count (Dict.keys d) k
  unfolding count ranked Dict.keys
  count-ranked [] k = refl
  count-ranked ((j, v) ∷ d) k = ground (
    arith,
    count-insert_ranked (subtract v (of_int (floor v)), j) (ranked floats d) k,
    count-ranked d k,
  )

  length-insert_ranked :
      (p : Float × String) (qs : List (Float × String))
      → length (names floats (insert_ranked floats p qs)) ≡ suc (length (names floats qs))
  unfolding insert_ranked
  length-insert_ranked p [] = refl
  length-insert_ranked p (q ∷ qs) = ground (arith, length-insert_ranked p qs)

  length-ranked : (d : Dict Float) → length (names floats (ranked floats d)) ≡ Dict.size d
  unfolding ranked Dict.size
  length-ranked [] = refl
  length-ranked ((j, v) ∷ d) = ground (
    arith,
    length-insert_ranked (subtract v (of_int (floor v)), j) (ranked floats d),
    length-ranked d,
  )

  pub has-floors : (d : Dict Float) (k : String) → Dict.has (floors floats d) k ≡ Dict.has d k
  unfolding floors Dict.get
  has-floors [] k = refl
  has-floors ((j, v) ∷ d) k = ground (arith, has-floors d k)

  has_of_count : (d : Dict Float) (k : String) → 1 ≤ count (Dict.keys d) k → Dict.has d k ≡ true
  unfolding count Dict.keys Dict.get
  has_of_count [] k h = ground (arith, h)
  has_of_count ((j, v) ∷ d) k h = ground (arith, h, has_of_count d k)

  -- On targets with distinct keys whose floors add up to at most the total, and miss it by at most one
  -- for each key, the rounded quotas add up to the total, and each is the floor of its target or one more.
  pub largest_remainder_bounds :
      (targets : Dict Float) (total : ℕ)
      → ((k : String) → count (Dict.keys targets) k ≤ 1)
      → total_of (floors floats targets) ≤ total
      → total ≤ total_of (floors floats targets) + Dict.size targets
      → (total_of (largest_remainder floats targets total) ≡ total)
        × ((k : String)
            → (at (floors floats targets) k ≤ at (largest_remainder floats targets total) k)
              × (at (largest_remainder floats targets total) k ≤ at (floors floats targets) k + 1))
  unfolding largest_remainder
  largest_remainder_bounds targets total distinct low high =
      let base = floors floats targets in
      let order = names floats (ranked floats targets) in
      let chosen = take (total - total_of base) order in
      let there = All-of_count chosen base (λ k c.
        has-floors targets k
        ∙ has_of_count targets k (
            omega
              (arith, c, count-take (total - total_of base) order k, count-ranked targets k))) in
      let long = length-take (total - total_of base) order (omega (arith, length-ranked targets)) in
      (
        omega (arith, total_of-raise_each chosen base there, long),
        λ k.
            let few = count-take (total - total_of base) order k in
            (
              omega (arith, at-raise_each chosen base k),
              omega (arith, at-raise_each chosen base k, few, count-ranked targets k, distinct k),
            ),
      )
