-- ===== src/CoveragePlanner/Allocation/Maximums.antt =====
-- src/DomainDetermine/coverage_planner/allocation.py: `_respect_maximums`, which takes quotas above their
-- maximum down and gives the excess to other strata.
pub mod Kept
pub mod TakenDown
pub mod Settled
use domain_determine.Base.{
  ℕ, zero, suc, ◌+◌, ◌-◌, ◌*◌, ◌/◌, ◌%◌, ◌≤◌, ◌<◌, String, ◌≡◌, ◌≢◌, ◌↔◌, ◌⊎◌, inl, inr, refl, sym,
  ap, ◌∙◌, Bool, true, false, not, ◌&&◌, ◌||◌, Option, none, some, List, [], ◌∷◌, ◌++◌, map, arith,
  Eq, ◌==◌, nat_eq, string_eq, nat_beq, eq_of_discrete, if◌then◌else◌, ltb, leb, is_some, get_or,
  Bool-cases, Option-cases, absurd_bool, none_some, some_inj, or_left, or_right, length, keep,
  every, some_of, contains, add, to_set, subset, meets, insert_sorted, sorted, text_le, All,
  length-append, contains-append, contains-add, contains-to_set, contains_of_subset, subset_mono,
  contains-sorted, show, ◌<>◌, emit, digit, value, code-digit, value-show, show-injective,
  numbered-injective, truthy, truthy_opt, is_space, strip_left, strip_right, strip, prepend, split,
  split_once, eq_iff,
}
use domain_determine.Base.Dict
use domain_determine.Base.Dict.{
  Dict, get-put, get-put_self, get-put_ne, get-remove, size-put, size-put_new, size-put_old,
  put_new, values-append,
}
use domain_determine.CoveragePlanner.Allocation.{Floats, StratumAllocationInput, total_of, at}

-- What a stratum can still take, `none` for no limit. Where the source has a capacity below zero it is 0
-- here: neither lets the stratum receive anything.
abbrev pub Capacity : Type 0
Capacity = Option ℕ

abbrev pub capacity_lt : Capacity → Capacity → Bool
capacity_lt none d = false
capacity_lt (some m) none = true
capacity_lt (some m) (some n) = ltb m n

abbrev pub capacity_at : Dict Capacity → String → Capacity
capacity_at d k = get_or (Dict.get d k) (some 0)

-- The sort key (-capacity, stratum_id)
abbrev pub receiver_le : Capacity × String → Capacity × String → Bool
receiver_le (c, s) (d, t) = capacity_lt d c || (not (capacity_lt c d) && text_le s t)

unfoldable pub insert_receiver :
    Capacity × String → List (Capacity × String) → List (Capacity × String)
insert_receiver p [] = p ∷ []
insert_receiver p (q ∷ qs) = if receiver_le p q then p ∷ q ∷ qs else q ∷ insert_receiver p qs

unfoldable pub sort_receivers : List (Capacity × String) → List (Capacity × String)
unfolding insert_receiver
sort_receivers [] = []
sort_receivers (p ∷ ps) = insert_receiver p (sort_receivers ps)

-- The excess that is left, the capacities and the quotas
abbrev pub Giving : Type 0
Giving = ℕ × Dict Capacity × Dict ℕ

-- take = min(excess, available)
abbrev pub taken : ℕ → Capacity → ℕ
taken excess none = excess
taken excess (some available) = if ltb available excess then available else excess

-- max(0.0, available - take)
abbrev pub less : Capacity → ℕ → Capacity
less none take = none
less (some available) take = some (available - take)

-- The body of the loop over the receivers
unfoldable pub give_one : String → Giving → Giving
give_one receiver (excess, capacity, rounded) =
    let available = capacity_at capacity receiver in
    let amount = taken excess available in
    if nat_beq amount 0 then (excess, capacity, rounded) else (
      excess - amount,
      Dict.put capacity receiver (less available amount),
      Dict.put rounded receiver (at rounded receiver + amount),
    )

-- The loop over the receivers; the excess is positive before it, and it ends once nothing is left
unfoldable pub hand_out : List String → Giving → Giving
unfolding give_one
hand_out [] s = s
hand_out (r ∷ rs) s =
    let rest = hand_out rs (give_one r s) in
    if nat_beq (give_one r s).0 0 then give_one r s else rest

-- What the while loop keeps: the capacities, the quotas, the notes and `changed`
pub record Capping : Type 0 where
  pub capacity : Dict Capacity
  pub rounded : Dict ℕ
  pub notes : List String
  pub changed : Bool

-- `unable` is the ValueError "Unable to redistribute quota without violating maximums".
pub data Capped : Type 0 where
  capped : Capping → Capped
  unable out_of_fuel : Capped

-- The quotas and the notes, or a ValueError
pub data Respected : Type 0 where
  respected : Dict ℕ → List String → Respected
  value_error out_of_rounds : Respected

module _ (floats : Floats) where
  abbrev pub capacity_for : Option ℕ → ℕ → Capacity
  capacity_for none quota = none
  capacity_for (some maximum) quota = some (maximum - quota)

  -- capacity
  unfoldable pub capacities :
      List (StratumAllocationInput floats) → Dict ℕ → Dict Capacity → Dict Capacity
  capacities [] rounded d = d
  capacities (e ∷ es) rounded d =
      capacities es rounded
        (Dict.put d e.stratum_id (capacity_for e.maximum (at rounded e.stratum_id)))

  -- receivers, by their names
  unfoldable pub receivers :
      List (StratumAllocationInput floats) → String → Dict Capacity → List String
  unfolding sort_receivers keep
  receivers inputs id capacity =
      map (λ (p : Capacity × String). p.1)
        (sort_receivers (
          map
            (λ (e : StratumAllocationInput floats).
              (capacity_at capacity e.stratum_id, e.stratum_id))
            (keep (λ (e : StratumAllocationInput floats). not (e.stratum_id == id)) inputs)))

  abbrev pub if_placed : String → Capping → Giving → Capped
  if_placed note s (left, capacity, rounded) =
      if ltb 0 left
      then unable
      else capped (record {
        capacity = capacity;
        rounded = rounded;
        notes = s.notes ++ note ∷ [];
        changed = true;
      })

  -- The body of the loop over the strata, from the name and the maximum of the stratum
  unfoldable pub cap_to :
      List (StratumAllocationInput floats) → String → Option ℕ → Capping → Capped
  unfolding hand_out receivers
  cap_to inputs id none s = capped s
  cap_to inputs id (some maximum) s =
      let current = at s.rounded id in
      if leb current maximum
      then capped s
      else if_placed ("Capped stratum " <> id <> " at maximum " <> show maximum) s (
          hand_out (receivers inputs id s.capacity)
            (current - maximum, s.capacity, Dict.put s.rounded id maximum))

  unfoldable pub cap_all :
      List (StratumAllocationInput floats) → List (StratumAllocationInput floats) → Capping → Capped
  unfolding cap_to
  cap_all inputs [] s = capped s
  cap_all inputs (e ∷ es) s = elim (cap_to inputs e.stratum_id e.maximum s) [
    | capped s' ↦ cap_all inputs es s'
    | unable ↦ unable
    | out_of_fuel ↦ out_of_fuel
  ]

  -- while changed
  unfoldable pub cap_loop : ℕ → List (StratumAllocationInput floats) → Capping → Capped
  unfolding cap_all
  cap_loop zero inputs s = out_of_fuel
  cap_loop (suc fuel) inputs s = elim (cap_all inputs inputs (record s { changed = false })) [
    | capped s' ↦ (let again = cap_loop fuel inputs s' in if s'.changed then again else capped s')
    | unable ↦ unable
    | out_of_fuel ↦ out_of_fuel
  ]

  -- max(rounded, key=rounded.get), the first of the largest
  unfoldable pub largest : String → ℕ → Dict ℕ → String
  largest k n [] = k
  largest k n ((j, m) ∷ d) = if ltb n m then largest j m d else largest k n d

  -- The totals behind the loop; `max` of no quota raises. The source's quota goes below 0 where the excess
  -- is larger than the quota, and this one stops at 0.
  abbrev pub adjust_total : Dict ℕ → List String → ℕ → Respected
  adjust_total [] notes total = if nat_beq total 0 then respected [] notes else value_error
  adjust_total ((k, n) ∷ d) notes total =
      let quotas = (k, n) ∷ d in
      let target = largest k n d in
      if nat_beq (total_of quotas) total
      then respected quotas notes
      else respected (Dict.put quotas target (at quotas target + total - total_of quotas))
          (notes ++ "Adjusted totals to maintain global budget after maximum enforcement" ∷ [])

  -- _respect_maximums, with two rounds of its loop as fuel
  unfoldable pub respect_maximums : Dict ℕ → List (StratumAllocationInput floats) → ℕ → Respected
  unfolding cap_loop capacities largest total_of
  respect_maximums rounded inputs total =
      elim (cap_loop 2 inputs (record {
        capacity = capacities inputs rounded [];
        rounded = rounded;
        notes = [];
        changed = true;
      })) [
        | capped s ↦ adjust_total s.rounded s.notes total
        | unable ↦ value_error
        | out_of_fuel ↦ out_of_rounds
      ]
