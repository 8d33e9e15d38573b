-- ===== src/Service/Jobs/Lists.antt =====
-- How often a job stands in the pool's lists.
use domain_determine.Base.{
  ℕ, ◌+◌, ◌<◌, String, ◌≡◌, true, List, [], ◌∷◌, ◌++◌, arith, ◌==◌, nat_eq, string_eq,
  if◌then◌else◌, contains, eq_iff,
}
use domain_determine.Service.Jobs.{take_out}

unfoldable pub occurrences : List String → String → ℕ
occurrences [] k = 0
occurrences (j ∷ js) k = (if j == k then 1 else 0) + occurrences js k

pub occurrences-snoc :
    (js : List String) (j k : String)
    → occurrences (js ++ j ∷ []) k ≡ occurrences js k + (if j == k then 1 else 0)
unfolding occurrences
occurrences-snoc [] j k = omega arith
occurrences-snoc (i ∷ js) j k = omega (arith, occurrences-snoc js j k)

pub occurrences_pos : (js : List String) (k : String) → contains js k ≡ true → 0 < occurrences js k
unfolding occurrences contains
occurrences_pos [] k h = cc
occurrences_pos (j ∷ js) k h = ground (arith, occurrences_pos js k)

pub occurrences-take_out :
    (js : List String) (j k : String)
    → 0 < occurrences js j
    → occurrences (take_out j js) k + (if j == k then 1 else 0) ≡ occurrences js k
unfolding occurrences take_out
occurrences-take_out [] j k h = absurd (omega arith)
occurrences-take_out (i ∷ js) j k h =
    ground (arith, occurrences-take_out js j k, eq_iff i j, eq_iff i k, eq_iff j k)

pub contains_of_occurrences :
    (js : List String) (k : String) → 0 < occurrences js k → contains js k ≡ true
unfolding occurrences contains
contains_of_occurrences [] k h = absurd (omega arith)
contains_of_occurrences (j ∷ js) k h = ground (arith, contains_of_occurrences js k)
