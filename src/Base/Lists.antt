-- ===== src/Base/Lists.antt =====
-- Lists: membership tests, the prefix of a list, and orders of texts.
use Prim.Native.Nat.{ℕ, suc, ◌+◌, Ordering}
use Prim.Native.String.{String, compare}
use mathlib.Core.Path.{◌≡◌, refl}
use mathlib.Core.Bool.{Bool, true, false, ◌||◌, ◌&&◌}
use mathlib.Core.List.{List, [], ◌∷◌, ◌++◌}
use native.Mathlib.Omega.{arith}
use domain_determine.Base.Tests.{if◌then◌else◌}
use domain_determine.Base.Equality.{Eq, ◌==◌, string_eq}

module _ {ℓ} {A : Type ℓ} where
  abbrev pub length : List A → ℕ
  length [] = 0
  length (x ∷ xs) = suc (length xs)

  pub length-append : (xs ys : List A) → length (xs ++ ys) ≡ length xs + length ys
  length-append [] ys = omega arith
  length-append (x ∷ xs) ys = omega (arith, length-append xs ys)

  -- [x for x in xs if p(x)]
  unfoldable pub keep : (A → Bool) → List A → List A
  keep p [] = []
  keep p (x ∷ xs) = let rest = keep p xs in if p x then x ∷ rest else rest

  -- all(p(x) for x in xs)
  unfoldable pub every : (A → Bool) → List A → Bool
  every p [] = true
  every p (x ∷ xs) = p x && every p xs

  -- any(p(x) for x in xs)
  unfoldable pub some_of : (A → Bool) → List A → Bool
  some_of p [] = false
  some_of p (x ∷ xs) = p x || some_of p xs

abbrev pub All {ℓ κ} : {A : Type ℓ} → (A → Type κ) → List A → Type κ
All P [] = Unit
All P (x ∷ xs) = P x × All P xs

module _ {ℓ} {A : Type ℓ} ⦃e : Eq A⦄ where
  -- a in xs
  unfoldable pub contains : List A → A → Bool
  contains [] a = false
  contains (x ∷ xs) a = x == a || contains xs a

  -- s.add(a), for a set held as a list without repetitions
  unfoldable pub add : List A → A → List A
  unfolding contains
  add xs a = if contains xs a then xs else xs ++ a ∷ []

  -- set(xs)
  unfoldable pub to_set : List A → List A
  unfolding add
  to_set [] = []
  to_set (x ∷ xs) = add (to_set xs) x

  -- set(xs).issubset(ys)
  unfoldable pub subset : List A → List A → Bool
  unfolding contains
  subset [] ys = true
  subset (x ∷ xs) ys = contains ys x && subset xs ys

  -- set(xs).intersection(ys), as a test for being non-empty
  unfoldable pub meets : List A → List A → Bool
  unfolding contains
  meets [] ys = false
  meets (x ∷ xs) ys = contains ys x || meets xs ys

  pub contains-append :
      (xs ys : List A) (a : A) → contains (xs ++ ys) a ≡ (contains xs a || contains ys a)
  unfolding contains
  contains-append [] ys a = refl
  contains-append (x ∷ xs) ys a = ground (arith, contains-append xs ys a)

  pub contains-add : (xs : List A) (a b : A) → contains (add xs a) b ≡ (a == b || contains xs b)
  unfolding contains add
  contains-add xs a b = ground (arith, contains-append xs (a ∷ []) b, e.same_iff a b)

  pub contains-to_set : (xs : List A) (a : A) → contains (to_set xs) a ≡ contains xs a
  unfolding contains to_set
  contains-to_set [] a = refl
  contains-to_set (x ∷ xs) a = ground (arith, contains-add (to_set xs) x a, contains-to_set xs a)

  -- A subset test that passes puts each member of the first list into the second.
  pub contains_of_subset :
      (xs ys : List A) (a : A) → subset xs ys ≡ true → contains xs a ≡ true → contains ys a ≡ true
  unfolding subset contains
  contains_of_subset [] ys a h m = cc
  contains_of_subset (x ∷ xs) ys a h m = ground (arith, e.same_iff x a, contains_of_subset xs ys a)

  pub subset_mono :
      (xs ys zs : List A)
      → ((a : A) → contains ys a ≡ true → contains zs a ≡ true)
      → subset xs ys ≡ true
      → subset xs zs ≡ true
  unfolding subset
  subset_mono [] ys zs h s = refl
  subset_mono (x ∷ xs) ys zs h s = ground (arith, h x, subset_mono xs ys zs h)

-- `s <= t` on texts
abbrev pub text_le : String → String → Bool
text_le s t = elim (compare s t) [ Ordering.gt ↦ false | _ ↦ true ]

unfoldable pub insert_sorted : String → List String → List String
insert_sorted s [] = s ∷ []
insert_sorted s (t ∷ ts) = if text_le s t then s ∷ t ∷ ts else t ∷ insert_sorted s ts

-- sorted(xs) on texts
unfoldable pub sorted : List String → List String
unfolding insert_sorted
sorted [] = []
sorted (s ∷ ts) = insert_sorted s (sorted ts)

contains-insert_sorted :
    (s t : String) (xs : List String) → contains (insert_sorted s xs) t ≡ (s == t || contains xs t)
unfolding contains insert_sorted
contains-insert_sorted s t [] = refl
contains-insert_sorted s t (x ∷ xs) = ground (arith, contains-insert_sorted s t xs)

-- Sorting keeps the members.
pub contains-sorted : (xs : List String) (t : String) → contains (sorted xs) t ≡ contains xs t
unfolding contains sorted
contains-sorted [] t = refl
contains-sorted (x ∷ xs) t =
    ground (arith, contains-insert_sorted x t (sorted xs), contains-sorted xs t)
