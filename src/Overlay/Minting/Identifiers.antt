-- ===== src/Overlay/Minting/Identifiers.antt =====
-- `OverlayIdGenerator.generate` comes to an end, with an identifier that is not issued yet.
use domain_determine.Base.{
  ℕ, zero, suc, ◌≤◌, ◌<◌, String, ◌≡◌, ◌≢◌, inl, inr, refl, sym, ap, ◌∙◌, true, false, none, some,
  List, [], ◌∷◌, arith, ◌==◌, nat_eq, string_eq, nat_beq, if◌then◌else◌, Bool-cases, Option-cases,
  absurd_bool, none_some, some_inj, length, contains, show, ◌<>◌, show-injective, eq_iff,
}
use text.Mathlib.TextLemmas.{append_cancel_left, append-nil, nil≢cons, tail-eq_of_cons-eq}
use domain_determine.Overlay.Minting.{identifier, generate}

too_many : (n : ℕ) → ¬ (suc n ≤ n)
too_many n h = omega arith

-- The list without the first occurrence of a text.
without : String → List String → List String
without k [] = []
without k (j ∷ js) = if j == k then js else j ∷ without k js

length-without :
    (k : String) (js : List String) → contains js k ≡ true → length js ≡ suc (length (without k js))
unfolding without contains
length-without k [] h = absurd_bool (sym h)
length-without k (j ∷ js) h = ground (arith, length-without k js)

contains-without :
    (k other : String) (js : List String)
    → (k == other) ≡ false
    → contains (without k js) other ≡ contains js other
unfolding without contains
contains-without k other [] h = refl
contains-without k other (j ∷ js) h =
    ground (arith, contains-without k other js, eq_iff j k, eq_iff j other, eq_iff k other)

module _ (namespace slug : String) where
  abbrev base : String
  base = namespace <> String.◌∷◌ ":" slug

  identifier-first : (n : ℕ) → nat_beq n 0 ≡ true → identifier namespace slug n ≡ base
  unfolding identifier
  identifier-first n h = rw h refl

  identifier-later :
      (n : ℕ) → nat_beq n 0 ≡ false → identifier namespace slug n ≡ base <> String.◌∷◌ "-" (show n)
  unfolding identifier
  identifier-later n h = rw h refl

  identifier_lt : (m n : ℕ) → m < n → identifier namespace slug m ≢ identifier namespace slug n
  identifier_lt m n h e =
      let after = identifier-later n (ground arith) in
      elim (Bool-cases (nat_beq m 0)) [
        | inl first ↦ nil≢cons (
            append_cancel_left base _ _
              (append-nil base ∙ sym (identifier-first m first) ∙ e ∙ after))
        | inr later ↦
            let tails = append_cancel_left base _ _ (sym (identifier-later m later) ∙ e ∙ after) in
            let same : m ≡ n = show-injective m n (tail-eq_of_cons-eq tails) in absurd (omega arith)
      ]

  differs : (m n : ℕ) → m < n → (identifier namespace slug m == identifier namespace slug n) ≡ false
  differs m n h = elim (Bool-cases (identifier namespace slug m == identifier namespace slug n)) [
    | inl same ↦ absurd (identifier_lt m n h ((eq_iff _ _).0 same))
    | inr other ↦ other
  ]

  -- As long as every identifier was issued, there are as many issued as there were rounds.
  rounds_le :
      (fuel counter : ℕ) (issued pool : List String)
      → ((k : ℕ)
          → counter ≤ k
          → contains issued (identifier namespace slug k) ≡ true
          → contains pool (identifier namespace slug k) ≡ true)
      → generate fuel namespace slug counter issued ≡ none
      → fuel ≤ length pool
  unfolding generate
  rounds_le zero counter issued pool inside e = omega arith
  rounds_le (suc fuel) counter issued pool inside e =
      elim (Bool-cases (contains issued (identifier namespace slug counter))) [
        | inr free ↦ none_some (sym (rw (free, generate) at e))
        | inl taken ↦
            let id = identifier namespace slug counter in
            let shorter = length-without id pool (inside counter (omega arith) taken) in
            let later =
              rounds_le fuel (suc counter) issued (without id pool)
                (λ k le here.
                  contains-without id (identifier namespace slug k) pool
                    (differs counter k (omega arith))
                  ∙ inside k (omega arith) here)
                (rw (taken, generate) at e) in
            omega arith
      ]

  generate-free :
      (fuel counter : ℕ) (issued : List String) (id : String)
      → generate fuel namespace slug counter issued ≡ some id
      → contains issued id ≡ false
  unfolding generate
  generate-free zero counter issued id e = none_some e
  generate-free (suc fuel) counter issued id e =
      elim (Bool-cases (contains issued (identifier namespace slug counter))) [
        | inl taken ↦ generate-free fuel (suc counter) issued id (rw (taken, generate) at e)
        | inr free ↦ ap (contains issued) (sym (some_inj _ _ (rw (free, generate) at e))) ∙ free
      ]

  -- With one round more than there are identifiers issued, the generator finds one, and it was not issued
  -- before.
  pub generate_total :
      (issued : List String)
      → (id : String) × (generate (suc (length issued)) namespace slug 0 issued ≡ some id)
        × (contains issued id ≡ false)
  generate_total issued =
      elim (Option-cases (generate (suc (length issued)) namespace slug 0 issued)) [
        | inl stuck ↦ absurd (
            too_many (length issued)
              (rounds_le (suc (length issued)) 0 issued issued (λ k le here. here) stuck))
        | inr (id, found) ↦ (id, found, generate-free (suc (length issued)) 0 issued id found)
      ]
