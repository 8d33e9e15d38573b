-- ===== src/Base/Decimal.antt =====
-- f"{n}" for a natural number n: decimal numerals, and that different numbers print differently.
use Prim.Native.Nat.{ℕ, zero, suc, ◌+◌, ◌-◌, ◌*◌, ◌/◌, ◌%◌, ◌<◌}
use Prim.Native.Char.{Char, code}
use Prim.Native.String.{String, ◌++◌}
use mathlib.Core.Path.{◌≡◌, refl, sym, ◌∙◌, ap}
use mathlib.Core.Logic.{inl, inr}
use native.Mathlib.Omega.{arith}
use text.Mathlib.TextLemmas.{append_cancel_left}
use domain_determine.Base.Tests.{nat_beq, if◌then◌else◌, Bool-cases}

infixl 65 ◌<>◌
-- s + t on texts
abbrev pub ◌<>◌ : String → String → String
s <> t = s ++ t

abbrev pub digit : ℕ → Char
digit zero = "0"
digit (suc zero) = "1"
digit (suc (suc zero)) = "2"
digit (suc (suc (suc zero))) = "3"
digit (suc (suc (suc (suc zero)))) = "4"
digit (suc (suc (suc (suc (suc zero))))) = "5"
digit (suc (suc (suc (suc (suc (suc zero)))))) = "6"
digit (suc (suc (suc (suc (suc (suc (suc zero))))))) = "7"
digit (suc (suc (suc (suc (suc (suc (suc (suc zero)))))))) = "8"
digit _ = "9"

pub code-digit : (d : ℕ) → d < 10 → code (digit d) ≡ 48 + d
code-digit zero h = refl
code-digit (suc zero) h = refl
code-digit (suc (suc zero)) h = refl
code-digit (suc (suc (suc zero))) h = refl
code-digit (suc (suc (suc (suc zero)))) h = refl
code-digit (suc (suc (suc (suc (suc zero))))) h = refl
code-digit (suc (suc (suc (suc (suc (suc zero)))))) h = refl
code-digit (suc (suc (suc (suc (suc (suc (suc zero))))))) h = refl
code-digit (suc (suc (suc (suc (suc (suc (suc (suc zero)))))))) h = refl
code-digit (suc (suc (suc (suc (suc (suc (suc (suc (suc zero))))))))) h = refl
code-digit (suc (suc (suc (suc (suc (suc (suc (suc (suc (suc d)))))))))) h = absurd (omega arith)

-- The digits of `n` before `out`, the last digit first.
unfoldable pub emit : ℕ → ℕ → String → String
emit zero n out = out
emit (suc fuel) n out =
    let longer = String.◌∷◌ (digit (n % 10)) out in
    let rest = emit fuel (n / 10) longer in if nat_beq (n / 10) 0 then longer else rest

unfoldable pub show : ℕ → String
unfolding emit
show n = emit (suc n) n ""

unfoldable pub value : ℕ → String → ℕ
value acc String.[] = acc
value acc (String.◌∷◌ c s) = value (acc * 10 + (code c - 48)) s

value-digit :
    (acc d : ℕ) (s : String) → d < 10 → value acc (String.◌∷◌ (digit d) s) ≡ value (acc * 10 + d) s
unfolding value
value-digit acc d s h = ap (λ k. value k s) (omega (arith, code-digit d h))

-- Enough fuel writes every digit.
value-emit : (fuel n : ℕ) (out : String) → n < fuel → value 0 (emit fuel n out) ≡ value n out
unfolding emit
value-emit zero n out h = absurd (omega arith)
value-emit (suc fuel) n out h = elim (Bool-cases (nat_beq (n / 10) 0)) [
  | inl small ↦
      rw small (value-digit 0 (n % 10) out (omega arith) ∙ ap (λ k. value k out) (ground arith))
  | inr large ↦ rw large (
      value-emit fuel (n / 10) (String.◌∷◌ (digit (n % 10)) out) (ground arith)
      ∙ value-digit (n / 10) (n % 10) out (omega arith)
      ∙ ap (λ k. value k out) (omega arith))
]

pub value-show : (n : ℕ) → value 0 (show n) ≡ n
unfolding show value
value-show n = value-emit (suc n) n "" (omega arith)

pub show-injective : (m n : ℕ) → show m ≡ show n → m ≡ n
show-injective m n h = sym (value-show m) ∙ ap (value 0) h ∙ value-show n

-- Two texts made of one prefix and a number are equal only if the numbers are.
pub numbered-injective : (prefix : String) (m n : ℕ) → prefix <> show m ≡ prefix <> show n → m ≡ n
numbered-injective prefix m n h = show-injective m n (append_cancel_left prefix _ _ h)

show_204 : show 204 ≡ "204"
unfolding show
show_204 = refl
