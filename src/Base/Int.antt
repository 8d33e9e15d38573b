-- ===== src/Base/Int.antt =====
-- Python's integers, over the native numbers.
use Prim.Native.Nat.{ℕ, zero, suc, ◌+◌, ◌-◌, ◌*◌}
use Prim.Native.Char.{code}
use mathlib.Core.Bool.{Bool, true, false, ◌&&◌, ◌||◌}
use mathlib.Core.Option
use mathlib.Core.Option.{Option, none, some}
use domain_determine.Base.Tests.{ltb, leb, nat_beq, if◌then◌else◌}
use Prim.Native.String.{String}
use domain_determine.Base.Decimal.{show, ◌<>◌}

-- `negsuc n` is -(n + 1).
pub data ℤ : Type 0 where
  pos : ℕ → ℤ
  negsuc : ℕ → ℤ

-- f"{n}"
unfoldable pub show_int : ℤ → String
show_int (pos n) = show n
show_int (negsuc n) = "-" <> show (suc n)

-- n + 1
unfoldable pub increment : ℤ → ℤ
increment (pos n) = pos (suc n)
increment (negsuc zero) = pos 0
increment (negsuc (suc n)) = negsuc n

-- The white space that `int` allows around an ASCII numeral.
abbrev pub is_ascii_space : ℕ → Bool
is_ascii_space c = (leb 9 c && leb c 13) || nat_beq c 32

abbrev pub is_digit : ℕ → Bool
is_digit c = leb 48 c && leb c 57

unfoldable pub all_space : String → Bool
all_space String.[] = true
all_space (String.◌∷◌ c s) = is_ascii_space (code c) && all_space s

-- The digits of a numeral, in groups that one `_` parts, and then white space. The flag tells that
-- the last character was a digit.
unfoldable pub scan_digits : Bool → ℕ → String → Option ℕ
unfolding all_space
scan_digits after_digit acc String.[] = if after_digit then some acc else none
scan_digits after_digit acc (String.◌∷◌ c s) =
    let more = scan_digits true (acc * 10 + (code c - 48)) s in
    let parted = scan_digits false acc s in
    if is_digit (code c)
    then more
    else if after_digit && nat_beq (code c) 95
    then parted
    else if after_digit && is_ascii_space (code c) && all_space s
    then some acc
    else none

abbrev pub negated : ℕ → ℤ
negated zero = pos 0
negated (suc n) = negsuc n

unfoldable pub signed : String → Option ℤ
unfolding scan_digits
signed String.[] = none
signed (String.◌∷◌ c s) =
    if nat_beq (code c) 45
    then Option.map negated (scan_digits false 0 s)
    else if nat_beq (code c) 43
    then Option.map pos (scan_digits false 0 s)
    else Option.map pos (scan_digits false 0 (String.◌∷◌ c s))

-- int(s) of an ASCII text, `none` for the ValueError
unfoldable pub parse_int : String → Option ℤ
unfolding signed
parse_int String.[] = none
parse_int (String.◌∷◌ c s) =
    let later = parse_int s in if is_ascii_space (code c) then later else signed (String.◌∷◌ c s)

-- a < b
abbrev pub ltb_ℤ : ℤ → ℤ → Bool
ltb_ℤ (pos a) (pos b) = ltb a b
ltb_ℤ (pos a) (negsuc b) = false
ltb_ℤ (negsuc a) (pos b) = true
ltb_ℤ (negsuc a) (negsuc b) = ltb b a
