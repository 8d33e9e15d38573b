-- ===== src/Governance/Versioning/RoundTrip.antt =====
-- Versions are read back as they were written, and each bump is larger than the version before.
use Prim.Native.Char.{code}
use text.Mathlib.TextLemmas.{append_assoc, cons-append, nil-append}
use domain_determine.Base.{
  ℕ, zero, suc, ◌+◌, ◌-◌, ◌*◌, ◌/◌, ◌%◌, ◌≤◌, ◌<◌, String, ◌≡◌, ◌⊎◌, inl, inr, refl, ap, ◌∙◌, Bool,
  true, false, ◌||◌, none, some, [], ◌∷◌, arith, nat_eq, string_eq, nat_beq, Bool-cases, show, ◌<>◌,
  emit, digit, value, code-digit, value-show, truthy, split,
}
use domain_determine.Base.Int.{pos, show_int, parse_int, signed, scan_digits}
use domain_determine.Governance.Versioning.{
  ChangeImpact, Version, render, split_version, bump, initial_version, next_version,
}

-- A text of decimal digits alone.
abbrev AllDigits : String → Type 0
AllDigits String.[] = Unit
AllDigits (String.◌∷◌ c s) = (48 ≤ code c) × (code c ≤ 57) × AllDigits s

emit-AllDigits : (fuel n : ℕ) (out : String) → AllDigits out → AllDigits (emit fuel n out)
unfolding emit
emit-AllDigits zero n out h = h
emit-AllDigits (suc fuel) n out h =
    let d : code (digit (n % 10)) ≡ 48 + n % 10 = code-digit (n % 10) (omega arith) in
    let longer : AllDigits (String.◌∷◌ (digit (n % 10)) out) = (omega arith, omega arith, h) in
    elim (Bool-cases (nat_beq (n / 10) 0)) [
      | inl small ↦ rw small longer
      | inr large ↦ rw large (emit-AllDigits fuel (n / 10) (String.◌∷◌ (digit (n % 10)) out) longer)
    ]

show-AllDigits : (n : ℕ) → AllDigits (show n)
unfolding show
show-AllDigits n = emit-AllDigits (suc n) n "" tt

emit-truthy : (fuel n : ℕ) (out : String) → truthy (emit (suc fuel) n out) ≡ true
unfolding emit
emit-truthy zero n out = ground arith
emit-truthy (suc fuel) n out = elim (Bool-cases (nat_beq (n / 10) 0)) [
  | inl small ↦ rw small
  | inr large ↦ rw large (emit-truthy fuel (n / 10) _)
]

show-truthy : (n : ℕ) → truthy (show n) ≡ true
unfolding show
show-truthy n = emit-truthy n n ""

scan_digits-value :
    (s : String) (b : Bool) (acc : ℕ)
    → AllDigits s
    → (b || truthy s) ≡ true
    → scan_digits b acc s ≡ some (value acc s)
unfolding scan_digits value
scan_digits-value String.[] b acc h t = ground arith
scan_digits-value (String.◌∷◌ c s) b acc h t =
    ground (arith, scan_digits-value s true (acc * 10 + (code c - 48)))

parse_int_digits :
    (s : String) → AllDigits s → truthy s ≡ true → parse_int s ≡ some (pos (value 0 s))
unfolding parse_int signed
parse_int_digits String.[] h t = cc
parse_int_digits (String.◌∷◌ c s) h t =
    ground (arith, scan_digits-value (String.◌∷◌ c s) false 0 h refl)

parse_int-show : (n : ℕ) → parse_int (show n) ≡ some (pos n)
parse_int-show n =
    parse_int_digits (show n) (show-AllDigits n) (show-truthy n)
    ∙ ap (λ k. some (pos k)) (value-show n)

split_digits : (s : String) → AllDigits s → split b'.' s ≡ s ∷ []
unfolding split
split_digits String.[] h = refl
split_digits (String.◌∷◌ c s) h = ground (arith, split_digits s h.2)

split_first : (s t : String) → AllDigits s → split b'.' (s <> String.◌∷◌ "." t) ≡ s ∷ split b'.' t
unfolding split
split_first String.[] t h = rw nil-append
split_first (String.◌∷◌ c s) t h = rw cons-append (ground (arith, split_first s t h.2))

-- The version with natural numbers for its parts.
abbrev pub semver : ℕ → ℕ → ℕ → Version
semver a b c = record { major = pos a; minor = pos b; patch = pos c }

dot-append : (s : String) → "." <> s ≡ String.◌∷◌ "." s
dot-append s = cons-append "." "" s ∙ ap (String.◌∷◌ ".") (nil-append s)

render-semver :
    (a b c : ℕ)
    → render (semver a b c) ≡ show a <> String.◌∷◌ "." (show b <> String.◌∷◌ "." (show c))
unfolding render show_int
render-semver a b c = simp (append_assoc, dot-append, cons-append)

-- Splitting the rendered version of three natural numbers gives the three numbers back.
pub split_version-render : (a b c : ℕ) → split_version (render (semver a b c)) ≡ some (semver a b c)
unfolding split_version
split_version-render a b c = rw (
  render-semver,
  split_first (show a) _ (show-AllDigits a),
  split_first (show b) _ (show-AllDigits b),
  split_digits (show c) (show-AllDigits c),
  parse_int-show,
  parse_int-show,
  parse_int-show,
)

-- The order of versions: by the major number, then the minor, then the patch number.
abbrev pub Below : ℕ × ℕ × ℕ → ℕ × ℕ × ℕ → Type 0
Below (a, b, c) (a', b', c') = (a < a') ⊎ ((a ≡ a') × ((b < b') ⊎ ((b ≡ b') × (c < c'))))

-- What a change makes of the numbers of a version.
abbrev pub bumped : ℕ × ℕ × ℕ → ChangeImpact → ℕ × ℕ × ℕ
bumped (a, b, c) ChangeImpact.major = (suc a, 0, 0)
bumped (a, b, c) ChangeImpact.minor = (a, suc b, 0)
bumped (a, b, c) ChangeImpact.patch = (a, b, suc c)

abbrev pub text_of : ℕ × ℕ × ℕ → String
text_of (a, b, c) = render (semver a b c)

next_version-render :
    (a b c : ℕ) (impact : ChangeImpact)
    → next_version (some (text_of (a, b, c))) impact ≡ some (text_of (bumped (a, b, c) impact))
unfolding next_version bump
next_version-render a b c ChangeImpact.major = rw split_version-render
next_version-render a b c ChangeImpact.minor = rw split_version-render
next_version-render a b c ChangeImpact.patch = rw split_version-render

-- The version after a version a.b.c is a.b.c with the number of the change's impact raised by one and
-- the numbers behind it reset, and it is a later version.
pub next_version_lem :
    (a b c : ℕ) (impact : ChangeImpact)
    → (next_version (some (text_of (a, b, c))) impact ≡ some (text_of (bumped (a, b, c) impact)))
      × Below (a, b, c) (bumped (a, b, c) impact)
next_version_lem a b c ChangeImpact.major =
    (next_version-render a b c ChangeImpact.major, inl (omega arith))
next_version_lem a b c ChangeImpact.minor =
    (next_version-render a b c ChangeImpact.minor, inr (refl, inl (omega arith)))
next_version_lem a b c ChangeImpact.patch =
    (next_version-render a b c ChangeImpact.patch, inr (refl, inr (refl, omega arith)))

-- A first version is one of these.
pub initial_version_lem :
    (impact : ChangeImpact) → next_version none impact ≡ some (text_of (bumped (0, 0, 0) impact))
unfolding next_version initial_version render show
initial_version_lem ChangeImpact.major = refl
initial_version_lem ChangeImpact.minor = refl
initial_version_lem ChangeImpact.patch = refl
