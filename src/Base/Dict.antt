-- ===== src/Base/Dict.antt =====
-- Python's `dict` with text keys, as an association list in insertion order: an assignment to a
-- present key keeps its position, as in Python.
use Prim.Native.Nat.{ℕ, suc}
use Prim.Native.String.{String}
use mathlib.Core.Path.{◌≡◌, refl}
use mathlib.Core.Logic.{◌≢◌}
use mathlib.Core.Bool.{Bool}
use mathlib.Core.Option.{Option, none, some}
use mathlib.Core.List.{List, [], ◌∷◌, ◌++◌}
use native.Mathlib.Omega.{arith}
use text.Mathlib.TextEquality.{eq_iff}
use domain_determine.Base.Tests.{if◌then◌else◌, is_some}
use domain_determine.Base.Equality.{◌==◌, string_eq}

abbrev pub Dict {ℓ} : Type ℓ → Type ℓ
Dict V = List (String × V)

module _ {ℓ} {V : Type ℓ} where
  -- d.get(k), and d[k] with `none` for the KeyError
  unfoldable pub get : Dict V → String → Option V
  get [] k = none
  get ((j, v) ∷ d) k = if j == k then some v else get d k

  -- d[k] = v
  unfoldable pub put : Dict V → String → V → Dict V
  put [] k v = (k, v) ∷ []
  put ((j, w) ∷ d) k v = if j == k then (j, v) ∷ d else (j, w) ∷ put d k v

  -- d.pop(k, None)
  unfoldable pub remove : Dict V → String → Dict V
  remove [] k = []
  remove ((j, w) ∷ d) k = let rest = remove d k in if j == k then rest else (j, w) ∷ rest

  -- d.values()
  unfoldable pub values : Dict V → List V
  values [] = []
  values ((j, v) ∷ d) = v ∷ values d

  -- d.keys()
  unfoldable pub keys : Dict V → List String
  keys [] = []
  keys ((j, v) ∷ d) = j ∷ keys d

  -- len(d)
  unfoldable pub size : Dict V → ℕ
  size [] = 0
  size ((j, v) ∷ d) = suc (size d)

  -- k in d
  abbrev pub has : Dict V → String → Bool
  has d k = is_some (get d k)

  pub get-put :
      (d : Dict V) (k other : String) (v : V)
      → get (put d k v) other ≡ (if k == other then some v else get d other)
  unfolding get put
  get-put [] k j v = refl
  get-put ((i, w) ∷ d) k j v = ground (arith, eq_iff i k, eq_iff i j, eq_iff k j, get-put d k j v)

  pub get-remove :
      (d : Dict V) (k other : String)
      → get (remove d k) other ≡ (if k == other then none else get d other)
  unfolding get remove
  get-remove [] k j = ground arith
  get-remove ((i, w) ∷ d) k j = ground (arith, eq_iff i k, eq_iff i j, eq_iff k j, get-remove d k j)

  pub get-put_self : (d : Dict V) (k : String) (v : V) → get (put d k v) k ≡ some v
  get-put_self d k v = ground (arith, get-put d k k v, eq_iff k k)

  pub get-put_ne : (d : Dict V) (k j : String) (v : V) → k ≢ j → get (put d k v) j ≡ get d j
  get-put_ne d k j v h = ground (arith, get-put d k j v, eq_iff k j)

  pub size-put_new :
      (d : Dict V) (k : String) (v : V) → get d k ≡ none → size (put d k v) ≡ suc (size d)
  unfolding get put size
  size-put_new [] k v h = refl
  size-put_new ((i, w) ∷ d) k v h = ground (arith, size-put_new d k v)

  pub size-put_old :
      (d : Dict V) (k : String) (v w : V) → get d k ≡ some w → size (put d k v) ≡ size d
  unfolding get put size
  size-put_old [] k v w h = cc
  size-put_old ((i, u) ∷ d) k v w h = ground (arith, size-put_old d k v w)

  pub size-put :
      (d : Dict V) (k : String) (v : V)
      → size (put d k v) ≡ (if has d k then size d else suc (size d))
  unfolding get put size
  size-put [] k v = refl
  size-put ((i, w) ∷ d) k v = ground (arith, size-put d k v)

  -- A new key goes to the end.
  pub put_new : (d : Dict V) (k : String) (v : V) → get d k ≡ none → put d k v ≡ d ++ (k, v) ∷ []
  unfolding get put
  put_new [] k v h = refl
  put_new ((i, w) ∷ d) k v h = ground (arith, put_new d k v)

  pub values-append : (d e : Dict V) → values (d ++ e) ≡ values d ++ values e
  unfolding values
  values-append [] e = refl
  values-append ((i, w) ∷ d) e = ground (arith, values-append d e)
