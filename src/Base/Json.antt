-- ===== src/Base/Json.antt =====
-- JSON values, as Python's dicts, lists, texts, numbers and None, and what sorting the keys of every
-- object does to them.
use Prim.Native.String.{String}
use mathlib.Core.Path.{◌≡◌, refl}
use mathlib.Core.Bool.{Bool}
use mathlib.Core.Option
use mathlib.Core.Option.{Option, none, some}
use native.Mathlib.Omega.{arith}
use text.Mathlib.TextEquality.{eq_iff}
use domain_determine.Base.Tests.{if◌then◌else◌}
use domain_determine.Base.Equality.{◌==◌, string_eq}
use domain_determine.Base.Lists.{text_le}
use domain_determine.Base.Int.{ℤ}

-- A float is held by its repr.
mutual
  pub data Json : Type 0 where
    null : Json
    boolean : Bool → Json
    number : ℤ → Json
    float : String → Json
    str : String → Json
    array : Items → Json
    object : Fields → Json

  pub data Items : Type 0 where
    nil : Items
    item : Json → Items → Items

  pub data Fields : Type 0 where
    end : Fields
    field : String → Json → Fields → Fields

-- d.get(k)
unfoldable pub at : Fields → String → Option Json
at end k = none
at (field j v d) k = if j == k then some v else at d k

-- A field put before the first key that is not below it.
unfoldable pub insert_field : String → Json → Fields → Fields
insert_field k v end = field k v end
insert_field k v (field j w d) =
    if text_le k j then field k v (field j w d) else field j w (insert_field k v d)

unfoldable mutual
  unfolding insert_field

  pub sort_json : Json → Json
  sort_json (array xs) = array (sort_items xs)
  sort_json (object d) = object (sort_fields d)
  sort_json null = null
  sort_json (boolean b) = boolean b
  sort_json (number n) = number n
  sort_json (float s) = float s
  sort_json (str s) = str s

  pub sort_items : Items → Items
  sort_items nil = nil
  sort_items (item x xs) = item (sort_json x) (sort_items xs)

  pub sort_fields : Fields → Fields
  sort_fields end = end
  sort_fields (field k v d) = insert_field k (sort_json v) (sort_fields d)

at-insert_field :
    (k j : String) (v : Json) (d : Fields)
    → at (insert_field k v d) j ≡ (if k == j then some v else at d j)
unfolding at insert_field
at-insert_field k j v end = refl
at-insert_field k j v (field i w d) =
    ground (arith, at-insert_field k j v d, eq_iff k i, eq_iff k j, eq_iff i j)

pub at-sort_fields :
    (k : String) (d : Fields) → at (sort_fields d) k ≡ Option.map sort_json (at d k)
unfolding at sort_fields
at-sort_fields k end = refl
at-sort_fields k (field j v d) =
    ground (arith, at-insert_field j k (sort_json v) (sort_fields d), at-sort_fields k d)
