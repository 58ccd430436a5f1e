-- ===== src/Common/Maps.antt =====
-- `BTreeMap` as an association list: `get` and `insert`. The program never reads its order.
use mathlib.Core.Path.{◌≡◌}
use mathlib.Core.Bool.{true, false}
use mathlib.Core.Option.{Option, none, some}
use mathlib.Core.List.{List, [], ◌∷◌}
use native.Mathlib.Omega.{arith}
use checkspan.Common.Tests.{if◌then◌else◌}
use checkspan.Common.Equality.{Eq, ◌==◌, ==→≡, ==_self, ≡→==}

module _ {ℓ κ} {K : Type ℓ} {V : Type κ} ⦃e : Eq K⦄ where
  unfoldable pub insert : K → V → List (K × V) → List (K × V)
  insert key value [] = (key, value) ∷ []
  insert key value ((other, old) ∷ rest) =
      let kept = (other, old) ∷ insert key value rest in
      elim (other == key) [ true ↦ (key, value) ∷ rest | false ↦ kept ]

  unfoldable pub lookup : K → List (K × V) → Option V
  lookup key [] = none
  lookup key ((other, value) ∷ rest) = elim (other == key) [
    | true ↦ some value
    | false ↦ lookup key rest
  ]

  -- A write is read back, and changes what no other key reads.
  pub lookup-insert :
      (key asked : K) (value : V) (entries : List (K × V))
      → lookup asked (insert key value entries)
        ≡ (if key == asked then some value else lookup asked entries)
  unfolding lookup insert
  lookup-insert key asked value [] = ground arith
  lookup-insert key asked value ((other, old) ∷ rest) = ground (
    arith,
    ==→≡ other key,
    ==→≡ key asked,
    ≡→== other asked,
    ≡→== key asked,
    ==_self key,
    lookup-insert key asked value rest,
  )
