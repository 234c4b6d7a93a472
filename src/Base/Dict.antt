-- ===== src/Base/Dict.antt =====
-- A Go map keyed by texts, as its entries in some order.
use mathlib.Core.List.{List, [], ◌∷◌}
use mathlib.Core.Option.{Option, none, some}
use mathlib.Core.Path.{◌≡◌}
use native.Mathlib.Omega.{arith}
use text.Mathlib.TextEquality.{eq_iff}
use Prim.Native.String.{String}
use family_assistant.Base.Tests.{if◌then◌else◌}
use family_assistant.Base.Text.{◌=ₛ◌}

abbrev pub Dict {ℓ} : Type ℓ → Type ℓ
Dict V = List (String × V)

module _ {ℓ} {V : Type ℓ} where
  -- `v, ok := m[k]`
  unfoldable pub lookup : String → Dict V → Option V
  lookup k [] = none
  lookup k (e ∷ m) = let rest = lookup k m in if e.0 =ₛ k then some e.1 else rest

  -- `delete(m, k)`
  unfoldable pub erase : String → Dict V → Dict V
  erase k [] = []
  erase k (e ∷ m) = let rest = erase k m in if e.0 =ₛ k then rest else e ∷ rest

  -- `m[k] = v`
  abbrev pub assign : String → V → Dict V → Dict V
  assign k v m = (k, v) ∷ erase k m

  pub lookup-erase :
      (j k : String) (m : Dict V) → lookup j (erase k m) ≡ (if k =ₛ j then none else lookup j m)
  unfolding lookup erase
  lookup-erase j k [] = ground arith
  lookup-erase j k (e ∷ m) =
      ground (arith, lookup-erase j k m, eq_iff e.0 k, eq_iff e.0 j, eq_iff k j)

  pub lookup-assign :
      (j k : String) (v : V) (m : Dict V)
      → lookup j (assign k v m) ≡ (if k =ₛ j then some v else lookup j m)
  unfolding lookup
  lookup-assign j k v m = ground (arith, lookup-erase j k m)
