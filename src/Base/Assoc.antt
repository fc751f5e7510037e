-- ===== src/Base/Assoc.antt =====
-- Go maps with string keys, as association lists. Where the program ranges over a map, the order of
-- its iteration is an argument of the model.
use Prim.Native.Nat.{◌+◌, ◌≤◌}
use mathlib.Core.Bool.{not, ◌&&◌}
use mathlib.Core.Path.{◌≡◌, refl}
use mathlib.Core.Option.{Option, none, some}
use mathlib.Core.List.{List, [], ◌∷◌}
use native.Mathlib.Omega.{arith}
use api_gatewahy.Base.Tests.{if◌then◌else◌}
use api_gatewahy.Base.Lists.{length}
use api_gatewahy.Base.Strings.{Text, eqb, eqb_iff, contains}

module _ {ℓ} {V : Type ℓ} where
  unfoldable pub lookup : Text → List (Text × V) → Option V
  lookup k [] = none
  lookup k ((j, v) ∷ m) = if eqb j k then some v else lookup k m

  -- m[k] = v
  unfoldable pub insert_key : Text → V → List (Text × V) → List (Text × V)
  insert_key k v [] = (k, v) ∷ []
  insert_key k v ((j, w) ∷ m) =
      let rest = insert_key k v m in if eqb j k then (k, v) ∷ m else (j, w) ∷ rest

  -- delete(m, k)
  unfoldable pub erase : Text → List (Text × V) → List (Text × V)
  erase k [] = []
  erase k ((j, v) ∷ m) = let rest = erase k m in if eqb j k then rest else (j, v) ∷ rest

  abbrev pub keys : List (Text × V) → List Text
  keys [] = []
  keys ((j, v) ∷ m) = j ∷ keys m

  pub lookup-insert_key :
      (k j : Text) (v : V) (m : List (Text × V))
      → lookup j (insert_key k v m) ≡ (if eqb k j then some v else lookup j m)
  unfolding lookup insert_key
  lookup-insert_key k j v [] = refl
  lookup-insert_key k j v ((i, w) ∷ m) =
      ground (arith, eqb_iff k j, eqb_iff i k, eqb_iff i j, lookup-insert_key k j v m)

  pub lookup-erase :
      (k j : Text) (m : List (Text × V))
      → lookup j (erase k m) ≡ (if eqb k j then none else lookup j m)
  unfolding lookup erase
  lookup-erase k j [] = ground arith
  lookup-erase k j ((i, v) ∷ m) =
      ground (arith, eqb_iff k j, eqb_iff i k, eqb_iff i j, lookup-erase k j m)

  pub length-erase : (k : Text) (m : List (Text × V)) → length (erase k m) ≤ length m
  unfolding erase
  length-erase k [] = omega arith
  length-erase k ((j, v) ∷ m) = ground (arith, length-erase k m)

  pub length-insert_key :
      (k : Text) (v : V) (m : List (Text × V)) → length (insert_key k v m) ≤ length m + 1
  unfolding insert_key
  length-insert_key k v [] = omega arith
  length-insert_key k v ((j, w) ∷ m) = ground (arith, length-insert_key k v m)

  -- A deleted key is gone, and the keys that are left were there.
  pub keys-erase :
      (k j : Text) (m : List (Text × V))
      → contains (keys (erase k m)) j ≡ (not (eqb k j) && contains (keys m) j)
  unfolding erase contains
  keys-erase k j [] = ground arith
  keys-erase k j ((i, v) ∷ m) =
      ground (arith, keys-erase k j m, eqb_iff i k, eqb_iff k j, eqb_iff i j)
