-- ===== src/Base/Assoc.antt =====
-- Maps keyed by a number, as association lists. The order of the list is the order in which the
-- code's map would be walked.
use nfd_qo_s.Base.Bools.{◌==◌, if◌then◌else◌}
use Prim.Native.Nat.{ℕ}
use mathlib.Core.Path.{◌≡◌, refl}
use mathlib.Core.Logic.{◌≢◌}
use mathlib.Core.Option.{Option, none, some}
use mathlib.Core.List.{List, [], ◌∷◌}
use native.Mathlib.Omega.{arith}

module _ {ℓ} {V : Type ℓ} where
  -- `m.find(k)`
  unfoldable pub lookup : ℕ → List (ℕ × V) → Option V
  lookup k [] = none
  lookup k ((j, v) ∷ m) = if j == k then some v else lookup k m

  -- `m.erase(k)`
  unfoldable pub remove : ℕ → List (ℕ × V) → List (ℕ × V)
  remove k [] = []
  remove k ((j, w) ∷ m) = if j == k then m else (j, w) ∷ remove k m

  -- `m[k]` where a missing key reads as `d`.
  unfoldable pub lookup_or : V → ℕ → List (ℕ × V) → V
  lookup_or d k [] = d
  lookup_or d k ((j, v) ∷ m) = if j == k then v else lookup_or d k m

  -- `m[k] = v`
  unfoldable pub insert : ℕ → V → List (ℕ × V) → List (ℕ × V)
  insert k v [] = (k, v) ∷ []
  insert k v ((j, w) ∷ m) = if j == k then (k, v) ∷ m else (j, w) ∷ insert k v m

  -- What a read finds after a write.
  pub lookup-insert :
      (m : List (ℕ × V)) (written read : ℕ) (value : V)
      → lookup read (insert written value m)
        ≡ (if written == read then some value else lookup read m)
  unfolding insert lookup
  lookup-insert [] written read value = refl
  lookup-insert ((key, old) ∷ m) written read value =
      ground (arith, lookup-insert m written read value)

  pub lookup-insert_self : (k : ℕ) (v : V) (m : List (ℕ × V)) → lookup k (insert k v m) ≡ some v
  lookup-insert_self k v m = ground (arith, lookup-insert m k k v)

  pub lookup-insert_ne :
      (k j : ℕ) (v : V) (m : List (ℕ × V)) → k ≢ j → lookup j (insert k v m) ≡ lookup j m
  lookup-insert_ne k j v m h = ground (arith, lookup-insert m k j v)

  pub lookup_or-insert :
      (d : V) (k j : ℕ) (v : V) (m : List (ℕ × V))
      → lookup_or d j (insert k v m) ≡ (if k == j then v else lookup_or d j m)
  unfolding lookup_or insert
  lookup_or-insert d k j v [] = refl
  lookup_or-insert d k j v ((i, w) ∷ m) = ground (arith, lookup_or-insert d k j v m)

  pub lookup_or-lookup :
      (d v : V) (k : ℕ) (m : List (ℕ × V)) → lookup k m ≡ some v → lookup_or d k m ≡ v
  unfolding lookup_or lookup
  lookup_or-lookup d v k [] e = cc
  lookup_or-lookup d v k ((i, w) ∷ m) e = ground (arith, lookup_or-lookup d v k m)
