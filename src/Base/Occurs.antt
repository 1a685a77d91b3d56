-- ===== src/Base/Occurs.antt =====
-- How often a number occurs in a list: two lists hold the same numbers when these counts agree.
use Prim.Native.Nat.{ℕ, ◌+◌, ◌-◌, ◌<◌}
use mathlib.Core.Path.{◌≡◌}
use mathlib.Core.List.{List, [], ◌∷◌, ◌++◌}
use native.Mathlib.Omega.{arith}
use nfd_qo_s.Base.Bools.{◌==◌, if◌then◌else◌}
use nfd_qo_s.Base.Lists.{length}

abbrev pub occurs : ℕ → List ℕ → ℕ
occurs i [] = 0
occurs i (x ∷ xs) = (if x == i then 1 else 0) + occurs i xs

-- Without its first occurrence of the number.
unfoldable pub erase : ℕ → List ℕ → List ℕ
erase i [] = []
erase i (x ∷ xs) = let rest = erase i xs in if x == i then xs else x ∷ rest

pub occurs-append : (i : ℕ) (xs ys : List ℕ) → occurs i (xs ++ ys) ≡ occurs i xs + occurs i ys
occurs-append i [] ys = omega arith
occurs-append i (x ∷ xs) ys = omega (arith, occurs-append i xs ys)

pub occurs-erase :
    (i j : ℕ) (xs : List ℕ)
    → occurs j (erase i xs) ≡ (if i == j then occurs j xs - 1 else occurs j xs)
unfolding erase
occurs-erase i j [] = ground arith
occurs-erase i j (x ∷ xs) = ground (arith, occurs-erase i j xs)

pub length-erase : (i : ℕ) (xs : List ℕ) → 0 < occurs i xs → length (erase i xs) + 1 ≡ length xs
unfolding erase
length-erase i [] h = absurd (omega arith)
length-erase i (x ∷ xs) h = ground (arith, length-erase i xs)
