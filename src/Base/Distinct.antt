-- ===== src/Base/Distinct.antt =====
-- Lists of distinct numbers: one with numbers below `n` only has at most `n` of them.
use mypkecode.Base.Tests.{◌==◌, ==_iff, if◌then◌else◌}
use mypkecode.Base.Lists.{length, has}
use Prim.Native.Nat.{ℕ, zero, suc, ◌+◌, ◌≤◌, ◌<◌}
use mathlib.Core.Path.{◌≡◌, refl}
use mathlib.Core.Bool.{false}
use mathlib.Core.List.{List, [], ◌∷◌}
use native.Mathlib.Omega.{arith}

abbrev pub Distinct : List ℕ → Type 0
Distinct [] = Unit
Distinct (x ∷ xs) = (has x xs ≡ false) × Distinct xs

abbrev pub AllBelow : ℕ → List ℕ → Type 0
AllBelow n [] = Unit
AllBelow n (x ∷ xs) = (x < n) × AllBelow n xs

without : ℕ → List ℕ → List ℕ
without a [] = []
without a (x ∷ xs) = if x == a then without a xs else x ∷ without a xs

without_absent : (a : ℕ) (xs : List ℕ) → has a xs ≡ false → without a xs ≡ xs
unfolding without
without_absent a [] h = refl
without_absent a (x ∷ xs) h = ground (arith, without_absent a xs)

has-without : (a b : ℕ) (xs : List ℕ) → has b xs ≡ false → has b (without a xs) ≡ false
unfolding without
has-without a b [] h = refl
has-without a b (x ∷ xs) h = ground (arith, has-without a b xs)

Distinct-without : (a : ℕ) (xs : List ℕ) → Distinct xs → Distinct (without a xs)
unfolding without
Distinct-without a [] h = tt
Distinct-without a (x ∷ xs) h = ground (arith, Distinct-without a xs h.1, has-without a x xs h.0)

AllBelow-without : (n : ℕ) (xs : List ℕ) → AllBelow (suc n) xs → AllBelow n (without n xs)
unfolding without
AllBelow-without n [] h = tt
AllBelow-without n (x ∷ xs) h = ground (arith, AllBelow-without n xs h.1)

length-without : (a : ℕ) (xs : List ℕ) → Distinct xs → length xs ≤ length (without a xs) + 1
unfolding without
length-without a [] h = omega arith
length-without a (x ∷ xs) h =
    ground (arith, ==_iff x a, length-without a xs h.1, without_absent a xs)

pub length-le : (n : ℕ) (xs : List ℕ) → Distinct xs → AllBelow n xs → length xs ≤ n
length-le zero [] d b = omega arith
length-le zero (x ∷ xs) d b = omega arith
length-le (suc n) xs d b = omega (
  arith,
  length-without n xs d,
  length-le n (without n xs) (Distinct-without n xs d) (AllBelow-without n xs b),
)
