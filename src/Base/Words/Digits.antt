-- ===== src/Base/Words/Digits.antt =====
-- One equation for the lowest binary digit of `bit_and`, `bit_or` and `bit_xor`.
use Prim.Native.Nat.{ℕ, zero, suc, ◌+◌, ◌-◌, ◌*◌, ◌/◌, ◌%◌, ◌≤◌, min, max, bit_and, bit_or, bit_xor}
use Prim.Native.Nat.{digits, differ, bitwise, bit_and-bitwise, bit_or-bitwise, bit_xor-bitwise}
use mathlib.Core.Path.{◌≡◌, refl, sym}
use native.Mathlib.Omega.{arith}

module _ (z : ℕ → ℕ) (f : ℕ → ℕ → ℕ) where
  -- More fuel than the first argument changes nothing.
  digits-spare :
      (fuel spare a b : ℕ) → a ≤ fuel → digits z f (fuel + spare) a b ≡ digits z f fuel a b
  digits-spare (suc fuel) spare (suc a) b le =
      let plus : suc fuel + spare ≡ suc (fuel + spare) = omega arith in
      rw (plus, digits-spare fuel spare (suc a / 2) (b / 2) (omega arith)) refl
  digits-spare (suc fuel) spare zero b le =
      let plus : suc fuel + spare ≡ suc (fuel + spare) = omega arith in rw plus refl
  digits-spare zero (suc spare) zero b le =
      let plus : 0 + suc spare ≡ suc spare = omega arith in rw plus refl
  digits-spare zero zero zero b le = refl
  digits-spare zero spare (suc a) b le = absurd (omega arith)

  lowest_digit :
      (n m : ℕ)
      → bitwise z f (suc n) m ≡ bitwise z f (suc n / 2) (m / 2) * 2 + f (suc n % 2) (m % 2)
  lowest_digit n m =
      let half = suc n / 2 in
      let split : half + (n - half) ≡ n = omega arith in
      let spared = digits-spare half (n - half) half (m / 2) (omega arith) in
      rw (sym spared, split) refl

pub bit_and-halves : (a b : ℕ) → bit_and a b ≡ bit_and (a / 2) (b / 2) * 2 + min (a % 2) (b % 2)
bit_and-halves zero b = simp bit_and-bitwise (omega arith)
bit_and-halves (suc a) b = simp bit_and-bitwise (lowest_digit (λ y. 0) min a b)

pub bit_or-halves : (a b : ℕ) → bit_or a b ≡ bit_or (a / 2) (b / 2) * 2 + max (a % 2) (b % 2)
bit_or-halves zero b = simp bit_or-bitwise (omega arith)
bit_or-halves (suc a) b = simp bit_or-bitwise (lowest_digit (λ y. y) max a b)

pub bit_xor-halves : (a b : ℕ) → bit_xor a b ≡ bit_xor (a / 2) (b / 2) * 2 + differ (a % 2) (b % 2)
bit_xor-halves zero b = simp bit_xor-bitwise (omega arith)
bit_xor-halves (suc a) b = simp bit_xor-bitwise (lowest_digit (λ y. y) differ a b)

-- Induction on the number of binary digits.
halving : (P : ℕ → Type 0) → P 0 → ((a : ℕ) → P (suc a / 2) → P (suc a)) → (a : ℕ) → P a
halving P base step a = upto a a (omega arith)
  where
    upto : (bound a : ℕ) → a ≤ bound → P a
    upto bound zero le = base
    upto (suc bound) (suc a) le = step a (upto bound (suc a / 2) (omega arith))
    upto zero (suc a) le = absurd (omega arith)

pub bit_and-zero : (a : ℕ) → bit_and a 0 ≡ 0
bit_and-zero = halving (λ a. bit_and a 0 ≡ 0) refl λ a h. omega (arith, bit_and-halves (suc a) 0, h)

pub bit_or-zero : (a : ℕ) → bit_or a 0 ≡ a
bit_or-zero = halving (λ a. bit_or a 0 ≡ a) refl λ a h. omega (arith, bit_or-halves (suc a) 0, h)

pub differ-zero : (b : ℕ) → differ b 0 ≡ b
differ-zero zero = refl
differ-zero (suc b) = refl

pub bit_xor-zero : (a : ℕ) → bit_xor a 0 ≡ a
bit_xor-zero =
    halving (λ a. bit_xor a 0 ≡ a) refl
      λ a h. ground (arith, bit_xor-halves (suc a) 0, differ-zero (suc a % 2), h)
