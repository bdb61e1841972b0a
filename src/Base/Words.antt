-- ===== src/Base/Words.antt =====
-- Bit operations on 64-bit words at variables: single bits and disjoint fields.
mod Digits
pub mod Masks
use Digits.{
  bit_and-halves, bit_or-halves, bit_xor-halves, bit_and-zero, bit_or-zero, bit_xor-zero,
  differ-zero,
}
use Prim.Native.Nat.{
  ℕ, zero, suc, ◌+◌, ◌-◌, ◌*◌, ◌/◌, ◌%◌, ◌^◌, ◌≤◌, ◌<◌, bit_and, bit_or, bit_xor, differ,
}
use mathlib.Core.Path.{◌≡◌, refl, ap, ◌∙◌, sym}
use mathlib.Core.Bool.{Bool, true, false}
use native.Mathlib.Nat.{pow-suc, pow-succ', div-div-eq-div-mul}
use native.Mathlib.Omega.{arith}
use mypkecode.Base.Tests.{◌==◌, if◌then◌else◌}

-- uint64 arithmetic wraps.
abbrev pub u64 : ℕ → ℕ
u64 n = n % 2 ^ 64

-- `x & (1 << k)` as a test; `bit_and-one` and its like below relate it to `bit_and`.
abbrev pub has_bit : ℕ → ℕ → Bool
has_bit x k = (x / 2 ^ k) % 2 == 1

differ-one : (b : ℕ) → b < 2 → differ b 1 ≡ 1 - b
differ-one zero h = refl
differ-one (suc b) h = omega (arith, differ-zero b)

-- `a & 1`, `a & 2` and `a & 4` are the bits that `has_bit` reads.
pub bit_and-one : (a : ℕ) → bit_and a 1 ≡ a % 2
bit_and-one a = omega (arith, bit_and-halves a 1, bit_and-zero (a / 2))

pub bit_and-two : (a : ℕ) → bit_and a 2 ≡ a / 2 % 2 * 2
bit_and-two a = omega (arith, bit_and-halves a 2, bit_and-one (a / 2))

pub bit_and-four : (a : ℕ) → bit_and a 4 ≡ a / 4 % 2 * 4
bit_and-four a = omega (arith, bit_and-halves a 4, bit_and-two (a / 2))

-- `a | 1` sets the lowest bit, `a ^ 1` flips it.
pub bit_or-one : (a : ℕ) → bit_or a 1 ≡ a / 2 * 2 + 1
bit_or-one a = omega (arith, bit_or-halves a 1, bit_or-zero (a / 2))

pub bit_xor-one : (a : ℕ) → bit_xor a 1 ≡ a / 2 * 2 + (1 - a % 2)
bit_xor-one a = ground (arith, bit_xor-halves a 1, differ-one (a % 2), bit_xor-zero (a / 2))

twice-shifted : (q k : ℕ) → q * 2 ^ suc k ≡ 2 * (q * 2 ^ k)
twice-shifted q k = omega (arith, ap (λ (t : ℕ). q * t) (pow-suc 2 k))

-- `q << k | r` is a sum when `r` fits `k` bits.
pub bit_or-field : (k q r : ℕ) → r < 2 ^ k → bit_or (q * 2 ^ k) r ≡ q * 2 ^ k + r
bit_or-field zero q zero h = rw bit_or-zero (omega arith)
bit_or-field zero q (suc r) h = absurd (omega arith)
bit_or-field (suc k) q r h = ground (
  arith,
  bit_or-halves (q * 2 ^ suc k) r,
  twice-shifted q k,
  pow-suc 2 k,
  bit_or-field k q (r / 2) (omega (arith, pow-suc 2 k)),
)

-- `a | 1 << k` sets bit `k`.
pub bit_or-power : (k a : ℕ) → bit_or a (2 ^ k) ≡ a + (1 - a / 2 ^ k % 2) * 2 ^ k
bit_or-power zero a = omega (arith, bit_or-one a)
bit_or-power (suc k) a =
    let deeper : a / 2 ^ suc k ≡ a / 2 / 2 ^ k =
      ap (λ (d : ℕ). a / d) (pow-succ' 2 k) ∙ sym (div-div-eq-div-mul a 2 (2 ^ k)) in
    let half : 2 ^ suc k / 2 ≡ 2 ^ k = omega (arith, pow-suc 2 k) in
    let even : 2 ^ suc k % 2 ≡ 0 = omega (arith, pow-suc 2 k) in
    let t = 1 - a / 2 / 2 ^ k % 2 in
    let ih : bit_or (a / 2) (2 ^ k) ≡ a / 2 + t * 2 ^ k = bit_or-power k (a / 2) in
    let top : t * 2 ^ suc k ≡ 2 * (t * 2 ^ k) = twice-shifted t k in
    rw (bit_or-halves a (2 ^ suc k), half, even, ih, deeper) (omega (arith, top))
