-- ===== src/Base/Words/Masks.antt =====
-- The low bits of a word by a mask.
use mypkecode.Base.Words.Digits.{bit_and-halves, bit_or-halves}
use mypkecode.Base.{ℕ, ◌/◌, ◌%◌, ◌≡◌, arith, bit_and, bit_or}
use mypkecode.Base.Words.{bit_and-one}

bit_and-three : (a : ℕ) → bit_and a 3 ≡ a % 4
bit_and-three a = omega (arith, bit_and-halves a 3, bit_and-one (a / 2))

bit_and-seven : (a : ℕ) → bit_and a 7 ≡ a % 8
bit_and-seven a = omega (arith, bit_and-halves a 7, bit_and-three (a / 2))

bit_and-fifteen : (a : ℕ) → bit_and a 15 ≡ a % 16
bit_and-fifteen a = omega (arith, bit_and-halves a 15, bit_and-seven (a / 2))

bit_and-sixty_three : (a : ℕ) → bit_and a 63 ≡ a % 64
bit_and-sixty_three a =
    omega (arith, bit_and-halves a 63, bit_and-halves (a / 2) 31, bit_and-fifteen (a / 2 / 2))

-- `byte & 0xFF`
pub bit_and-byte : (a : ℕ) → bit_and a 255 ≡ a % 256
bit_and-byte a =
    omega (arith, bit_and-halves a 255, bit_and-halves (a / 2) 127, bit_and-sixty_three (a / 2 / 2))

or_even :
    (x y : ℕ)
    → bit_or x y % 2 ≡ 0
    → (x % 2 ≡ 0) × (y % 2 ≡ 0) × (bit_or x y / 2 ≡ bit_or (x / 2) (y / 2))
or_even x y h = ground (arith, bit_or-halves x y)

-- Where no low bit of either number is set, both are multiples of eight.
pub bit_or-aligned : (x y : ℕ) → bit_and (bit_or x y) 7 ≡ 0 → (x % 8 ≡ 0) × (y % 8 ≡ 0)
bit_or-aligned x y h =
    let m : bit_or x y % 8 ≡ 0 = omega (arith, h, bit_and-seven (bit_or x y)) in
    let (x0, y0, e) = or_even x y (omega (arith, m)) in
    let (x1, y1, e') = or_even (x / 2) (y / 2) (omega (arith, m, e)) in
    let (x2, y2, e'') = or_even (x / 2 / 2) (y / 2 / 2) (omega (arith, m, e, e')) in
    (omega (arith, x0, x1, x2), omega (arith, y0, y1, y2))
