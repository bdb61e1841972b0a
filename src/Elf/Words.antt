-- ===== src/Elf/Words.antt =====
-- Bytes and words: the fields of a struct that is read from a file (kernel/elf.h), and bytes that are
-- put into the memory of 64-bit words.
use mypkecode.Base.{
  ℕ, zero, suc, ◌+◌, ◌-◌, ◌*◌, ◌/◌, ◌%◌, ◌^◌, ◌≤◌, ◌<◌, ◌≡◌, ◌⊎◌, refl, ap, ◌∙◌, sym, fun_ext,
  arith, ltb, if◌then◌else◌, Bool-cases, inl, inr, le→ltb,
}
use native.Mathlib.Nat.{zero-div}
use mypkecode.Phys.{Memory}
use mypkecode.Host.{Buffer}

-- The little-endian number in `n` bytes at `i`.
unfoldable pub le : (n : ℕ) → Buffer → (i : ℕ) → ℕ
le zero b i = 0
le (suc n) b i = b i % 256 + 256 * le n b (i + 1)

-- The bytes of a word.
abbrev pub byte_of : (w i : ℕ) → ℕ
byte_of w i = w / 2 ^ (8 * i) % 256

-- `n` bytes are put at `dest`; a word that is only partly reached keeps its other bytes.
unfoldable pub read_into : Memory → (dest : ℕ) → Buffer → (n : ℕ) → Memory
read_into m dest bytes n b =
    if ltb b dest
    then m b
    else if ltb b (dest + n)
    then le 8 (λ i. if ltb (b - dest + i) n then bytes (b - dest + i) else byte_of (m b) i) 0
    else m b

le_zero : (n : ℕ) (b : Buffer) (i : ℕ) → ((h : ℕ) → b h ≡ 0) → le n b i ≡ 0
unfolding le
le_zero zero b i zeros = refl
le_zero (suc n) b i zeros = omega (arith, zeros i, le_zero n b (i + 1) zeros)

-- The word at byte `i` of `n` bytes that are followed by zeros.
abbrev pub padded_word : Buffer → (n i : ℕ) → ℕ
padded_word bytes n i = le 8 (λ h. if ltb (i + h) n then bytes (i + h) else 0) 0

byte_of_zero : (i : ℕ) → byte_of 0 i ≡ 0
byte_of_zero i = rw (zero-div (2 ^ (8 * i))) refl

-- Bytes that are put over zeros.
pub read_into-padded :
    (m : Memory) (dest n i : ℕ) (bytes : Buffer)
    → m (dest + i) ≡ 0
    → read_into m dest bytes n (dest + i) ≡ padded_word bytes n i
unfolding read_into
read_into-padded m dest n i bytes z =
    let back : dest + i - dest ≡ i = omega arith in
    elim (Bool-cases (ltb (dest + i) (dest + n))) [
      | inl inside ↦
          rw (le→ltb (dest + i) dest (omega arith), inside, back, z)
            (ap (λ (b : Buffer). le 8 b 0) (fun_ext λ h. rw (byte_of_zero h) refl))
      | inr outside ↦
          rw (le→ltb (dest + i) dest (omega arith), outside)
            (z ∙ sym (le_zero 8 _ 0 λ h. ground arith))
    ]

pub read_into-outside :
    (m : Memory) (dest n b : ℕ) (bytes : Buffer)
    → (b < dest) ⊎ (dest + n ≤ b)
    → read_into m dest bytes n b ≡ m b
unfolding read_into
read_into-outside m dest n b bytes out = ground arith
