-- ===== src/Strings/Fill.antt =====
-- `memset` of util/string.c fills memory with a byte, by words or by bytes.
use mypkecode.Base.{
  ℕ, zero, suc, ◌+◌, ◌-◌, ◌*◌, ◌/◌, ◌%◌, ◌<◌, ◌≡◌, inl, inr, refl, ◌∙◌, sym, ap, subst, Bool, true,
  false, ◌&&◌, some, ltb, ◌==◌, arith, fun_ext, Bool-cases, bit_and,
}
use mypkecode.Base.Words.Masks.{bit_and-byte, bit_or-aligned}
use mypkecode.Strings.{
  Bytes, set_byte, filled, word_of, byte_of, set_word, both_aligned, fill_words, fill_bytes, memset,
}

-- Whether all numbers below `n` pass a test.
all_below : (ℕ → Bool) → (n : ℕ) → Bool
all_below f zero = true
all_below f (suc n) = f n && all_below f n

all_below-lt : (f : ℕ → Bool) (n i : ℕ) → all_below f n ≡ true → i < n → f i ≡ true
unfolding all_below
all_below-lt f zero i h lt = absurd (omega arith)
all_below-lt f (suc n) i h lt = elim (Bool-cases (i == n)) [
  | inl e ↦ let e' : i ≡ n = ground arith in rw e' (ground arith)
  | inr e ↦ all_below-lt f n i (ground arith) (ground arith)
]

abbrev repeats : (byte i : ℕ) → Bool
repeats byte i = byte_of (word_of byte) i == byte

-- Each byte of the word is the given one: a run over all bytes.
all-repeats : all_below (λ byte. all_below (repeats byte) 8) 256 ≡ true
unfolding all_below word_of
all-repeats = refl

word_of-low : (byte : ℕ) → word_of byte ≡ word_of (byte % 256)
unfolding word_of
word_of-low byte =
    let same : bit_and byte 255 ≡ bit_and (byte % 256) 255 =
      omega (arith, bit_and-byte byte, bit_and-byte (byte % 256)) in
    rw same refl

byte_of-word_of : (byte i : ℕ) → i < 8 → byte_of (word_of byte) i ≡ byte % 256
byte_of-word_of byte i lt =
    let row =
      all_below-lt (λ b. all_below (repeats b) 8) 256 (byte % 256) all-repeats (omega arith) in
    let here = all_below-lt (repeats (byte % 256)) 8 i row lt in
    rw (word_of-low byte) (ground (arith, here))

set_word-filled : (m : Bytes) (d byte : ℕ) → set_word m d (word_of byte) ≡ filled m d 8 (byte % 256)
unfolding set_word filled
set_word-filled m d byte = fun_ext λ b. ground (arith, byte_of-word_of byte (b - d))

filled-zero : (m : Bytes) (d v : ℕ) → filled m d 0 v ≡ m
unfolding filled
filled-zero m d v = fun_ext λ b. ground arith

filled-filled :
    (m : Bytes) (d a n k v : ℕ) → a + n ≡ k → filled (filled m d a v) (d + a) n v ≡ filled m d k v
unfolding filled
filled-filled m d a n k v e = fun_ext λ b. ground arith

set_byte-filled : (m : Bytes) (d v : ℕ) → set_byte m d v ≡ filled m d 1 v
unfolding set_byte filled
set_byte-filled m d v = fun_ext λ b. ground arith

fill_bytes-filled :
    (fuel d n byte : ℕ) (m : Bytes)
    → n < fuel
    → fill_bytes fuel d (d + n) byte m ≡ some (filled m d n (byte % 256))
unfolding fill_bytes
fill_bytes-filled zero d n byte m f = absurd (omega arith)
fill_bytes-filled (suc fuel) d zero byte m f =
    let t : ltb d (d + 0) ≡ false = ground arith in rw (t, filled-zero m d (byte % 256)) refl
fill_bytes-filled (suc fuel) d (suc n) byte m f =
    let t : ltb d (d + suc n) ≡ true = ground arith in
    let e : d + suc n ≡ d + 1 + n = omega arith in
    rw (t, e, set_byte-filled m d (byte % 256))
      (fill_bytes-filled fuel (d + 1) n byte (filled m d 1 (byte % 256)) (omega arith)
        ∙ ap some (filled-filled m d 1 n (suc n) (byte % 256) (omega arith)))

-- The loop over words, for `n` of them.
fill_words-filled :
    (fuel d n byte : ℕ) (m : Bytes)
    → n < fuel
    → fill_words fuel d (d + 8 * n) (word_of byte) m ≡ some (filled m d (8 * n) (byte % 256))
unfolding fill_words
fill_words-filled zero d n byte m f = absurd (omega arith)
fill_words-filled (suc fuel) d zero byte m f =
    let t : ltb d (d + 8 * 0) ≡ false = ground arith in rw (t, filled-zero m d (byte % 256)) refl
fill_words-filled (suc fuel) d (suc n) byte m f =
    let t : ltb d (d + 8 * suc n) ≡ true = ground arith in
    let e : d + 8 * suc n ≡ d + 8 + 8 * n = omega arith in
    rw (t, e, set_word-filled m d byte)
      (fill_words-filled fuel (d + 8) n byte (filled m d 8 (byte % 256)) (omega arith)
        ∙ ap some (filled-filled m d 8 (8 * n) (8 * suc n) (byte % 256) (omega arith)))

-- `memset` returns with the low byte of `byte` in each of the `len` bytes at `dest`, and no other byte
-- changed, by words where pointer and length are aligned as by bytes.
pub memset-filled :
    (dest byte len : ℕ) (m : Bytes) → memset dest byte len m ≡ some (filled m dest len (byte % 256))
unfolding memset
memset-filled dest byte len m = elim (Bool-cases (both_aligned dest len)) [
  | inl t ↦
      let al = (bit_or-aligned dest len (ground (arith, t))).1 in
      let size : len ≡ 8 * (len / 8) = omega (arith, al) in
      rw t (
        subst
          (λ (k : ℕ).
            fill_words (len + 1) dest (dest + k) (word_of byte) m
            ≡ some (filled m dest k (byte % 256)))
          (sym size) (fill_words-filled (len + 1) dest (len / 8) byte m (omega arith)))
  | inr t ↦ rw t (fill_bytes-filled (len + 1) dest len byte m (omega arith))
]
