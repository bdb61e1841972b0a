-- ===== src/Strings/Moves.antt =====
-- `memcpy` and `memmove` of util/string.c leave what was there at the start of the source.
use mypkecode.Base.{
  ℕ, zero, suc, ◌+◌, ◌-◌, ◌≤◌, ◌<◌, ◌≡◌, ◌⊎◌, inl, inr, refl, ◌∙◌, sym, ap, true, false, ◌&&◌, some,
  ltb, arith, fun_ext, Bool-cases,
}
use mypkecode.Strings.{
  Bytes, set_byte, moved, both_aligned, copy_words, copy_bytes, memcpy, move_down, move_up, memmove,
}

pub moved-zero : (m : Bytes) (d s : ℕ) → moved m d s 0 ≡ m
unfolding moved
moved-zero m d s = fun_ext λ b. ground arith

-- The bytes of the source that are still to be read are not written first.
pub first_byte :
    (m : Bytes) (d s n : ℕ)
    → (d ≤ s) ⊎ (s + suc n ≤ d)
    → moved (set_byte m d (m s)) (d + 1) (s + 1) n ≡ moved m d s (suc n)
unfolding moved set_byte
first_byte m d s n apart = fun_ext λ b. ground arith

move_up-moved : (n d s : ℕ) (m : Bytes) → (d ≤ s) ⊎ (s + n ≤ d) → move_up n d s m ≡ moved m d s n
unfolding move_up
move_up-moved zero d s m apart = sym (moved-zero m d s)
move_up-moved (suc n) d s m apart =
    move_up-moved n (d + 1) (s + 1) (set_byte m d (m s)) (ground arith) ∙ first_byte m d s n apart

last_byte :
    (m : Bytes) (d s n : ℕ)
    → s ≤ d
    → moved (set_byte m (d + n) (m (s + n))) d s n ≡ moved m d s (suc n)
unfolding moved set_byte
last_byte m d s n below = fun_ext λ b. ground arith

move_down-moved : (n d s : ℕ) (m : Bytes) → s ≤ d → move_down n (d + n) (s + n) m ≡ moved m d s n
unfolding move_down
move_down-moved zero d s m below = sym (moved-zero m d s)
move_down-moved (suc n) d s m below =
    let t : d + suc n - 1 ≡ d + n = omega arith in
    let f : s + suc n - 1 ≡ s + n = omega arith in
    rw (t, f)
      (move_down-moved n d s (set_byte m (d + n) (m (s + n))) below ∙ last_byte m d s n below)

-- `memmove` leaves in the destination the bytes that the source held before, and changes no other
-- byte, however the two overlap.
pub memmove-moved : (dst src n : ℕ) (m : Bytes) → memmove dst src n m ≡ moved m dst src n
unfolding memmove
memmove-moved dst src n m = elim (Bool-cases (ltb src dst && ltb dst (src + n))) [
  | inl e ↦ rw e (move_down-moved n dst src m (ground arith))
  | inr e ↦ rw e (move_up-moved n dst src m (ground arith))
]

-- A move in two parts.
moved-moved :
    (m : Bytes) (d s a b : ℕ)
    → (d ≤ s) ⊎ (s + (a + b) ≤ d)
    → moved (moved m d s a) (d + a) (s + a) b ≡ moved m d s (a + b)
unfolding moved
moved-moved m d s a b apart = fun_ext λ x. ground arith

copy_bytes-moved :
    (fuel d s n : ℕ) (m : Bytes)
    → (d ≤ s) ⊎ (s + n ≤ d)
    → n < fuel
    → copy_bytes fuel d s (d + n) m ≡ some (moved m d s n)
unfolding copy_bytes
copy_bytes-moved zero d s n m apart f = absurd (omega arith)
copy_bytes-moved (suc fuel) d s zero m apart f =
    let t : ltb d (d + 0) ≡ false = ground arith in rw (t, moved-zero m d s) refl
copy_bytes-moved (suc fuel) d s (suc n) m apart f =
    let t : ltb d (d + suc n) ≡ true = ground arith in
    let e : d + suc n ≡ d + 1 + n = omega arith in
    rw (t, e)
      (copy_bytes-moved fuel (d + 1) (s + 1) n (set_byte m d (m s)) (ground arith) (omega arith)
        ∙ ap some (first_byte m d s n apart))

-- The loop over words moves a first part of at most `n` bytes.
copy_words-moved :
    (fuel d s n : ℕ) (m : Bytes)
    → (d ≤ s) ⊎ (s + n ≤ d)
    → n < fuel
    → (a : ℕ) × (a ≤ n) × (copy_words fuel d s (d + n) m ≡ some (d + a, s + a, moved m d s a))
unfolding copy_words
copy_words-moved zero d s n m apart f = absurd (omega arith)
copy_words-moved (suc fuel) d s n m apart f = elim (Bool-cases (ltb (d + 7) (d + n))) [
  | inl t ↦
      let e : d + n ≡ d + 8 + (n - 8) = ground arith in
      let (a, le, run) =
        copy_words-moved fuel (d + 8) (s + 8) (n - 8) (moved m d s 8) (ground arith)
          (ground arith) in
      let to : d + 8 + a ≡ d + (8 + a) = omega arith in
      let from : s + 8 + a ≡ s + (8 + a) = omega arith in
      (8 + a, ground arith, rw (t, e, run, moved-moved m d s 8 a (ground arith), to, from) refl)
  | inr t ↦ (
    0,
    omega arith,
    (let to : d + 0 ≡ d = omega arith in
        let from : s + 0 ≡ s = omega arith in rw (t, moved-zero m d s, to, from) refl),
  )
]

-- `memcpy` returns with the bytes that the source held before in the destination, and no other byte
-- changed, by words where both pointers are aligned as by bytes; the destination may overlap the
-- source from below.
pub memcpy-moved :
    (dest src len : ℕ) (m : Bytes)
    → (dest ≤ src) ⊎ (src + len ≤ dest)
    → memcpy dest src len m ≡ some (moved m dest src len)
unfolding memcpy
memcpy-moved dest src len m apart = elim (Bool-cases (both_aligned dest src)) [
  | inl t ↦
      let (a, le, run) = copy_words-moved (len + 1) dest src len m apart (omega arith) in
      let e : dest + len ≡ dest + a + (len - a) = omega arith in
      let sum : a + (len - a) ≡ len = omega arith in
      rw (t, run, e)
        (copy_bytes-moved (len + 1) (dest + a) (src + a) (len - a) (moved m dest src a)
            (ground arith) (omega arith)
          ∙ ap some (
              moved-moved m dest src a (len - a) (ground arith)
              ∙ ap (λ (n : ℕ). moved m dest src n) sum))
  | inr t ↦ rw t (copy_bytes-moved (len + 1) dest src len m apart (omega arith))
]
