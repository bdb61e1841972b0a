-- ===== src/Snprintf/Decimal.antt =====
-- The digits of `%d` (util/snprintf.c) are written from the last one on; this is the same as writing
-- the text of the number from the first one on.
use mypkecode.Base.{
  ℕ, zero, suc, ◌+◌, ◌/◌, ◌%◌, ◌^◌, ◌≤◌, ◌<◌, ◌≡◌, refl, ap, ◌∙◌, sym, true, some, List, [], ◌∷◌,
  ◌++◌, length, length-append, ◌==◌, if◌then◌else◌, arith, fun_ext, Bool-cases, inl, inr,
}
use native.Mathlib.Nat.{pow-suc}
use mypkecode.Base.Partial.{◌>>=◌}
use mypkecode.Strings.{Bytes, set_byte}
use mypkecode.Snprintf.{Out, put_at, put, put_text, count_digits, write_digits, put_decimal}

-- The decimal text of a number that has at most `fuel` digits.
unfoldable pub decimal : (fuel num : ℕ) → List ℕ
decimal zero num = []
decimal (suc fuel) num =
    let rest = decimal fuel (num / 10) in
    (if num / 10 == 0 then [] else rest) ++ (b'0' + num % 10) ∷ []

pub put_text-pos : (n : ℕ) (xs : List ℕ) (o : Out) → (put_text n xs o).pos ≡ o.pos + length xs
unfolding put_text
put_text-pos n [] o = omega arith
put_text-pos n (x ∷ xs) o = omega (arith, put_text-pos n xs (put n x o))

pub put_text-append :
    (n : ℕ) (xs ys : List ℕ) (o : Out) → put_text n (xs ++ ys) o ≡ put_text n ys (put_text n xs o)
unfolding put_text
put_text-append n [] ys o = refl
put_text-append n (x ∷ xs) ys o = put_text-append n xs ys (put n x o)

put_at-put_at :
    (n i j c d : ℕ) (buf : Bytes)
    → i < j
    → put_at n i c (put_at n j d buf) ≡ put_at n j d (put_at n i c buf)
unfolding put_at set_byte
put_at-put_at n i j c d buf lt = fun_ext λ a. ground arith

-- A byte behind a text may be written before it.
put_text-put_at :
    (n j d pos : ℕ) (xs : List ℕ) (buf : Bytes)
    → pos + length xs ≤ j
    → (put_text n xs (record { pos = pos; buf = put_at n j d buf })).buf
      ≡ put_at n j d (put_text n xs (record { pos = pos; buf = buf })).buf
unfolding put_text
put_text-put_at n j d pos [] buf le = refl
put_text-put_at n j d pos (x ∷ xs) buf le =
    ap (λ (b : Bytes). (put_text n xs (record { pos = pos + 1; buf = b })).buf)
      (put_at-put_at n pos j x d buf (omega arith))
    ∙ (put_text-put_at n j d (pos + 1) xs (put_at n pos x buf) (omega arith))

write_digits-decimal :
    (fuel n num pos : ℕ) (buf : Bytes)
    → write_digits n (length (decimal fuel num)) num pos buf
      ≡ (put_text n (decimal fuel num) (record { pos = pos; buf = buf })).buf
unfolding decimal write_digits put_text
write_digits-decimal zero n num pos buf = refl
write_digits-decimal (suc fuel) n num pos buf = elim (Bool-cases (num / 10 == 0)) [
  | inl last ↦ let e : pos + 0 ≡ pos = omega arith in rw (last, e) refl
  | inr more ↦
      let rest = decimal fuel (num / 10) in
      let d = b'0' + num % 10 in
      let o : Out = record { pos = pos; buf = buf } in
      let len : length (rest ++ d ∷ []) ≡ suc (length rest) =
        length-append rest (d ∷ []) ∙ omega arith in
      rw (more, len)
        (write_digits-decimal fuel n (num / 10) pos (put_at n (pos + length rest) d buf)
          ∙ put_text-put_at n (pos + length rest) d pos rest buf (omega arith)
          ∙ ap (λ (p : ℕ). put_at n p d (put_text n rest o).buf) (sym (put_text-pos n rest o))
          ∙ ap (λ (z : Out). z.buf) (sym (put_text-append n rest (d ∷ []) o)))
]

count_digits-decimal :
    (fuel num : ℕ)
    → num < 10 ^ suc fuel
    → count_digits (suc fuel) num ≡ some (length (decimal (suc fuel) num))
unfolding decimal count_digits
count_digits-decimal zero num h = let e : (num / 10 == 0) ≡ true = ground arith in rw e refl
count_digits-decimal (suc fuel) num h = elim (Bool-cases (num / 10 == 0)) [
  | inl last ↦ rw last refl
  | inr more ↦
      let rest = decimal (suc fuel) (num / 10) in
      let d = b'0' + num % 10 in
      let ih = count_digits-decimal fuel (num / 10) (omega (arith, h, pow-suc 10 (suc fuel))) in
      let len : length (rest ++ d ∷ []) ≡ suc (length rest) =
        length-append rest (d ∷ []) ∙ omega arith in
      rw more (ap (λ o. o >>= λ k. some (suc k)) ih ∙ ap some (sym len))
]

pub put_decimal-decimal :
    (n num : ℕ) (o : Out)
    → num < 10 ^ 19
    → put_decimal n num o ≡ some (put_text n (decimal 19 num) o)
unfolding put_decimal
put_decimal-decimal n num o h =
    let text = decimal 19 num in
    ap
      (λ k. k >>= λ digits.
        some (record { pos = o.pos + digits; buf = write_digits n digits num o.pos o.buf }))
      (count_digits-decimal 18 num h)
    ∙ ap (λ (b : Bytes). some (record { pos = o.pos + length text; buf = b }))
        (write_digits-decimal 19 n num o.pos o.buf)
    ∙ ap (λ (p : ℕ). some (record { pos = p; buf = (put_text n text o).buf }))
        (sym (put_text-pos n text o))
