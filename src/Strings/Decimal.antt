-- ===== src/Strings/Decimal.antt =====
-- `atol` of util/string.c reads a number from its decimal digits.
use mypkecode.Base.{
  ℕ, zero, suc, ◌+◌, ◌-◌, ◌*◌, ◌%◌, ◌^◌, ◌≤◌, ◌<◌, ◌≡◌, refl, ◌∙◌, ap, subst, true, false, ◌==◌,
  some, arith,
}
use mypkecode.Strings.{Bytes, skip_spaces, read_digits, negated, read_signed, atol}

-- The characters of the text, and the zero behind them.
pub record IsDecimal (m : Bytes) (p n : ℕ) : Type 0 where
  pub digits : (i : ℕ) → i < n → (48 ≤ m (p + i)) × (m (p + i) ≤ 57)
  pub end : m (p + n) ≡ 0

-- The number that `n` digits stand for, behind those of `acc`.
unfoldable pub decimal_value : Bytes → (p n acc : ℕ) → ℕ
decimal_value m p zero acc = acc
decimal_value m p (suc n) acc = decimal_value m (p + 1) n (acc * 10 + (m p - 48))

decimal_value_ge : (m : Bytes) (p n acc : ℕ) → acc ≤ decimal_value m p n acc
unfolding decimal_value
decimal_value_ge m p zero acc = omega arith
decimal_value_ge m p (suc n) acc =
    omega (arith, decimal_value_ge m (p + 1) n (acc * 10 + (m p - 48)))

first_digit : {m : Bytes} {p n : ℕ} → IsDecimal m p (suc n) → (48 ≤ m p) × (m p ≤ 57)
first_digit {m} {p} d =
    let z : p + 0 ≡ p = omega arith in
    subst (λ (a : ℕ). (48 ≤ m a) × (m a ≤ 57)) z (d.digits 0 (omega arith))

later_digits : {m : Bytes} {p n : ℕ} → IsDecimal m p (suc n) → IsDecimal m (p + 1) n
later_digits {m} {p} {n} d =
    let e : p + 1 + n ≡ p + suc n = omega arith in
    record {
      digits = λ i lt.
          let a : p + 1 + i ≡ p + suc i = omega arith in rw a (d.digits (suc i) (omega arith));
      end = rw e d.end;
    }

read_digits-decimal_value :
    (fuel p n acc : ℕ) (m : Bytes)
    → IsDecimal m p n
    → decimal_value m p n acc < 2 ^ 64
    → n < fuel
    → read_digits fuel p acc m ≡ some (decimal_value m p n acc)
unfolding read_digits decimal_value
read_digits-decimal_value zero p n acc m d small f = absurd (omega arith)
read_digits-decimal_value (suc fuel) p zero acc m d small f =
    let z : p + 0 ≡ p = omega arith in
    let stops : m p ≡ 0 = subst (λ (a : ℕ). m a ≡ 0) z d.end in rw stops refl
read_digits-decimal_value (suc fuel) p (suc n) acc m d small f =
    let (ge, le) = first_digit d in
    let next = acc * 10 + (m p - 48) in
    let goes : (m p == 0) ≡ false = ground arith in
    let bound = decimal_value_ge m (p + 1) n (acc * 10 + (m p - 48)) in
    let step : (acc * 10 + m p + 2 ^ 64 - 48) % 2 ^ 64 ≡ acc * 10 + (m p - 48) =
      omega (arith, bound, small, ge) in
    rw (goes, step)
      (read_digits-decimal_value fuel (p + 1) n (acc * 10 + (m p - 48)) m (later_digits d) small
        (omega arith))

skip_spaces_here :
    (fuel p : ℕ) (m : Bytes) → (m p == 32) ≡ false → skip_spaces (suc fuel) p m ≡ some p
unfolding skip_spaces
skip_spaces_here fuel p m h = rw h refl

-- `atol` returns the number that a text of one or more decimal digits stands for, where it is below 2^63.
pub atol-decimal_value :
    (fuel p n : ℕ) (m : Bytes)
    → IsDecimal m p (suc n)
    → decimal_value m p (suc n) 0 < 2 ^ 63
    → suc n < fuel
    → atol fuel p m ≡ some (decimal_value m p (suc n) 0)
unfolding atol read_signed
atol-decimal_value zero p n m d small f = absurd (omega arith)
atol-decimal_value (suc fuel) p n m d small f =
    let (ge, le) = first_digit d in
    let no_space : (m p == 32) ≡ false = ground arith in
    let no_minus : (m p == 45) ≡ false = ground arith in
    let no_plus : (m p == 43) ≡ false = ground arith in
    let starts = skip_spaces_here fuel p m no_space in
    ap (read_signed (suc fuel) m) starts
    ∙ rw (no_minus, no_plus)
        (read_digits-decimal_value (suc fuel) p (suc n) 0 m d (omega (arith, small)) f)

-- `atol` of a minus and decimal digits is the number that they stand for, negated as a word.
pub atol-minus :
    (fuel p n : ℕ) (m : Bytes)
    → m p ≡ 45
    → IsDecimal m (p + 1) n
    → decimal_value m (p + 1) n 0 < 2 ^ 64
    → n < fuel
    → atol fuel p m ≡ some ((2 ^ 64 - decimal_value m (p + 1) n 0) % 2 ^ 64)
unfolding atol read_signed
atol-minus zero p n m minus d small f = absurd (omega arith)
atol-minus (suc fuel) p n m minus d small f =
    let no_space : (m p == 32) ≡ false = ground arith in
    let is_minus : (m p == 45) ≡ true = ground arith in
    ap (read_signed (suc fuel) m) (skip_spaces_here fuel p m no_space)
    ∙ rw is_minus (ap negated (read_digits-decimal_value (suc fuel) (p + 1) n 0 m d small f))
