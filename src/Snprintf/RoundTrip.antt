-- ===== src/Snprintf/RoundTrip.antt =====
-- What `vsnprintf` (util/snprintf.c) prints for `%ld` is what `atol` (util/string.c) reads.
use mypkecode.Base.{
  ℕ, zero, suc, ◌+◌, ◌-◌, ◌*◌, ◌/◌, ◌%◌, ◌^◌, ◌≤◌, ◌<◌, ◌≡◌, ◌⊎◌, refl, ap, ◌∙◌, sym, subst, false,
  some, List, [], ◌∷◌, ◌++◌, length, length-append, ltb, ◌==◌, if◌then◌else◌, arith, Bool-cases,
  inl, inr,
}
use native.Mathlib.Nat.{pow-suc}
use mathlib.Core.List.{append-nil}
use mypkecode.Base.Words.{u64}
use mypkecode.Strings.{Bytes, atol}
use mypkecode.Strings.Decimal.{IsDecimal, decimal_value, atol-decimal_value, atol-minus}
use mypkecode.Snprintf.{word, vsnprintf}
use mypkecode.Snprintf.Decimal.{decimal}
use mypkecode.Snprintf.Text.{render, piece, conversion, signed_text, has_char, byte_at, delivered}
use mypkecode.Snprintf.Render.{vsnprintf-render}

length-decimal : (fuel num : ℕ) → length (decimal fuel num) ≤ fuel
unfolding decimal
length-decimal zero num = omega arith
length-decimal (suc fuel) num = elim (Bool-cases (num / 10 == 0)) [
  | inl last ↦ rw last (omega arith)
  | inr more ↦ rw more (
      omega (
        arith,
        length-decimal fuel (num / 10),
        length-append (decimal fuel (num / 10)) ((b'0' + num % 10) ∷ []),
      ))
]

decimal_some : (fuel num : ℕ) → 0 < length (decimal (suc fuel) num)
unfolding decimal
decimal_some fuel num =
    let rest = if num / 10 == 0 then [] else decimal fuel (num / 10) in
    omega (arith, length-append rest ((b'0' + num % 10) ∷ []))

byte_at-append :
    (xs : List ℕ) (d i : ℕ)
    → byte_at (xs ++ d ∷ []) i
      ≡ (if ltb i (length xs) then byte_at xs i else if i == length xs then d else 0)
unfolding byte_at
byte_at-append [] d i = ground arith
byte_at-append (x ∷ xs) d i = ground (arith, byte_at-append xs d (i - 1))

abbrev IsDigits : List ℕ → Type 0
IsDigits t = (i : ℕ) → i < length t → (48 ≤ byte_at t i) × (byte_at t i ≤ 57)

IsDigits-append : (xs : List ℕ) (d : ℕ) → IsDigits xs → 48 ≤ d → d ≤ 57 → IsDigits (xs ++ d ∷ [])
IsDigits-append xs d digits ge le i lt =
    let at = byte_at-append xs d i in
    let len = length-append xs (d ∷ []) in
    elim (Bool-cases (ltb i (length xs))) [
      | inl inside ↦
          let (low, high) = digits i (ground (arith, inside)) in
          (ground (arith, at, inside, low), ground (arith, at, inside, high))
      | inr behind ↦
          let last : i ≡ length xs = ground (arith, behind, len, lt) in
          (ground (arith, at, behind, last, ge), ground (arith, at, behind, last, le))
    ]

decimal-IsDigits : (fuel num : ℕ) → IsDigits (decimal fuel num)
unfolding decimal
decimal-IsDigits zero num = λ i lt. absurd (omega (arith, lt))
decimal-IsDigits (suc fuel) num = elim (Bool-cases (num / 10 == 0)) [
  | inl last ↦ rw last (
      IsDigits-append [] (b'0' + num % 10) (λ i lt. absurd (omega (arith, lt))) (omega arith)
        (omega arith))
  | inr more ↦ rw more (
      IsDigits-append (decimal fuel (num / 10)) (b'0' + num % 10) (decimal-IsDigits fuel (num / 10))
        (omega arith) (omega arith))
]

-- The number that the digits of a text stand for, behind those of `acc`.
text_value : List ℕ → (acc : ℕ) → ℕ
text_value [] acc = acc
text_value (x ∷ t) acc = text_value t (acc * 10 + (x - 48))

text_value-append :
    (xs : List ℕ) (d acc : ℕ) → text_value (xs ++ d ∷ []) acc ≡ text_value xs acc * 10 + (d - 48)
unfolding text_value
text_value-append [] d acc = refl
text_value-append (x ∷ xs) d acc = text_value-append xs d (acc * 10 + (x - 48))

text_value-decimal : (fuel num : ℕ) → num < 10 ^ fuel → text_value (decimal fuel num) 0 ≡ num
unfolding decimal text_value
text_value-decimal zero num lt = omega (arith, lt)
text_value-decimal (suc fuel) num lt = elim (Bool-cases (num / 10 == 0)) [
  | inl last ↦ rw last (ground (arith, last))
  | inr more ↦
      let ih = text_value-decimal fuel (num / 10) (omega (arith, lt, pow-suc 10 fuel)) in
      rw more (omega (arith, ih, text_value-append (decimal fuel (num / 10)) (b'0' + num % 10) 0))
]

-- The text `t` with a zero behind it stands at `p`.
record Holds (m : Bytes) (p : ℕ) (t : List ℕ) : Type 0 where
  bytes : (i : ℕ) → i < length t → m (p + i) ≡ byte_at t i
  end : m (p + length t) ≡ 0

Holds-rest : {m : Bytes} {p x : ℕ} {t : List ℕ} → Holds m p (x ∷ t) → (m p ≡ x) × Holds m (p + 1) t
unfolding byte_at
Holds-rest {m} {p} {x} {t} h =
    let here : p + 0 ≡ p = omega arith in
    let behind : p + 1 + length t ≡ p + suc (length t) = omega arith in
    (
      subst (λ (a : ℕ). m a ≡ x) here (h.bytes 0 (omega arith)),
      record {
        bytes = λ i lt.
            let at : p + 1 + i ≡ p + suc i = omega arith in
            let next : suc i - 1 ≡ i = omega arith in
            rw at (h.bytes (suc i) (omega (arith, lt)) ∙ ground (arith, ap (byte_at t) next));
        end = rw behind h.end;
      },
    )

Holds-IsDecimal :
    (m : Bytes) (p : ℕ) (t : List ℕ) → Holds m p t → IsDigits t → IsDecimal m p (length t)
Holds-IsDecimal m p t h digits = record {
  digits = λ i lt. rw (h.bytes i lt) (digits i lt);
  end = h.end;
}

decimal_value-text_value :
    (m : Bytes) (p acc : ℕ) (t : List ℕ)
    → Holds m p t
    → decimal_value m p (length t) acc ≡ text_value t acc
unfolding decimal_value text_value
decimal_value-text_value m p acc [] h = refl
decimal_value-text_value m p acc (x ∷ t) h =
    let (first, later) = Holds-rest h in
    ap (λ (c : ℕ). decimal_value m (p + 1) (length t) (acc * 10 + (c - 48))) first
    ∙ decimal_value-text_value m (p + 1) (acc * 10 + (x - 48)) t later

delivered-Holds : (n : ℕ) (t : List ℕ) (buf : Bytes) → length t < n → Holds (delivered n t buf) 0 t
unfolding delivered
delivered-Holds n t buf lt = record {
  bytes = λ i inside. ground (arith, inside, lt);
  end = ground (arith, lt);
}

-- The text of a word as a `long`: digits, or a minus and digits.
signed_cases :
    (num : ℕ)
    → num < 2 ^ 64
    → (num == 2 ^ 63) ≡ false
    → (v : ℕ) × (t : List ℕ) × (v < 2 ^ 63)
      × (t ≡ decimal 19 v)
      × (((signed_text num ≡ some t) × (num ≡ v))
          ⊎ ((signed_text num ≡ some (b'-' ∷ t)) × (num ≡ (2 ^ 64 - v) % 2 ^ 64)))
unfolding signed_text
signed_cases num lt least = elim (Bool-cases (ltb num (2 ^ 63))) [
  | inl small ↦ (num, decimal 19 num, ground (arith, small), refl, inl (rw small refl, refl))
  | inr large ↦ (
    2 ^ 64 - num,
    decimal 19 (2 ^ 64 - num),
    ground (arith, large, least),
    refl,
    inr (rw (large, least) refl, ground (arith, large, lt)),
  )
]

abbrev pub long_format : List ℕ
long_format = b'%' ∷ b'l' ∷ b'd' ∷ []

render-signed_text :
    (num : ℕ) (t : List ℕ)
    → num < 2 ^ 64
    → signed_text num ≡ some t
    → render long_format (word num ∷ []) false false ≡ some t
unfolding render piece conversion
render-signed_text num t lt h =
    let same : u64 num ≡ num = ground (arith, lt) in rw (same, h) (ap some (append-nil t))

atol-delivered :
    (n fuel v : ℕ) (buf : Bytes)
    → v < 2 ^ 63
    → 20 ≤ n
    → 20 ≤ fuel
    → atol fuel 0 (delivered n (decimal 19 v) buf) ≡ some v
atol-delivered n fuel v buf small room enough =
    let t = decimal 19 v in
    let m = delivered n t buf in
    let k = length t - 1 in
    let len : length t ≡ suc k = omega (arith, decimal_some 18 v) in
    let h = delivered-Holds n t buf (omega (arith, room, length-decimal 19 v)) in
    let d = Holds-IsDecimal m 0 t h (decimal-IsDigits 19 v) in
    let value : decimal_value m 0 (suc k) 0 ≡ v =
      ap (λ l. decimal_value m 0 l 0) (sym len)
      ∙ decimal_value-text_value m 0 0 t h
      ∙ text_value-decimal 19 v (omega (arith, small)) in
    atol-decimal_value fuel 0 k m (subst (λ l. IsDecimal m 0 l) len d) (omega (arith, value, small))
      (omega (arith, enough, len, length-decimal 19 v))
    ∙ ap some value

atol-delivered-minus :
    (n fuel v : ℕ) (buf : Bytes)
    → v < 2 ^ 63
    → 21 ≤ n
    → 20 ≤ fuel
    → atol fuel 0 (delivered n (b'-' ∷ decimal 19 v) buf) ≡ some ((2 ^ 64 - v) % 2 ^ 64)
atol-delivered-minus n fuel v buf small room enough =
    let t = decimal 19 v in
    let m = delivered n (b'-' ∷ t) buf in
    let h = delivered-Holds n (b'-' ∷ t) buf (omega (arith, room, length-decimal 19 v)) in
    let (first, later) = Holds-rest h in
    let d = Holds-IsDecimal m 1 t later (decimal-IsDigits 19 v) in
    let value : decimal_value m 1 (length t) 0 ≡ v =
      decimal_value-text_value m 1 0 t later ∙ text_value-decimal 19 v (omega (arith, small)) in
    atol-minus fuel 0 (length t) m first d (omega (arith, value, small))
      (omega (arith, enough, length-decimal 19 v))
    ∙ ap (λ (w : ℕ). some ((2 ^ 64 - w) % 2 ^ 64)) value

-- The number as a `long` is not the least one, the buffer has room for 20 characters and a zero, and
-- `atol` may look at 20 characters. Then the word that `vsnprintf` prints by `%ld` into the buffer is
-- the word that `atol` reads from there, also where it stands for a negative number.
pub atol-vsnprintf :
    (n fuel num : ℕ) (buf : Bytes)
    → num < 2 ^ 64
    → (num == 2 ^ 63) ≡ false
    → 21 ≤ n
    → 20 ≤ fuel
    → (len : ℕ) × (b : Bytes) × (vsnprintf n long_format (word num ∷ []) buf ≡ some (len, b))
      × (atol fuel 0 b ≡ some num)
unfolding has_char
atol-vsnprintf n fuel num buf lt least room enough =
    let (v, t, small, same, case) = signed_cases num lt least in
    let print : (u : List ℕ)
        → signed_text num ≡ some u
        → vsnprintf n long_format (word num ∷ []) buf
          ≡ some (length u % 2 ^ 32, delivered n u buf) =
      λ u h.
        vsnprintf-render n long_format (word num ∷ []) buf u (render-signed_text num u lt h)
          (inr refl) in
    elim case [
      | inl (h, e) ↦ (
        length t % 2 ^ 32,
        delivered n t buf,
        print t h,
        ap (λ u. atol fuel 0 (delivered n u buf)) same
            ∙ atol-delivered n fuel v buf small (omega (arith, room)) enough
            ∙ ap some (sym e),
      )
      | inr (h, e) ↦ (
        length (b'-' ∷ t) % 2 ^ 32,
        delivered n (b'-' ∷ t) buf,
        print (b'-' ∷ t) h,
        ap (λ u. atol fuel 0 (delivered n (b'-' ∷ u) buf)) same
            ∙ atol-delivered-minus n fuel v buf small room enough
            ∙ ap some (sym e),
      )
    ]
