-- ===== src/Strings/Text.antt =====
-- `strlen`, `strcpy` and `safestrcpy` of util/string.c on texts that end in a zero byte.
use mypkecode.Base.{
  ℕ, zero, suc, ◌+◌, ◌-◌, ◌≤◌, ◌<◌, ◌≡◌, ◌≢◌, ◌⊎◌, refl, ◌∙◌, sym, ap, true, false, some, ◌==◌,
  arith, min,
}
use mypkecode.Strings.{
  Bytes, set_byte, moved, distance, find_end, strlen, strcpy, safe_loop, safestrcpy,
}
use mypkecode.Strings.Moves.{first_byte, moved-zero}

-- At `s` stand `n` bytes that are not zero, and then a zero.
pub record IsText (m : Bytes) (s n : ℕ) : Type 0 where
  pub letters : (i : ℕ) → i < n → m (s + i) ≢ 0
  pub end : m (s + n) ≡ 0

tail : (m : Bytes) (s n : ℕ) → IsText m s (suc n) → IsText m (s + 1) n
tail m s n t = record {
  letters = λ i h.
      let e : s + 1 + i ≡ s + (i + 1) = omega arith in rw e (t.letters (i + 1) (omega arith));
  end = (let e : s + 1 + n ≡ s + suc n = omega arith in rw e t.end);
}

head-ne : (m : Bytes) (s n : ℕ) → IsText m s (suc n) → (m s == 0) ≡ false
head-ne m s n t =
    let e : s + 0 ≡ s = omega arith in
    let ne : m s ≢ 0 = λ h. t.letters 0 (omega arith) (ap m e ∙ h) in ground arith

last-eq : (m : Bytes) (s : ℕ) → IsText m s 0 → (m s == 0) ≡ true
last-eq m s t =
    let e : s + 0 ≡ s = omega arith in let z : m s ≡ 0 = ap m (sym e) ∙ t.end in ground arith

-- A write outside a text leaves it.
set_byte-IsText :
    (m : Bytes) (s n d v : ℕ) → IsText m s n → (d < s) ⊎ (s + n < d) → IsText (set_byte m d v) s n
unfolding set_byte
set_byte-IsText m s n d v t out = record {
  letters = λ i h. let e : (d == s + i) ≡ false = ground arith in rw e (t.letters i h);
  end = (let e : (d == s + n) ≡ false = ground arith in rw e t.end);
}

find_end-IsText :
    (fuel s n : ℕ) (m : Bytes) → IsText m s n → n < fuel → find_end fuel s m ≡ some (s + n)
unfolding find_end
find_end-IsText zero s n m t f = absurd (omega arith)
find_end-IsText (suc fuel) s zero m t f =
    let e : s + 0 ≡ s = omega arith in rw (last-eq m s t, e) refl
find_end-IsText (suc fuel) s (suc n) m t f =
    let e : s + suc n ≡ s + 1 + n = omega arith in
    rw (head-ne m s n t, e) (find_end-IsText fuel (s + 1) n m (tail m s n t) (omega arith))

-- `strlen` of a text returns its length, with fuel for one round for each byte, the zero included.
pub strlen-IsText : (fuel s n : ℕ) (m : Bytes) → IsText m s n → n < fuel → strlen fuel s m ≡ some n
unfolding strlen
strlen-IsText fuel s n m t f =
    let e : s + n - s ≡ n = omega arith in
    ap (distance s) (find_end-IsText fuel s n m t f) ∙ ap some e

one_byte : (m : Bytes) (d s : ℕ) → set_byte m d (m s) ≡ moved m d s 1
one_byte m d s =
    sym (moved-zero (set_byte m d (m s)) (d + 1) (s + 1)) ∙ first_byte m d s 0 (ground arith)

-- `strcpy` of a text that the destination does not overlap from above returns, with fuel for one round
-- for each byte, with the text and its zero in the destination and no other byte changed.
pub strcpy-moved :
    (fuel d s n : ℕ) (m : Bytes)
    → IsText m s n
    → (d ≤ s) ⊎ (s + n < d)
    → n < fuel
    → strcpy fuel d s m ≡ some (moved m d s (suc n))
unfolding strcpy
strcpy-moved zero d s n m t apart f = absurd (omega arith)
strcpy-moved (suc fuel) d s zero m t apart f = rw (last-eq m s t) (ap some (one_byte m d s))
strcpy-moved (suc fuel) d s (suc n) m t apart f =
    let t' = set_byte-IsText m (s + 1) n d (m s) (tail m s n t) (ground arith) in
    rw (head-ne m s n t) (
      strcpy-moved fuel (d + 1) (s + 1) n (set_byte m d (m s)) t' (ground arith) (omega arith)
      ∙ ap some (first_byte m d s (suc n) (ground arith)))

safe_loop-moved :
    (n s t l : ℕ) (m : Bytes)
    → IsText m t l
    → (s ≤ t) ⊎ (t + l < s)
    → safe_loop (suc n) s t m ≡ (s + min (suc l) n, moved m s t (min (suc l) n))
unfolding safe_loop
safe_loop-moved zero s t l m text apart =
    let k : min (suc l) 0 ≡ 0 = omega arith in
    let e : s + 0 ≡ s = omega arith in rw (k, moved-zero m s t, e) refl
safe_loop-moved (suc n) s t zero m text apart =
    let k : min 1 (suc n) ≡ 1 = omega arith in
    let z : (suc n == 0) ≡ false = ground arith in rw (z, last-eq m t text, k, one_byte m s t) refl
safe_loop-moved (suc n) s t (suc l) m text apart =
    let c = min (suc l) n in
    let k : min (suc (suc l)) (suc n) ≡ suc c = omega arith in
    let z : (suc n == 0) ≡ false = ground arith in
    let e : s + suc c ≡ s + 1 + c = omega arith in
    let text' = set_byte-IsText m (t + 1) l s (m t) (tail m t l text) (ground arith) in
    rw (z, head-ne m t l text, k, e, ← first_byte m s t c (ground arith))
      (safe_loop-moved n (s + 1) (t + 1) l (set_byte m s (m t)) text' (ground arith))

-- `safestrcpy` into `n` bytes, at least one, of a text of length `l` that they do not overlap from above
-- copies the text with its zero, or as many of its bytes as fit before the last one, puts a zero
-- behind that, and changes no other byte: so nothing behind the `n` bytes is written.
pub safestrcpy-moved :
    (s t l n : ℕ) (m : Bytes)
    → IsText m t l
    → (s ≤ t) ⊎ (t + l < s)
    → 1 ≤ n
    → safestrcpy s t n m ≡ set_byte (moved m s t (min (l + 1) (n - 1))) (s + min (l + 1) (n - 1)) 0
unfolding safestrcpy
safestrcpy-moved s t l zero m text apart pos = absurd (omega arith)
safestrcpy-moved s t l (suc n) m text apart pos =
    let c : min (suc l) n ≡ min (l + 1) (suc n - 1) = omega arith in
    let z : (suc n == 0) ≡ false = ground arith in
    rw (z, ← c, safe_loop-moved n s t l m text apart) refl
