-- ===== src/Strings/Compare.antt =====
-- `strcmp` of util/string.c compares two texts up to their first difference.
use mypkecode.Base.{
  ℕ, zero, suc, ◌+◌, ◌%◌, ◌<◌, ◌≡◌, ◌≢◌, ◌⊎◌, refl, sym, subst, true, false, ◌&&◌, not, ◌==◌, some,
  arith,
}
use mypkecode.Strings.{Bytes, int_minus, strcmp}

-- The first `n` characters of the two texts are the same, and none of them is zero.
pub SamePrefix : Bytes → (s1 s2 n : ℕ) → Type 0
SamePrefix m s1 s2 n =
    (i : ℕ) → i < n → (m (s1 + i) % 256 ≢ 0) × (m (s1 + i) % 256 ≡ m (s2 + i) % 256)

-- `strcmp` returns the difference of the first characters that differ, or 0 at the end of equal texts.
pub strcmp-SamePrefix :
    (fuel s1 s2 n : ℕ) (m : Bytes)
    → SamePrefix m s1 s2 n
    → (m (s1 + n) % 256 ≡ 0) ⊎ (m (s1 + n) % 256 ≢ m (s2 + n) % 256)
    → n < fuel
    → strcmp fuel s1 s2 m ≡ some (int_minus (m (s1 + n) % 256) (m (s2 + n) % 256))
unfolding strcmp SamePrefix
strcmp-SamePrefix zero s1 s2 n m same end f = absurd (omega arith)
strcmp-SamePrefix (suc fuel) s1 s2 zero m same end f =
    let e1 : s1 + 0 ≡ s1 = omega arith in
    let e2 : s2 + 0 ≡ s2 = omega arith in
    let last : (m s1 % 256 ≡ 0) ⊎ (m s1 % 256 ≢ m s2 % 256) = rw (sym e1, sym e2) end in
    let stops : (not (m s1 % 256 == 0) && m s1 % 256 == m s2 % 256) ≡ false =
      ground (arith, last) in
    rw (e1, e2, stops) refl
strcmp-SamePrefix (suc fuel) s1 s2 (suc n) m same end f =
    let e1 : s1 + suc n ≡ s1 + 1 + n = omega arith in
    let e2 : s2 + suc n ≡ s2 + 1 + n = omega arith in
    let z1 : s1 + 0 ≡ s1 = omega arith in
    let z2 : s2 + 0 ≡ s2 = omega arith in
    let here : (m s1 % 256 ≢ 0) × (m s1 % 256 ≡ m s2 % 256) =
      subst (λ (a : ℕ). (m a % 256 ≢ 0) × (m a % 256 ≡ m s2 % 256)) z1
        (subst (λ (a : ℕ). (m (s1 + 0) % 256 ≢ 0) × (m (s1 + 0) % 256 ≡ m a % 256)) z2
          (same 0 (omega arith))) in
    let goes : (not (m s1 % 256 == 0) && m s1 % 256 == m s2 % 256) ≡ true = ground (arith, here) in
    let later : SamePrefix m (s1 + 1) (s2 + 1) n = λ i lt.
      let a1 : s1 + 1 + i ≡ s1 + suc i = omega arith in
      let a2 : s2 + 1 + i ≡ s2 + suc i = omega arith in rw (a1, a2) (same (suc i) (omega arith)) in
    rw (goes, e1, e2)
      (strcmp-SamePrefix fuel (s1 + 1) (s2 + 1) n m later (rw (sym e1, sym e2) end) (omega arith))
