-- ===== src/Strings.antt =====
-- util/string.c on memory by bytes. Addresses do not wrap. A loop that has no bound in the code runs on
-- fuel, and `none` says that the fuel ends.
pub mod Moves
pub mod Text
pub mod Fill
pub mod Compare
pub mod Decimal
use mypkecode.Base.{
  ℕ, zero, suc, ◌+◌, ◌-◌, ◌*◌, ◌/◌, ◌%◌, ◌^◌, Bool, true, false, not, ◌&&◌, Option, none, some,
  bit_and, bit_or, ltb, ◌==◌, if◌then◌else◌,
}

-- The byte at each address.
abbrev pub Bytes : Type 0
Bytes = ℕ → ℕ

unfoldable pub set_byte : Bytes → (a v : ℕ) → Bytes
set_byte m a v b = if a == b then v else m b

-- `n` bytes at `s` are read and then written to `d`.
unfoldable pub moved : Bytes → (d s n : ℕ) → Bytes
moved m d s n b = if ltb b d then m b else if ltb b (d + n) then m (s + (b - d)) else m b

-- Whether both numbers are multiples of the size of a word.
abbrev pub both_aligned : (x y : ℕ) → Bool
both_aligned x y = bit_and (bit_or x y) 7 == 0

-- The loop of `memcpy` over words, up to `end`; the value is the two pointers behind it and memory.
unfoldable pub copy_words : (fuel d s end : ℕ) → Bytes → Option (ℕ × ℕ × Bytes)
copy_words zero d s end m = none
copy_words (suc fuel) d s end m =
    let rest = copy_words fuel (d + 8) (s + 8) end (moved m d s 8) in
    if ltb (d + 7) end then rest else some (d, s, m)

-- The loop of `memcpy` over single bytes.
unfoldable pub copy_bytes : (fuel d s end : ℕ) → Bytes → Option Bytes
copy_bytes zero d s end m = none
copy_bytes (suc fuel) d s end m =
    let rest = copy_bytes fuel (d + 1) (s + 1) end (set_byte m d (m s)) in
    if ltb d end then rest else some m

unfoldable pub memcpy : (dest src len : ℕ) → Bytes → Option Bytes
memcpy dest src len m =
    if both_aligned dest src
    then elim (copy_words (len + 1) dest src (dest + len) m) [
      | none ↦ none
      | some (d, s, m') ↦ copy_bytes (len + 1) d s (dest + len) m'
    ]
    else copy_bytes (len + 1) dest src (dest + len) m

-- `n` bytes at `d` are `v`.
unfoldable pub filled : Bytes → (d n v : ℕ) → Bytes
filled m d n v b = if ltb b d then m b else if ltb b (d + n) then v else m b

-- The word of `memset`: the low byte, eight times.
unfoldable pub word_of : (byte : ℕ) → ℕ
word_of byte =
    let w0 = bit_and byte 255 in
    let w1 = bit_or w0 (w0 * 2 ^ 8 % 2 ^ 64) in
    let w2 = bit_or w1 (w1 * 2 ^ 16 % 2 ^ 64) in bit_or w2 (w2 * 2 ^ 16 % 2 ^ 64 * 2 ^ 16 % 2 ^ 64)

-- Byte `i` of a word, which lies at the `i`-th address behind the word's.
abbrev pub byte_of : (w i : ℕ) → ℕ
byte_of w i = w / 256 ^ i % 256

unfoldable pub set_word : Bytes → (a w : ℕ) → Bytes
set_word m a w b = if ltb b a then m b else if ltb b (a + 8) then byte_of w (b - a) else m b

-- The two loops of `memset`, up to `end`.
unfoldable pub fill_words : (fuel d end word : ℕ) → Bytes → Option Bytes
fill_words zero d end word m = none
fill_words (suc fuel) d end word m =
    let rest = fill_words fuel (d + 8) end word (set_word m d word) in
    if ltb d end then rest else some m

unfoldable pub fill_bytes : (fuel d end byte : ℕ) → Bytes → Option Bytes
fill_bytes zero d end byte m = none
fill_bytes (suc fuel) d end byte m =
    let rest = fill_bytes fuel (d + 1) end byte (set_byte m d (byte % 256)) in
    if ltb d end then rest else some m

unfoldable pub memset : (dest byte len : ℕ) → Bytes → Option Bytes
memset dest byte len m =
    if both_aligned dest len
    then fill_words (len + 1) dest (dest + len) (word_of byte) m
    else fill_bytes (len + 1) dest (dest + len) byte m

-- The loops of `atol`: over spaces, and over all characters up to a zero, with `res` a word of 64 bits.
unfoldable pub skip_spaces : (fuel p : ℕ) → Bytes → Option ℕ
skip_spaces zero p m = none
skip_spaces (suc fuel) p m =
    let rest = skip_spaces fuel (p + 1) m in if m p == 32 then rest else some p

unfoldable pub read_digits : (fuel p res : ℕ) → Bytes → Option ℕ
read_digits zero p res m = none
read_digits (suc fuel) p res m =
    let rest = read_digits fuel (p + 1) ((res * 10 + m p + 2 ^ 64 - 48) % 2 ^ 64) m in
    if m p == 0 then some res else rest

-- `-res`
abbrev pub negated : Option ℕ → Option ℕ
negated none = none
negated (some res) = some ((2 ^ 64 - res) % 2 ^ 64)

-- `atol` from the first character on that is no space.
unfoldable pub read_signed : (fuel : ℕ) → Bytes → Option ℕ → Option ℕ
read_signed fuel m none = none
read_signed fuel m (some p) =
    if m p == 45
    then negated (read_digits fuel (p + 1) 0 m)
    else if m p == 43
    then read_digits fuel (p + 1) 0 m
    else read_digits fuel p 0 m

unfoldable pub atol : (fuel str : ℕ) → Bytes → Option ℕ
atol fuel str m = read_signed fuel m (skip_spaces fuel str m)

-- The two loops of `memmove`, with `n` bytes left.
unfoldable pub move_down : (n d s : ℕ) → Bytes → Bytes
move_down zero d s m = m
move_down (suc n) d s m = move_down n (d - 1) (s - 1) (set_byte m (d - 1) (m (s - 1)))

unfoldable pub move_up : (n d s : ℕ) → Bytes → Bytes
move_up zero d s m = m
move_up (suc n) d s m = move_up n (d + 1) (s + 1) (set_byte m d (m s))

unfoldable pub memmove : (dst src n : ℕ) → Bytes → Bytes
memmove dst src n m =
    if ltb src dst && ltb dst (src + n)
    then move_down n (dst + n) (src + n) m
    else move_up n dst src m

-- The loop of `strlen`, from `p` on.
unfoldable pub find_end : (fuel p : ℕ) → Bytes → Option ℕ
find_end zero p m = none
find_end (suc fuel) p m = let rest = find_end fuel (p + 1) m in if m p == 0 then some p else rest

-- `p - s` for the pointer that the loop leaves.
abbrev pub distance : ℕ → Option ℕ → Option ℕ
distance s none = none
distance s (some p) = some (p - s)

unfoldable pub strlen : (fuel s : ℕ) → Bytes → Option ℕ
strlen fuel s m = distance s (find_end fuel s m)

-- `c1 - c2` as an int of 32 bits.
abbrev pub int_minus : (c1 c2 : ℕ) → ℕ
int_minus c1 c2 = (c1 + 2 ^ 32 - c2) % 2 ^ 32

unfoldable pub strcmp : (fuel s1 s2 : ℕ) → Bytes → Option ℕ
strcmp zero s1 s2 m = none
strcmp (suc fuel) s1 s2 m =
    let rest = strcmp fuel (s1 + 1) (s2 + 1) m in
    let c1 = m s1 % 256 in
    let c2 = m s2 % 256 in if not (c1 == 0) && c1 == c2 then rest else some (int_minus c1 c2)

-- The loop of `strcpy`: the value of the assignment is its test.
unfoldable pub strcpy : (fuel d s : ℕ) → Bytes → Option Bytes
strcpy zero d s m = none
strcpy (suc fuel) d s m =
    let m' = set_byte m d (m s) in
    let rest = strcpy fuel (d + 1) (s + 1) m' in if m s == 0 then some m' else rest

-- The loop of `safestrcpy`, where `n` is at least 1: the value is the last pointer into `s` and memory.
unfoldable pub safe_loop : (n s t : ℕ) → Bytes → ℕ × Bytes
safe_loop zero s t m = (s, m)
safe_loop (suc n) s t m =
    let m' = set_byte m s (m t) in
    let rest = safe_loop n (s + 1) (t + 1) m' in
    if n == 0 then (s, m) else if m t == 0 then (s + 1, m') else rest

-- A negative `n` is 0 here.
unfoldable pub safestrcpy : (s t n : ℕ) → Bytes → Bytes
safestrcpy s t n m = if n == 0 then m else (let r = safe_loop n s t m in set_byte r.1 r.0 0)
