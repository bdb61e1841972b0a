-- ===== src/Snprintf.antt =====
-- util/snprintf.c. The format is the list of its bytes before the zero, and the buffer a function of
-- the index. `none` is what C leaves undefined: an argument that is missing or of the other kind, and
-- the negation of the least `long`.
pub mod Decimal
pub mod Text
pub mod Convert
pub mod Render
pub mod RoundTrip
use mypkecode.Base.{
  ℕ, zero, suc, ◌+◌, ◌-◌, ◌*◌, ◌/◌, ◌%◌, ◌^◌, Bool, true, false, Option, none, some, List, [], ◌∷◌,
  ltb, leb, ◌==◌, if◌then◌else◌,
}
use mypkecode.Base.Partial.{◌>>=◌}
use mypkecode.Base.Words.{u64}
use mypkecode.Strings.{Bytes, set_byte}

-- A variable argument: a number in a register, or a pointer to the text of these bytes.
pub data Arg : Type 0 where
  word : ℕ → Arg
  text : List ℕ → Arg

pub record Out : Type 0 where
  pub pos : ℕ
  pub buf : Bytes

-- `if (i + 1 < n) out[i] = c`
unfoldable pub put_at : (n i c : ℕ) → Bytes → Bytes
put_at n i c buf = if ltb (i + 1) n then set_byte buf i c else buf

-- `if (++pos < n) out[pos - 1] = c`
abbrev pub put : (n c : ℕ) → Out → Out
put n c o = record { pos = o.pos + 1; buf = put_at n o.pos c o.buf }

-- The loop over the bytes of a text.
unfoldable pub put_text : (n : ℕ) → List ℕ → Out → Out
put_text n [] o = o
put_text n (c ∷ s) o = put_text n s (put n c o)

abbrev pub hex_char : ℕ → ℕ
hex_char d = if ltb d 10 then b'0' + d else b'a' + d - 10

-- The loop over the lowest `i` digits of base 16.
unfoldable pub put_hex : (n i num : ℕ) → Out → Out
put_hex n zero num o = o
put_hex n (suc i) num o = put_hex n i num (put n (hex_char (num / 2 ^ (4 * i) % 16)) o)

-- `for (long nn = num; nn /= 10; digits++)`, with `digits` at 1 before.
unfoldable pub count_digits : (fuel nn : ℕ) → Option ℕ
count_digits zero nn = none
count_digits (suc fuel) nn =
    let rest = count_digits fuel (nn / 10) in
    if nn / 10 == 0 then some 1 else (do k ← rest; some (suc k))

-- The loop that writes the lowest `i` digits from the last one on; `pos` does not move.
unfoldable pub write_digits : (n i num pos : ℕ) → Bytes → Bytes
write_digits n zero num pos buf = buf
write_digits n (suc i) num pos buf =
    write_digits n i (num / 10) pos (put_at n (pos + i) (b'0' + num % 10) buf)

-- The decimal digits of `num`. A number below 2^63 has at most 19.
unfoldable pub put_decimal : (n num : ℕ) → Out → Option Out
put_decimal n num o = do
  digits ← count_digits 19 num
  some (record { pos = o.pos + digits; buf = write_digits n digits num o.pos o.buf })

-- `longarg ? va_arg(vl, long) : va_arg(vl, int)`, as a word.
abbrev pub number : (longarg : Bool) → ℕ → ℕ
number longarg w =
    if longarg
    then u64 w
    else if ltb (w % 2 ^ 32) (2 ^ 31)
    then w % 2 ^ 32
    else w % 2 ^ 32 + (2 ^ 64 - 2 ^ 32)

-- The case 'd', the sign included.
unfoldable pub put_signed : (n num : ℕ) → Out → Option Out
put_signed n num o =
    if ltb num (2 ^ 63)
    then put_decimal n num o
    else if num == 2 ^ 63
    then none
    else put_decimal n (2 ^ 64 - num) (put n b'-' o)

-- The variables of `vsnprintf` between two bytes of the format.
pub record Scan : Type 0 where
  pub args : List Arg
  pub format : Bool
  pub longarg : Bool
  pub out : Out

abbrev pub next_word : List Arg → Option (ℕ × List Arg)
next_word [] = none
next_word (word w ∷ args) = some (w, args)
next_word (text t ∷ args) = none

abbrev pub next_text : List Arg → Option (List ℕ × List Arg)
next_text [] = none
next_text (word w ∷ args) = none
next_text (text t ∷ args) = some (t, args)

-- The end of a conversion.
abbrev pub converted : List Arg → Out → Scan
converted args o = record { args = args; format = false; longarg = false; out = o }

unfoldable pub convert_x : (n : ℕ) → Scan → Option Scan
convert_x n s = do
  (w, args) ← next_word s.args
  some (converted args (put_hex n (if s.longarg then 16 else 8) (number s.longarg w) s.out))

unfoldable pub convert_d : (n : ℕ) → Scan → Option Scan
convert_d n s = do
  (w, args) ← next_word s.args
  o ← put_signed n (number s.longarg w) s.out
  some (converted args o)

unfoldable pub convert_s : (n : ℕ) → Scan → Option Scan
convert_s n s = do (t, args) ← next_text s.args; some (converted args (put_text n t s.out))

-- The argument is taken only where there is room for it.
unfoldable pub convert_c : (n : ℕ) → Scan → Option Scan
convert_c n s =
    if ltb (s.out.pos + 1) n
    then (do (w, args) ← next_word s.args; some (converted args (put n (w % 256) s.out)))
    else some (converted s.args (record s.out { pos = s.out.pos + 1 }))

-- The `switch` on the byte `c` of the format.
unfoldable pub convert : (n c : ℕ) → Scan → Option Scan
convert n c s =
    if c == b'l'
    then some (record s { longarg = true })
    else if c == b'p'
    then convert_x n (record s { longarg = true; out = put n b'x' (put n b'0' s.out) })
    else if c == b'x'
    then convert_x n s
    else if c == b'd'
    then convert_d n s
    else if c == b's'
    then convert_s n s
    else if c == b'c'
    then convert_c n s
    else some s

-- One round of the loop.
unfoldable pub scan_byte : (n c : ℕ) → Scan → Option Scan
scan_byte n c s =
    if s.format
    then convert n c s
    else if c == b'%'
    then some (record s { format = true })
    else some (record s { out = put n c s.out })

unfoldable pub scan : (n : ℕ) → List ℕ → Scan → Option Scan
scan n [] s = some s
scan n (c ∷ fmt) s = scan_byte n c s >>= scan n fmt

-- The zero behind the text, or at the end of the buffer.
abbrev pub finish : (n : ℕ) → Out → Bytes
finish n o =
    if ltb o.pos n
    then set_byte o.buf o.pos 0
    else if n == 0
    then o.buf
    else set_byte o.buf (n - 1) 0

-- The value is that of `pos` as an int32, and the buffer.
unfoldable pub vsnprintf : (n : ℕ) → List ℕ → List Arg → Bytes → Option (ℕ × Bytes)
vsnprintf n fmt args buf = do
  s ←
      scan n fmt (record {
        args = args;
        format = false;
        longarg = false;
        out = record { pos = 0; buf = buf };
      })
  some (s.out.pos % 2 ^ 32, finish n s.out)
