-- ===== src/Snprintf/Text.antt =====
-- What `vsnprintf` (util/snprintf.c) should write: the text of a format and its arguments, as a list,
-- with no buffer in sight.
use mypkecode.Base.{
  ℕ, zero, suc, ◌+◌, ◌-◌, ◌*◌, ◌/◌, ◌%◌, ◌^◌, Bool, true, false, not, ◌&&◌, ◌||◌, Option, none,
  some, List, [], ◌∷◌, ◌++◌, length, leb, ltb, ◌==◌, if◌then◌else◌,
}
use mypkecode.Base.Partial.{◌>>=◌}
use mypkecode.Strings.{Bytes}
use mypkecode.Snprintf.{Arg, hex_char, number, next_word, next_text}
use mypkecode.Snprintf.Decimal.{decimal}

-- The lowest `i` digits of base 16, the first one first.
unfoldable pub hex_text : (i num : ℕ) → List ℕ
hex_text zero num = []
hex_text (suc i) num = hex_char (num / 2 ^ (4 * i) % 16) ∷ hex_text i num

unfoldable pub signed_text : (num : ℕ) → Option (List ℕ)
signed_text num =
    if ltb num (2 ^ 63)
    then some (decimal 19 num)
    else if num == 2 ^ 63
    then none
    else some (b'-' ∷ decimal 19 (2 ^ 64 - num))

-- What one byte of the format stands for, and how the reading of the format goes on.
pub record Piece : Type 0 where
  pub args : List Arg
  pub format : Bool
  pub longarg : Bool
  pub text : List ℕ

abbrev pub ended : List Arg → List ℕ → Piece
ended args t = record { args = args; format = false; longarg = false; text = t }

abbrev pub hex_piece : (longarg : Bool) → List ℕ → List Arg → Option Piece
hex_piece longarg prefix args = do
  (w, args') ← next_word args
  some (ended args' (prefix ++ hex_text (if longarg then 16 else 8) (number longarg w)))

abbrev pub signed_piece : (longarg : Bool) → List Arg → Option Piece
signed_piece longarg args = do
  (w, args') ← next_word args
  t ← signed_text (number longarg w)
  some (ended args' t)

abbrev pub text_piece : List Arg → Option Piece
text_piece args = do (t, args') ← next_text args; some (ended args' t)

abbrev pub char_piece : List Arg → Option Piece
char_piece args = do (w, args') ← next_word args; some (ended args' (w % 256 ∷ []))

unfoldable pub conversion : (c : ℕ) → List Arg → (longarg : Bool) → Option Piece
conversion c args longarg =
    if c == b'l'
    then some (record { args = args; format = true; longarg = true; text = [] })
    else if c == b'p'
    then hex_piece true (b'0' ∷ b'x' ∷ []) args
    else if c == b'x'
    then hex_piece longarg [] args
    else if c == b'd'
    then signed_piece longarg args
    else if c == b's'
    then text_piece args
    else if c == b'c'
    then char_piece args
    else some (record { args = args; format = true; longarg = longarg; text = [] })

unfoldable pub piece : (c : ℕ) → List Arg → (format longarg : Bool) → Option Piece
piece c args format longarg =
    if format
    then conversion c args longarg
    else some (record {
      args = args;
      format = c == b'%';
      longarg = longarg;
      text = if c == b'%' then [] else c ∷ [];
    })

unfoldable pub render : List ℕ → List Arg → (format longarg : Bool) → Option (List ℕ)
render [] args format longarg = some []
render (c ∷ fmt) args format longarg = do
  p ← piece c args format longarg
  rest ← render fmt p.args p.format p.longarg
  some (p.text ++ rest)

-- Whether the format has a conversion `%c`.
abbrev pub ends_format : ℕ → Bool
ends_format c = (c == b'p') || (c == b'x') || (c == b'd') || (c == b's') || (c == b'c')

abbrev pub takes_char : (c : ℕ) (format : Bool) → Bool
takes_char c format = format && (c == b'c')

unfoldable pub has_char : List ℕ → (format : Bool) → Bool
has_char [] format = false
has_char (c ∷ fmt) format =
    takes_char c format || has_char fmt (if format then not (ends_format c) else c == b'%')

unfoldable pub byte_at : List ℕ → ℕ → ℕ
byte_at [] i = 0
byte_at (x ∷ t) i = if i == 0 then x else byte_at t (i - 1)

-- The buffer with the text from `pos` on, as far as it stays before the last byte of the buffer.
unfoldable pub text_over : (n : ℕ) → List ℕ → (pos : ℕ) → Bytes → Bytes
text_over n t pos buf i =
    if leb pos i && ltb i (pos + length t) && ltb (i + 1) n then byte_at t (i - pos) else buf i

-- The first bytes of the text, a zero behind them, and every other byte as it was.
unfoldable pub delivered : (n : ℕ) → List ℕ → Bytes → Bytes
delivered n t buf i =
    if leb n i
    then buf i
    else if (i == length t) || (i + 1 == n) && ltb i (length t)
    then 0
    else if ltb i (length t)
    then byte_at t i
    else buf i
