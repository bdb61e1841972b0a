-- ===== src/Tests/Prints.antt =====
-- Runs of `vsnprintf` (util/snprintf.c) on the format "%d:%c".
use mypkecode.Base.{ℕ, ◌≡◌, ◌^◌, ◌-◌, false, refl, inl, some, List, [], ◌∷◌, arith}
use mypkecode.Snprintf.{Arg, word, vsnprintf}
use mypkecode.Snprintf.Decimal.{decimal}
use mypkecode.Snprintf.Text.{render, piece, conversion, signed_text, delivered}
use mypkecode.Snprintf.Render.{vsnprintf-render}
use mypkecode.Snprintf.RoundTrip.{long_format, atol-vsnprintf}
use mypkecode.Strings.{Bytes, atol}

abbrev pub colon_format : List ℕ
colon_format = b'%' ∷ b'd' ∷ b':' ∷ b'%' ∷ b'c' ∷ []

-- The int -42 and the letter z.
abbrev pub two_words : List Arg
two_words = word (2 ^ 64 - 42) ∷ word b'z' ∷ []

abbrev pub colon_text : List ℕ
colon_text = b'-' ∷ b'4' ∷ b'2' ∷ b':' ∷ b'z' ∷ []

pub colon_render : render colon_format two_words false false ≡ some colon_text
unfolding render piece conversion signed_text decimal
colon_render = refl

vsnprintf-render_example :
    vsnprintf 8 colon_format two_words (λ a. 7) ≡ some (5, delivered 8 colon_text (λ a. 7))
vsnprintf-render_example =
    vsnprintf-render 8 colon_format two_words (λ a. 7) colon_text colon_render (inl (omega arith))

-- The long -42, as a word.
atol-vsnprintf_example :
    (len : ℕ) × (b : Bytes) × (vsnprintf 32 long_format (word (2 ^ 64 - 42) ∷ []) (λ a. 7)
      ≡ some (len, b))
    × (atol 20 0 b ≡ some (2 ^ 64 - 42))
atol-vsnprintf_example =
    atol-vsnprintf 32 20 (2 ^ 64 - 42) (λ a. 7) (omega arith) refl (omega arith) (omega arith)
