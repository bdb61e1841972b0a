-- ===== src/Snprintf/Convert.antt =====
-- One byte of the format in `vsnprintf` (util/snprintf.c) puts its piece of the text.
use mypkecode.Base.{
  ℕ, zero, suc, ◌+◌, ◌-◌, ◌^◌, ◌<◌, ◌≡◌, ◌⊎◌, refl, ap, ◌∙◌, sym, Bool, true, false, Option, none,
  some, List, [], ◌∷◌, ltb, ◌==◌, if◌then◌else◌, arith, Bool-cases, Option-cases, inl, inr,
}
use mypkecode.Base.Partial.{◌>>=◌}
use mypkecode.Base.Words.{u64}
use mypkecode.Snprintf.{
  Arg, word, text, Out, Scan, put, put_text, put_hex, put_signed, number, converted, convert_x,
  convert_d, convert_s, convert_c, convert, scan_byte,
}
use mypkecode.Snprintf.Decimal.{put_decimal-decimal, put_text-append}
use mypkecode.Snprintf.Text.{
  hex_text, signed_text, Piece, ended, hex_piece, signed_piece, text_piece, char_piece, conversion,
  piece, takes_char,
}

put_hex-hex_text : (n i num : ℕ) (o : Out) → put_hex n i num o ≡ put_text n (hex_text i num) o
unfolding put_hex hex_text put_text
put_hex-hex_text n zero num o = refl
put_hex-hex_text n (suc i) num o = put_hex-hex_text n i num (put n _ o)

-- The state of the loop after a piece.
abbrev pub after : ℕ → Piece → Out → Scan
after n p o = record {
  args = p.args;
  format = p.format;
  longarg = p.longarg;
  out = put_text n p.text o;
}

abbrev pub before : List Arg → (format longarg : Bool) → Out → Scan
before args format longarg o = record { args = args; format = format; longarg = longarg; out = o }

-- A step of the code follows a piece of the text.
abbrev pub Follows : ℕ → Out → Option Piece → Option Scan → Type 0
Follows n o q s = (p : Piece) → q ≡ some p → s ≡ some (after n p o)

-- What the code does after a piece, if there is one.
abbrev pub after_of : ℕ → Out → Option Piece → Option Scan
after_of n o q = q >>= λ p. some (after n p o)

-- The output with a text behind it.
abbrev pub map_out : ℕ → Out → Option (List ℕ) → Option Out
map_out n o q = q >>= λ t. some (put_text n t o)

pub none-some {ℓ} : {A : Type ℓ} (a : A) → ¬ (none ≡ some a)
none-some a e = absurd (cc)

convert_x-hex_piece :
    (n : ℕ) (args : List Arg) (longarg : Bool) (prefix : List ℕ) (o : Out)
    → Follows n o
        (hex_piece longarg prefix args)
        (convert_x n (before args true longarg (put_text n prefix o)))
unfolding convert_x
convert_x-hex_piece n [] longarg prefix o p h = absurd (cc)
convert_x-hex_piece n (text t ∷ args) longarg prefix o p h = absurd (cc)
convert_x-hex_piece n (word w ∷ args) longarg prefix o p h =
    let d = if longarg then 16 else 8 in
    let num = number longarg w in
    ap (λ (z : Out). some (converted args z))
      (put_hex-hex_text n d num (put_text n prefix o)
        ∙ sym (put_text-append n prefix (hex_text d num) o))
    ∙ ap (after_of n o) h

put_signed-signed_text :
    (n num : ℕ) (o : Out)
    → num < 2 ^ 64
    → (t : List ℕ) → signed_text num ≡ some t
    → put_signed n num o ≡ some (put_text n t o)
unfolding put_signed signed_text put_text
put_signed-signed_text n num o small = elim (Bool-cases (ltb num (2 ^ 63))) [
  | inl low ↦
      let lt : num < 10 ^ 19 = ground (arith, low) in
      rw low λ t h. put_decimal-decimal n num o lt ∙ ap (map_out n o) h
  | inr high ↦ elim (Bool-cases (num == 2 ^ 63)) [
    | inl least ↦ rw (high, least) λ t h. absurd (cc)
    | inr more ↦
        let lt : 2 ^ 64 - num < 10 ^ 19 = ground (arith, high, more, small) in
        rw (high, more)
          λ t h. put_decimal-decimal n (2 ^ 64 - num) (put n b'-' o) lt ∙ ap (map_out n o) h
  ]
]

number-small : (longarg : Bool) (w : ℕ) → number longarg w < 2 ^ 64
unfolding u64
number-small true w = omega arith
number-small false w = ground arith

convert_d-signed_piece :
    (n : ℕ) (args : List Arg) (longarg : Bool) (o : Out)
    → Follows n o (signed_piece longarg args) (convert_d n (before args true longarg o))
unfolding convert_d
convert_d-signed_piece n [] longarg o p h = absurd (cc)
convert_d-signed_piece n (text t ∷ args) longarg o p h = absurd (cc)
convert_d-signed_piece n (word w ∷ args) longarg o p h =
    elim (Option-cases (signed_text (number longarg w))) [
      | inl e ↦ absurd (none-some p (ap (λ r. r >>= λ t. some (ended args t)) (sym e) ∙ h))
      | inr (t, e) ↦
          ap (λ r. r >>= λ z. some (converted args z))
            (put_signed-signed_text n (number longarg w) o (number-small longarg w) t e)
          ∙ ap (after_of n o) (ap (λ r. r >>= λ t'. some (ended args t')) (sym e) ∙ h)
    ]

convert_s-text_piece :
    (n : ℕ) (args : List Arg) (longarg : Bool) (o : Out)
    → Follows n o (text_piece args) (convert_s n (before args true longarg o))
unfolding convert_s
convert_s-text_piece n [] longarg o p h = absurd (cc)
convert_s-text_piece n (word w ∷ args) longarg o p h = absurd (cc)
convert_s-text_piece n (text t ∷ args) longarg o p h = ap (after_of n o) h

convert_c-char_piece :
    (n : ℕ) (args : List Arg) (longarg : Bool) (o : Out)
    → o.pos + 1 < n
    → Follows n o (char_piece args) (convert_c n (before args true longarg o))
unfolding convert_c put_text
convert_c-char_piece n [] longarg o room p h = absurd (cc)
convert_c-char_piece n (text t ∷ args) longarg o room p h = absurd (cc)
convert_c-char_piece n (word w ∷ args) longarg o room p h =
    let room' : ltb (o.pos + 1) n ≡ true = ground (arith, room) in rw room' (ap (after_of n o) h)

-- `%c` needs room for its byte, or else its argument is not taken.
abbrev pub HasRoom : (n c : ℕ) (format : Bool) → Out → Type 0
HasRoom n c format o = (takes_char c format ≡ false) ⊎ (o.pos + 1 < n)

has_room : (n c : ℕ) (o : Out) → (c == b'c') ≡ true → HasRoom n c true o → o.pos + 1 < n
has_room n c o e room = elim room [ inl f ↦ absurd (cc) | inr lt ↦ lt ]

convert-conversion :
    (n c : ℕ) (args : List Arg) (longarg : Bool) (o : Out)
    → HasRoom n c true o
    → Follows n o (conversion c args longarg) (convert n c (before args true longarg o))
unfolding convert conversion put_text
convert-conversion n c args longarg o room = elim (Bool-cases (c == b'l')) [
  | inl e ↦ rw e λ p h. ap (after_of n o) h
  | inr not_l ↦ elim (Bool-cases (c == b'p')) [
    | inl e ↦ rw (not_l, e) (convert_x-hex_piece n args true (b'0' ∷ b'x' ∷ []) o)
    | inr not_p ↦ elim (Bool-cases (c == b'x')) [
      | inl e ↦ rw (not_l, not_p, e) (convert_x-hex_piece n args longarg [] o)
      | inr not_x ↦ elim (Bool-cases (c == b'd')) [
        | inl e ↦ rw (not_l, not_p, not_x, e) (convert_d-signed_piece n args longarg o)
        | inr not_d ↦ elim (Bool-cases (c == b's')) [
          | inl e ↦ rw (not_l, not_p, not_x, not_d, e) (convert_s-text_piece n args longarg o)
          | inr not_s ↦ elim (Bool-cases (c == b'c')) [
            | inl e ↦
                rw (not_l, not_p, not_x, not_d, not_s, e)
                  (convert_c-char_piece n args longarg o (has_room n c o e room))
            | inr not_c ↦ rw (not_l, not_p, not_x, not_d, not_s, not_c) λ p h. ap (after_of n o) h
          ]
        ]
      ]
    ]
  ]
]

pub scan_byte-piece :
    (n c : ℕ) (args : List Arg) (format longarg : Bool) (o : Out)
    → HasRoom n c format o
    → Follows n o (piece c args format longarg) (scan_byte n c (before args format longarg o))
unfolding scan_byte piece put_text
scan_byte-piece n c args true longarg o room = convert-conversion n c args longarg o room
scan_byte-piece n c args false longarg o room = elim (Bool-cases (c == b'%')) [
  | inl e ↦ rw e λ p h. ap (after_of n o) h
  | inr e ↦ rw e λ p h. ap (after_of n o) h
]
