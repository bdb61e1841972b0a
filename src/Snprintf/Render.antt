-- ===== src/Snprintf/Render.antt =====
-- `vsnprintf` (util/snprintf.c) puts the text of the format into the buffer, as far as it fits.
use mypkecode.Base.{
  ℕ, ◌+◌, ◌-◌, ◌%◌, ◌^◌, ◌<◌, ◌≡◌, ◌⊎◌, refl, ap, ◌∙◌, sym, subst, Bool, true, false, not, ◌&&◌,
  ◌||◌, Option, none, some, List, [], ◌∷◌, ◌++◌, length, length-append, ltb, leb, ◌==◌,
  if◌then◌else◌, arith, Bool-cases, inl, inr, fun_ext,
}
use mypkecode.Base.Partial.{◌>>=◌, bind-some}
use mypkecode.Strings.{Bytes, set_byte}
use mypkecode.Snprintf.{
  Arg, Out, Scan, put_at, put, put_text, number, next_word, next_text, scan, finish, vsnprintf,
}
use mypkecode.Snprintf.Decimal.{put_text-pos, put_text-append}
use mypkecode.Snprintf.Text.{
  signed_text, Piece, ended, signed_piece, conversion, piece, render, ends_format, takes_char,
  has_char, byte_at, text_over, delivered,
}
use mypkecode.Snprintf.Convert.{before, map_out, HasRoom, none-some, scan_byte-piece}

-- Whether the next byte of the format belongs to a conversion.
abbrev next_format : (c : ℕ) (format : Bool) → Bool
next_format c format = if format then not (ends_format c) else c == b'%'

abbrev formats : Option Piece → Bool
formats none = false
formats (some p) = p.format

ended-format :
    {A : Type 0} (o : Option (A × List Arg)) (f : A → List ℕ) (p : Piece)
    → (o >>= λ (a, args). some (ended args (f a))) ≡ some p
    → p.format ≡ false
ended-format none f p h = absurd (none-some p h)
ended-format (some (a, args)) f p h = sym (ap (λ q. formats q) h)

signed_piece-format :
    (args : List Arg) (longarg : Bool) (p : Piece)
    → signed_piece longarg args ≡ some p
    → p.format ≡ false
signed_piece-format args longarg p h =
    let ((w, args'), e, h') = bind-some (next_word args) _ p h in
    let (t, e', h'') = bind-some (signed_text (number longarg w)) _ p h' in sym (ap formats h'')

conversion-format :
    (c : ℕ) (args : List Arg) (longarg : Bool) (p : Piece)
    → conversion c args longarg ≡ some p
    → p.format ≡ not (ends_format c)
unfolding conversion
conversion-format c args longarg p = elim (Bool-cases (c == b'l')) [
  | inl e ↦ let is_l : c ≡ b'l' = ground (arith, e) in rw (e, is_l) λ h. sym (ap formats h)
  | inr not_l ↦ elim (Bool-cases (c == b'p')) [
    | inl e ↦ rw (not_l, e) (ended-format (next_word args) _ p)
    | inr not_p ↦ elim (Bool-cases (c == b'x')) [
      | inl e ↦ rw (not_l, not_p, e) (ended-format (next_word args) _ p)
      | inr not_x ↦ elim (Bool-cases (c == b'd')) [
        | inl e ↦ rw (not_l, not_p, not_x, e) (signed_piece-format args longarg p)
        | inr not_d ↦ elim (Bool-cases (c == b's')) [
          | inl e ↦ rw (not_l, not_p, not_x, not_d, e) (ended-format (next_text args) _ p)
          | inr not_s ↦ elim (Bool-cases (c == b'c')) [
            | inl e ↦ rw (not_l, not_p, not_x, not_d, not_s, e) (ended-format (next_word args) _ p)
            | inr not_c ↦ rw (not_l, not_p, not_x, not_d, not_s, not_c) λ h. sym (ap formats h)
          ]
        ]
      ]
    ]
  ]
]

piece-format :
    (c : ℕ) (args : List Arg) (format longarg : Bool) (p : Piece)
    → piece c args format longarg ≡ some p
    → p.format ≡ next_format c format
unfolding piece
piece-format c args false longarg p h = sym (ap (λ q. formats q) h)
piece-format c args true longarg p h = conversion-format c args longarg p h

||-false : (a b : Bool) → (a || b) ≡ false → (a ≡ false) × (b ≡ false)
||-false true b h = absurd (cc)
||-false false b h = (refl, h)

abbrev lengths : Option Piece → ℕ
lengths none = 0
lengths (some p) = length p.text

char-length :
    (c : ℕ) (args : List Arg) (format longarg : Bool) (p : Piece)
    → takes_char c format ≡ true
    → piece c args format longarg ≡ some p
    → length p.text ≡ 1
unfolding piece conversion
char-length c args false longarg p is_char = absurd (cc)
char-length c args true longarg p is_char =
    let is_c : c ≡ b'c' = ground (arith, is_char) in
    rw is_c λ h. let ((w, args'), e, h') = bind-some (next_word args) _ p h in sym (ap lengths h')

-- The room for the text of a format is room for its first piece and for the rest.
room-rest :
    (n c : ℕ) (fmt : List ℕ) (args : List Arg) (format longarg : Bool) (o : Out) (p : Piece)
    (rest : List ℕ)
    → piece c args format longarg ≡ some p
    → (o.pos + length (p.text ++ rest) < n) ⊎ (has_char (c ∷ fmt) format ≡ false)
    → (((put_text n p.text o).pos + length rest < n) ⊎ (has_char fmt p.format ≡ false))
      × HasRoom n c format o
unfolding has_char
room-rest n c fmt args format longarg o p rest e (inr no_char) =
    let (here, later) =
      ||-false (takes_char c format) (has_char fmt (next_format c format)) no_char in
    (inr (ap (has_char fmt) (piece-format c args format longarg p e) ∙ later), inl here)
room-rest n c fmt args format longarg o p rest e (inl lt) =
    let len = length-append p.text rest in
    (
      inl (omega (arith, lt, len, put_text-pos n p.text o)),
      elim (Bool-cases (takes_char c format)) [
        | inl is_char ↦ inr (omega (arith, lt, len, char-length c args format longarg p is_char e))
        | inr other ↦ inl other
      ],
    )

abbrev texts : Option (List ℕ) → List ℕ
texts none = []
texts (some t) = t

scan-render :
    (n : ℕ) (fmt : List ℕ) (args : List Arg) (format longarg : Bool) (o : Out) (t : List ℕ)
    → render fmt args format longarg ≡ some t
    → (o.pos + length t < n) ⊎ (has_char fmt format ≡ false)
    → (scan n fmt (before args format longarg o) >>= λ s. some s.out) ≡ some (put_text n t o)
unfolding scan render has_char put_text
scan-render n [] args format longarg o t h room = ap (map_out n o) h
scan-render n (c ∷ fmt) args format longarg o t h room =
    let (p, e, h') = bind-some (piece c args format longarg) _ t h in
    let (rest, e', h'') = bind-some (render fmt p.args p.format p.longarg) _ t h' in
    let joined : p.text ++ rest ≡ t = ap (λ q. texts q) h'' in
    let mid = put_text n p.text o in
    let room' =
      subst (λ u. (o.pos + length u < n) ⊎ (has_char (c ∷ fmt) format ≡ false)) (sym joined) room in
    let (more, here) = room-rest n c fmt args format longarg o p rest e room' in
    let step = scan_byte-piece n c args format longarg o here p e in
    ap (λ q. q >>= scan n fmt >>= λ (s : Scan). some s.out) step
    ∙ scan-render n fmt p.args p.format p.longarg mid rest e' more
    ∙ ap some (sym (put_text-append n p.text rest o))
    ∙ ap (λ u. some (put_text n u o)) joined

put_text-text_over :
    (n : ℕ) (t : List ℕ) (o : Out) (i : ℕ) → (put_text n t o).buf i ≡ text_over n t o.pos o.buf i
unfolding put_text text_over byte_at put_at set_byte
put_text-text_over n [] o i = ground arith
put_text-text_over n (x ∷ t) o i =
    let e : i - o.pos - 1 ≡ i - (o.pos + 1) = omega arith in
    ground (arith, put_text-text_over n t (put n x o) i, ap (byte_at t) e)

finish_cases :
    (n pos len i x r : ℕ) (b : Bytes)
    → pos ≡ len
    → b i ≡ (if leb 0 i && ltb i (0 + len) && ltb (i + 1) n then x else r)
    → finish n (record { pos = pos; buf = b }) i ≡ (
        if leb n i
        then r
        else if (i == len) || (i + 1 == n) && ltb i len
        then 0
        else if ltb i len
        then x
        else r)
unfolding set_byte
finish_cases n pos len i x r b e h = elim (Bool-cases (ltb pos n)) [
  | inl short ↦
      let at : finish n (record { pos = pos; buf = b }) i ≡ (if pos == i then 0 else b i) =
        rw short refl in
      at ∙ ground (arith, e, h, short)
  | inr long ↦ elim (Bool-cases (n == 0)) [
    | inl empty ↦
        let at : finish n (record { pos = pos; buf = b }) i ≡ b i = rw (long, empty) refl in
        at ∙ ground (arith, e, h, empty)
    | inr full ↦
        let at : finish n (record { pos = pos; buf = b }) i ≡ (if n - 1 == i then 0 else b i) =
          rw (long, full) refl in
        at ∙ ground (arith, e, h, long, full)
  ]
]

finish-delivered :
    (n : ℕ) (t : List ℕ) (buf : Bytes)
    → finish n (put_text n t (record { pos = 0; buf = buf })) ≡ delivered n t buf
unfolding delivered text_over
finish-delivered n t buf = fun_ext λ i.
    let o : Out = record { pos = 0; buf = buf } in
    let z = put_text n t o in
    finish_cases n z.pos (length t) i (byte_at t (i - 0)) (buf i) z.buf
      (put_text-pos n t o ∙ omega arith) (put_text-text_over n t o i)
    ∙ ap
        (λ (k : ℕ).
          if leb n i
          then buf i
          else if (i == length t) || (i + 1 == n) && ltb i (length t)
          then 0
          else if ltb i (length t)
          then byte_at t k
          else buf i)
        (omega arith)

bind-out :
    {B : Type 0} (q : Option Scan) (f : Out → B)
    → (q >>= λ s. some (f s.out)) ≡ ((q >>= λ s. some s.out) >>= λ o. some (f o))
bind-out none f = refl
bind-out (some s) f = refl

-- Let a format and its arguments have the text `t`, and let `t` be shorter than the buffer or the
-- format have no `%c`. Then `vsnprintf` returns the length of the whole text as an int32, also where
-- the text does not fit, and it leaves in the buffer the first bytes of the text, at most `n - 1`, then
-- a zero, and every other byte as it was; with `n` = 0 it writes nothing.
pub vsnprintf-render :
    (n : ℕ) (fmt : List ℕ) (args : List Arg) (buf : Bytes) (t : List ℕ)
    → render fmt args false false ≡ some t
    → (length t < n) ⊎ (has_char fmt false ≡ false)
    → vsnprintf n fmt args buf ≡ some (length t % 2 ^ 32, delivered n t buf)
unfolding vsnprintf
vsnprintf-render n fmt args buf t h room =
    let o : Out = record { pos = 0; buf = buf } in
    let room' : (0 + length t < n) ⊎ (has_char fmt false ≡ false) = ground (arith, room) in
    let result : Out → ℕ × Bytes = λ z. (z.pos % 2 ^ 32, finish n z) in
    bind-out (scan n fmt (before args false false o)) result
    ∙ ap (λ q. q >>= λ z. some (z.pos % 2 ^ 32, finish n z))
        (scan-render n fmt args false false o t h room')
    ∙ ap (λ (p : ℕ). some (p % 2 ^ 32, finish n (put_text n t o)))
        (put_text-pos n t o ∙ omega arith)
    ∙ ap (λ b. some (length t % 2 ^ 32, b)) (finish-delivered n t buf)
