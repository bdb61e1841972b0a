-- ===== src/User/Print.antt =====
-- `printu` (user/user_lib.c) hands the text of its format over to the kernel.
use mypkecode.Base.{
  ℕ, ◌+◌, ◌-◌, ◌%◌, ◌^◌, ◌<◌, ◌≡◌, ◌⊎◌, inl, inr, Bool-cases, refl, ap, ◌∙◌, false, Option, none,
  some, List, length, ltb, ◌==◌, if◌then◌else◌, arith, fun_ext,
}
use mypkecode.Base.Partial.{◌>>=◌}
use mypkecode.Strings.{Bytes}
use mypkecode.Snprintf.{Arg}
use mypkecode.Snprintf.Text.{render, has_char, byte_at, delivered}
use mypkecode.Snprintf.Render.{vsnprintf-render}
use mypkecode.Proc.Fork.{as_int}
use mypkecode.Syscall.{sys_base}
use mypkecode.User.{User, Call, Ecall, do_user_call, int_call, with_array, shown, printu}

-- The first bytes of a text at `out`, at most 255, and a zero behind them.
abbrev pub with_text : Bytes → (out : ℕ) → List ℕ → Bytes
with_text mem out t a =
    let n = if ltb (length t) 256 then length t else 255 in
    if ltb a out
    then mem a
    else if ltb a (out + n)
    then byte_at t (a - out)
    else if a == out + n
    then 0
    else mem a

-- The registers of the call.
abbrev pub print_call : (out n : ℕ) → Call
print_call out n = record { a0 = 64; a1 = out; a2 = n; a3 = 0; a4 = 0; a5 = 0; a6 = 0; a7 = 0 }

shown-length : (len : ℕ) → len < 2 ^ 32 → shown (len % 2 ^ 32) ≡ (if ltb len 256 then len else 256)
shown-length len lt = ground arith

as_int-twice : (w : ℕ) → as_int (as_int w) ≡ as_int w
as_int-twice w = ground arith

with_array-delivered :
    (mem : Bytes) (out : ℕ) (t : List ℕ)
    → with_array mem out 256 (delivered 256 t (λ i. mem (out + i))) ≡ with_text mem out t
unfolding with_array delivered
with_array-delivered mem out t = fun_ext λ a. elim (Bool-cases (ltb a out)) [
  | inl before ↦ rw before refl
  | inr behind ↦
      let at : out + (a - out) ≡ a = ground (arith, behind) in ground (arith, behind, ap mem at)
]

-- The answer of a call as an `int`.
abbrev pub lowest_word : {S : Type 0} → Option (ℕ × User S) → Option (ℕ × User S)
lowest_word none = none
lowest_word (some (a0, u)) = some (as_int a0, u)

int_call-lowest :
    {S : Type 0} (ecall : Ecall S) (out n : ℕ) (u : User S) (q : Option (ℕ × User S))
    → ecall (print_call out n) u ≡ q
    → int_call ecall sys_base out n u ≡ lowest_word q
unfolding do_user_call
int_call-lowest ecall out n u none h = rw h refl
int_call-lowest ecall out n u (some (a0, u')) h =
    rw h (ap (λ (w : ℕ). some (w, u')) (as_int-twice a0))

-- Let the format and its arguments have a text of fewer than 2^32 bytes, and let the text be shorter
-- than 256 bytes or the format have no `%c`. Then `printu` makes one `ecall`: with the number of
-- `SYS_user_print`, the address of the buffer and the smaller of the length and 256 in a0, a1 and a2,
-- and zero in the other registers, on memory that holds the first bytes of the text in the buffer, at
-- most 255, with a zero behind them, and is as before elsewhere. It returns the lowest 32 bits of the
-- answer as an `int`, and the state that the call leaves.
pub printu-call :
    {S : Type 0} (ecall : Ecall S) (out : ℕ) (fmt : List ℕ) (args : List Arg) (t : List ℕ)
    (u : User S)
    → render fmt args false false ≡ some t
    → length t < 2 ^ 32
    → (length t < 256) ⊎ (has_char fmt false ≡ false)
    → printu ecall out fmt args u
      ≡ lowest_word (
          ecall
            (print_call out (if ltb (length t) 256 then length t else 256))
            (record u { mem = with_text u.mem out t }))
unfolding printu
printu-call {S} ecall out fmt args t u h lt room =
    let call : (res : ℕ) (buf : Bytes) → Option (ℕ × User S) = λ res buf.
      int_call ecall sys_base out (shown res) (record u { mem = with_array u.mem out 256 buf }) in
    ap (λ q. q >>= λ (res, buf). call res buf)
      (vsnprintf-render 256 fmt args (λ i. u.mem (out + i)) t h room)
    ∙ ap
        (λ n.
          int_call ecall sys_base out n
            (record u { mem = with_array u.mem out 256 (delivered 256 t (λ i. u.mem (out + i))) }))
        (shown-length (length t) lt)
    ∙ ap
        (λ m.
          int_call ecall sys_base out (if ltb (length t) 256 then length t else 256)
            (record u { mem = m }))
        (with_array-delivered u.mem out t)
    ∙ int_call-lowest ecall out (if ltb (length t) 256 then length t else 256)
        (record u { mem = with_text u.mem out t }) _ refl
