-- ===== src/User.antt =====
-- user/user_lib.c: the library of the applications. The instruction `ecall`, which the kernel answers, is
-- a parameter: from the argument registers and the state to the word in a0 behind it and the state, and
-- `none` where the application does not go on. An `int` is a word with the sign extended.
pub mod Print
use mypkecode.Base.{ℕ, ◌+◌, ◌-◌, Option, some, List, ltb, ◌==◌, if◌then◌else◌}
use mypkecode.Base.Partial.{◌>>=◌}
use mypkecode.Strings.{Bytes}
use mypkecode.Snprintf.{Arg, vsnprintf}
use mypkecode.Proc.Fork.{as_int}
use mypkecode.Syscall.{sys_base}

-- The memory of the application, and what else a call reads and changes.
pub record User (S : Type 0) : Type 0 where
  pub mem : Bytes
  pub kernel : S

-- The argument registers.
pub record Call : Type 0 where
  pub a0 : ℕ
  pub a1 : ℕ
  pub a2 : ℕ
  pub a3 : ℕ
  pub a4 : ℕ
  pub a5 : ℕ
  pub a6 : ℕ
  pub a7 : ℕ

abbrev pub UserCmd : Type 0 → Type 0
UserCmd S = User S → Option (ℕ × User S)

abbrev pub Ecall : Type 0 → Type 0
Ecall S = Call → UserCmd S

-- The lowest 32 bits of a0 behind the instruction are an `int`, and the value is that as a `uint64`.
unfoldable pub do_user_call :
    {S : Type 0} (ecall : Ecall S) (sysnum a1 a2 a3 a4 a5 a6 a7 : ℕ) → UserCmd S
do_user_call ecall sysnum a1 a2 a3 a4 a5 a6 a7 u = do
  (a0, u') ←
      ecall (record { a0 = sysnum; a1 = a1; a2 = a2; a3 = a3; a4 = a4; a5 = a5; a6 = a6; a7 = a7 })
        u
  some (as_int a0, u')

-- The value of a call as an `int`.
abbrev pub int_call : {S : Type 0} (ecall : Ecall S) (sysnum a1 a2 : ℕ) → UserCmd S
int_call ecall sysnum a1 a2 u = do
  (ret, u') ← do_user_call ecall sysnum a1 a2 0 0 0 0 0 u
  some (as_int ret, u')

-- Memory with the bytes of an array of `size` bytes at `out`.
unfoldable pub with_array : Bytes → (out size : ℕ) → Bytes → Bytes
with_array mem out size buf a =
    if ltb a out then mem a else if ltb a (out + size) then buf (a - out) else mem a

-- `res < sizeof(out) ? res : sizeof(out)`: `res` is compared as a word.
abbrev pub shown : (res : ℕ) → ℕ
shown res = if ltb (as_int res) 256 then as_int res else 256

-- `out` is the address of the buffer on the stack, with the bytes that stand there before.
unfoldable pub printu :
    {S : Type 0} (ecall : Ecall S) (out : ℕ) (s : List ℕ) (args : List Arg) → UserCmd S
printu ecall out s args u = do
  (res, buf) ← vsnprintf 256 s args (λ i. u.mem (out + i))
  int_call ecall sys_base out (shown res) (record u { mem = with_array u.mem out 256 buf })

unfoldable exit : {S : Type 0} (ecall : Ecall S) (code : ℕ) → UserCmd S
exit ecall code = int_call ecall (sys_base + 1) (as_int code) 0

unfoldable naive_malloc : {S : Type 0} (ecall : Ecall S) → UserCmd S
naive_malloc ecall = do_user_call ecall (sys_base + 2) 0 0 0 0 0 0 0

-- The value is dropped, as that of `yield` is.
unfoldable naive_free : {S : Type 0} (ecall : Ecall S) (va : ℕ) → UserCmd S
naive_free ecall va = do_user_call ecall (sys_base + 3) va 0 0 0 0 0 0

unfoldable fork : {S : Type 0} (ecall : Ecall S) → UserCmd S
fork ecall = int_call ecall (sys_base + 4) 0 0

unfoldable wait : {S : Type 0} (ecall : Ecall S) (pid : ℕ) → UserCmd S
wait ecall pid = int_call ecall (sys_base + 6) (as_int pid) 0

unfoldable yield : {S : Type 0} (ecall : Ecall S) → UserCmd S
yield ecall = do_user_call ecall (sys_base + 5) 0 0 0 0 0 0 0
