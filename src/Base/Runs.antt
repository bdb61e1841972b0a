-- ===== src/Base/Runs.antt =====
-- How a kernel function can end, and the state monad over it.
use mathlib.Core.Path.{◌≡◌, refl}
use native.Mathlib.Omega.{arith}

-- `ok` returns to the C caller. `panic` is `do_panic` (spike_interface/spike_utils.c), which shuts
-- the machine down with code -1; `poweroff` is a failed `assert`; `halt` is `shutdown(0)`.
-- `fault` is an access through a NULL pointer. `user` is the `sret` of `return_to_user`
-- (kernel/strap_vector.S): the machine goes on in user mode, and the C caller is never resumed.
-- `hang` is a loop that does not end.
pub data Run (S A : Type 0) : Type 0 where
  ok : A → S → Run S A
  panic : Run S A
  poweroff : Run S A
  halt : Run S A
  fault : Run S A
  user : S → Run S A
  hang : Run S A

abbrev pub Cmd : Type 0 → Type 0 → Type 0
Cmd S A = S → Run S A

module _ {S A : Type 0} where
  abbrev pub pure : A → Cmd S A
  pure = ok

  abbrev pub stop : Cmd S A
  stop s = panic

module _ {S A B : Type 0} where
  abbrev pub and_then : Run S A → (A → Cmd S B) → Run S B
  and_then (ok a s) k = k a s
  and_then panic k = panic
  and_then poweroff k = poweroff
  and_then halt k = halt
  and_then fault k = fault
  and_then (user s) k = user s
  and_then hang k = hang

  infixl 5 ◌>>=◌ ◌>>◌
  abbrev pub ◌>>=◌ : Cmd S A → (A → Cmd S B) → Cmd S B
  m >>= k = λ s. and_then (m s) k

  abbrev pub ◌>>◌ : Cmd S A → Cmd S B → Cmd S B
  m >> n = m >>= λ _. n

-- What follows a command that leaves for user mode is never run.
pub and_then-user :
    {S A B C : Type 0} (r : Run S A) (n : Cmd S B) (m : Cmd S C) (s : S)
    → and_then r (λ _. n) ≡ user s
    → and_then r (λ _. n >> m) ≡ user s
and_then-user (ok a t) n m s h = rw h
and_then-user panic n m s h = ground arith
and_then-user poweroff n m s h = ground arith
and_then-user halt n m s h = ground arith
and_then-user fault n m s h = ground arith
and_then-user (user t) n m s h = ground arith
and_then-user hang n m s h = ground arith

pub and_then-and_then :
    {S A B C : Type 0} (r : Run S A) (f : A → Cmd S B) (g : B → Cmd S C)
    → and_then (and_then r f) g ≡ and_then r (λ a s. and_then (f a s) g)
and_then-and_then (ok a s) f g = refl
and_then-and_then panic f g = refl
and_then-and_then poweroff f g = refl
and_then-and_then halt f g = refl
and_then-and_then fault f g = refl
and_then-and_then (user s) f g = refl
and_then-and_then hang f g = refl
