-- ===== src/Tests/Traps.antt =====
-- Traps of `wait` into the handler (kernel/strap.c), of a process with a child and of one without.
use mypkecode.Base.{ℕ, ◌+◌, ◌*◌, ◌≡◌, refl, some, [], ◌∷◌, arith, user, ◌==◌, if◌then◌else◌}
use mypkecode.Phys.{pgsize, Memory, write}
use mypkecode.Kernel.{Kernel}
use mypkecode.Trapframe.{off_a0}
use mypkecode.Sched.Schedule.{resumed}
use mypkecode.Sched.Rotate.{Rotated}
use mypkecode.Proc.Wait.{minus_one, wait_flag, wait}
use mypkecode.Syscall.{do_syscall, sys_user_wait}
use mypkecode.Syscall.Turns.{to_ready}
use mypkecode.Strap.{smode_trap_handler}
use mypkecode.Strap.Calls.{saved, smode_trap_handler-return, smode_trap_handler-wait}
use mypkecode.Tests.{root, memory, machine}
use mypkecode.Tests.Turns.{kernel, queue}

-- `a0` and `a1` of process `i` ask for `wait(1)`.
abbrev asking : (i : ℕ) → Memory
asking i a =
    if a == root + (16 + i) * pgsize + 72
    then 70
    else if a == root + (16 + i) * pgsize + 80
    then 1
    else memory a

abbrev waiting : (i : ℕ) → Kernel
waiting i = record (kernel (some 1) i) { phys = record machine { mem = asking i } }

smode_trap_handler-wait_example :
    (k' : Kernel) × (smode_trap_handler (waiting 0) ≡ user k')
    × Rotated (saved (waiting 0) (root + 16 * pgsize)) k' 0 to_ready 1 (2 ∷ 0 ∷ [])
    × (k'.phys.mem (root + 16 * pgsize + off_a0) ≡ 70)
unfolding wait_flag
smode_trap_handler-wait_example =
    smode_trap_handler-wait (waiting 0) 0 1 (1 ∷ 2 ∷ []) 1 (2 ∷ 0 ∷ []) refl refl refl refl
      (omega arith) refl (omega arith) refl refl
      (record { linked = queue.linked; distinct = queue.distinct; in_pool = queue.in_pool }) refl
      (omega arith) refl

-- Process 3 has no child, so it gets -1.
smode_trap_handler-return_example :
    smode_trap_handler (waiting 3)
    ≡ user (
        resumed
          (let k = saved (waiting 3) (root + 19 * pgsize) in
            record k {
              phys = record k.phys {
                mem = write k.phys.mem (root + 19 * pgsize + off_a0) minus_one;
              };
            })
          3)
unfolding do_syscall sys_user_wait wait wait_flag
smode_trap_handler-return_example =
    smode_trap_handler-return (waiting 3) (saved (waiting 3) (root + 19 * pgsize)) 3 minus_one refl
      refl refl (omega arith) refl refl refl
