-- ===== src/Sched.antt =====
-- kernel/sched.c, with `switch_to` and `free_process` of kernel/process.c.
pub mod Queue
pub mod Insert
pub mod Schedule
pub mod Rotate
use mypkecode.Base.{
  ℕ, zero, suc, ◌+◌, ◌-◌, ◌*◌, ◌/◌, ◌%◌, ◌^◌, Bool, true, false, not, ◌&&◌, ◌||◌, Option, none,
  some, bit_or, ◌==◌, if◌then◌else◌,
}
use mypkecode.Base.{Run, ok, panic, poweroff, halt, hang, user, pure, ◌>>=◌, ◌>>◌}
use mypkecode.Phys.{load, store}
use mypkecode.Kernel.{
  nproc, Status, ProcPtr, Process, Kernel, KernelCmd, lift, gets, modify, update, set_proc,
}
use mypkecode.Kernel.Status.{free, ready, running, blocked, zombie}
use mypkecode.Trapframe.{
  off_kernel_sp, off_kernel_trap, off_epc, off_kernel_satp, make_satp, clear_bit, sstatus_spp,
  sstatus_spie, return_to_user,
}

-- `TIME_SLICE_LEN` of kernel/sched.h
abbrev pub time_slice_len : ℕ
time_slice_len = 2

abbrev pub is_ready : Status → Bool
is_ready ready = true
is_ready _ = false

abbrev pub is_free_or_zombie : Status → Bool
is_free_or_zombie free = true
is_free_or_zombie zombie = true
is_free_or_zombie _ = false

-- The loop over the ready queue: the last element, or `none` where `proc` is met on the way. The
-- test before the loop's next round and the one behind the loop are the same.
unfoldable pub find_tail : (fuel proc q : ℕ) → KernelCmd (Option ℕ)
find_tail zero proc q k = hang
find_tail (suc fuel) proc q k =
    if q == proc
    then ok none k
    else elim (k.procs q).queue_next [ none ↦ ok (some q) k | some n ↦ find_tail fuel proc n k ]

-- A queue of different processes has at most `nproc` of them.
unfoldable pub insert_to_ready_queue : (proc : ℕ) → KernelCmd (Unit {0})
insert_to_ready_queue proc k = elim k.ready_queue_head [
  | none ↦
      (do
        set_proc proc (λ p. record p { status = ready; queue_next = none })
        modify (λ k'. record k' { ready_queue_head = some proc }))
        k
  | some head ↦
      (do
        last ← find_tail (nproc + 1) proc head
        elim last [
          | none ↦ pure tt
          | some p ↦ do
            set_proc p (λ q. record q { queue_next = some proc })
            set_proc proc (λ q. record q { status = ready; queue_next = none })
        ])
        k
]

-- The assertion that `proc` is not NULL is one about the type of the argument here.
unfoldable pub switch_to : (proc : ℕ) → KernelCmd (Unit {0})
switch_to proc = do
  modify (λ k. record k { current = some proc; stvec = k.smode_trap_vector })
  p ← gets (λ k. k.procs proc)
  lift (store (p.trapframe + off_kernel_sp) p.kstack)
  satp ← gets (λ k. k.satp)
  lift (store (p.trapframe + off_kernel_satp) satp)
  handler ← gets (λ k. k.smode_trap_handler)
  lift (store (p.trapframe + off_kernel_trap) handler)
  modify (λ k. record k { sstatus = bit_or (clear_bit k.sstatus sstatus_spp) (2 ^ sstatus_spie) })
  epc ← lift (load (p.trapframe + off_epc))
  modify (λ k. record k { sepc = epc })
  return_to_user p.trapframe (make_satp p.pagetable)

-- Whether the first `n` processes are all in the state FREE or ZOMBIE.
unfoldable pub should_shutdown : ℕ → (ℕ → Process) → Bool
should_shutdown zero procs = true
should_shutdown (suc n) procs = should_shutdown n procs && is_free_or_zombie (procs n).status

-- `current->status == RUNNING;` is an expression without effect, so it has no counterpart here.
unfoldable pub schedule : KernelCmd (Unit {0})
schedule k = elim k.ready_queue_head [
  | none ↦ if should_shutdown nproc k.procs then halt else panic
  | some head ↦
      if is_ready (k.procs head).status
      then switch_to head
          (record k { current = some head; ready_queue_head = (k.procs head).queue_next })
      else poweroff
]

-- `free_process` returns 0.
unfoldable pub free_process : (proc : ℕ) → KernelCmd ℕ
free_process proc = do set_proc proc (λ p. record p { status = zombie }); pure 0
