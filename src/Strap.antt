-- ===== src/Strap.antt =====
-- kernel/strap.c: the handler of the traps that user mode takes into the kernel.
pub mod Slice
pub mod Calls
pub mod Forks
use mypkecode.Base.{
  ℕ, ◌+◌, ◌*◌, ◌/◌, ◌%◌, ◌^◌, Bool, true, false, Option, none, some, bit_or, ltb, ◌==◌,
  if◌then◌else◌,
}
use mypkecode.Base.{Run, ok, panic, poweroff, pure, stop, ◌>>=◌, ◌>>◌}
use mypkecode.Base.Words.{u64, has_bit}
use mypkecode.Phys.{load, store}
use mypkecode.Pmm.{alloc_page}
use mypkecode.Vmm.{prot_read, prot_write, prot_to_type, map_pages}
use mypkecode.Kernel.{ProcPtr, Process, Kernel, KernelCmd, lift, gets, modify, set_proc}
use mypkecode.Kernel.Status.{ready}
use mypkecode.Trapframe.{off_a0, off_epc, sstatus_spp}
use mypkecode.Sched.{time_slice_len, insert_to_ready_queue, switch_to, schedule}
use mypkecode.Proc.Wait.{deref}
use mypkecode.Syscall.{do_syscall}

-- The causes of kernel/riscv.h that the handler tells apart.
abbrev pub cause_user_ecall : ℕ
cause_user_ecall = 8

abbrev pub cause_load_page_fault : ℕ
cause_load_page_fault = 13

abbrev pub cause_store_page_fault : ℕ
cause_store_page_fault = 15

abbrev pub cause_mtimer_s_trap : ℕ
cause_mtimer_s_trap = 2 ^ 63 + 1

unfoldable pub handle_syscall : (tf : ℕ) → KernelCmd (Unit {0})
handle_syscall tf = do
  epc ← lift (load (tf + off_epc))
  lift (store (tf + off_epc) (u64 (epc + 4)))
  a0 ← lift (load (tf + off_a0))
  a1 ← lift (load (tf + off_a0 + 8))
  a2 ← lift (load (tf + off_a0 + 16))
  result ← do_syscall a0 a1 a2
  lift (store (tf + off_a0) result)

unfoldable pub handle_mtimer_trap : KernelCmd (Unit {0})
handle_mtimer_trap = modify λ k. record k { g_ticks = u64 (k.g_ticks + 1); sip = 0 }

-- What `map_pages` returns is not looked at.
unfoldable pub handle_user_page_fault : (mcause sepc stval : ℕ) → KernelCmd (Unit {0})
handle_user_page_fault mcause sepc stval = do
  current ← gets (λ k. k.current)
  if mcause == cause_store_page_fault
      then (do
        c ← deref current
        p ← gets (λ k. k.procs c)
        pa ← lift alloc_page
        lift (map_pages p.pagetable stval 1 pa (prot_to_type (bit_or prot_write prot_read) true))
        pure tt)
      else pure tt

-- The guard of `rrsched` is on the counter that is already one higher.
unfoldable pub rrsched : KernelCmd (Unit {0})
rrsched = do
  current ← gets (λ k. k.current)
  c ← deref current
  set_proc c (λ p. record p { tick_count = p.tick_count + 1 })
  p ← gets (λ k. k.procs c)
  if ltb time_slice_len p.tick_count
      then (do
        set_proc c (λ p. record p { tick_count = 0; status = ready })
        insert_to_ready_queue c
        schedule)
      else pure tt

unfoldable pub handle_cause : (cause tf : ℕ) → KernelCmd (Unit {0})
handle_cause cause tf k =
    if cause == cause_user_ecall
    then handle_syscall tf k
    else if cause == cause_mtimer_s_trap
    then (handle_mtimer_trap >> rrsched) k
    else if (cause == cause_store_page_fault)
    then handle_user_page_fault cause k.sepc k.stval k
    else if (cause == cause_load_page_fault)
    then handle_user_page_fault cause k.sepc k.stval k
    else panic

unfoldable pub smode_trap_handler : KernelCmd (Unit {0})
smode_trap_handler k = if has_bit k.sstatus sstatus_spp then panic else elim k.current [
  | none ↦ poweroff
  | some c ↦
      (do
        let tf = (k.procs c).trapframe
        lift (store (tf + off_epc) k.sepc)
        handle_cause k.scause tf
        current ← gets (λ k'. k'.current)
        c' ← deref current
        switch_to c')
        k
]
