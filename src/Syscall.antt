-- ===== src/Syscall.antt =====
-- kernel/syscall.c: the system calls and their dispatch.
pub mod Turns
pub mod Heap
use mypkecode.Base.{ℕ, ◌+◌, Bool, true, false, Option, none, some, bit_or, ltb, ◌==◌, if◌then◌else◌}
use mypkecode.Base.{Run, ok, panic, poweroff, fault, pure, stop, ◌>>=◌, ◌>>◌}
use mypkecode.Base.Words.{u64}
use mypkecode.Phys.{pgsize}
use mypkecode.Pmm.{alloc_page}
use mypkecode.Vmm.{prot_read, prot_write, prot_to_type, user_va_to_pa, user_vm_map, user_vm_unmap}
use mypkecode.Kernel.{ProcPtr, Process, Kernel, KernelCmd, lift, gets, modify, set_proc}
use mypkecode.Kernel.Status.{ready}
use mypkecode.Sched.{free_process, insert_to_ready_queue, schedule}
use mypkecode.Proc.Fork.{as_int, do_fork}
use mypkecode.Proc.Wait.{deref, wait}

-- The numbers of kernel/syscall.h.
abbrev pub sys_base : ℕ
sys_base = 64

-- `sprint(s)` reads the characters at `s`; what it writes to the console is not part of the state.
unfoldable pub sprint : (s : ℕ) → KernelCmd (Unit {0})
sprint s k = if ltb s pgsize then fault else ok tt k

unfoldable pub sys_user_print : (buf n : ℕ) → KernelCmd ℕ
sys_user_print buf n k = elim k.current [
  | none ↦ poweroff
  | some c ↦ (do pa ← lift (user_va_to_pa (k.procs c).pagetable buf); sprint pa; pure 0) k
]

unfoldable pub sys_user_exit : (code : ℕ) → KernelCmd ℕ
sys_user_exit code = do
  current ← gets (λ k. k.current)
  c ← deref current
  free_process c
  schedule
  pure 0

unfoldable pub sys_user_allocate_page : KernelCmd ℕ
sys_user_allocate_page = do
  pa ← lift alloc_page
  va ← gets (λ k. k.g_ufree_page)
  modify (λ k. record k { g_ufree_page = u64 (k.g_ufree_page + pgsize) })
  current ← gets (λ k. k.current)
  c ← deref current
  p ← gets (λ k. k.procs c)
  lift (user_vm_map p.pagetable va pgsize pa (prot_to_type (bit_or prot_write prot_read) true))
  pure va

unfoldable pub sys_user_free_page : (va : ℕ) → KernelCmd ℕ
sys_user_free_page va = do
  current ← gets (λ k. k.current)
  c ← deref current
  p ← gets (λ k. k.procs c)
  lift (user_vm_unmap p.pagetable va pgsize true)
  pure 0

unfoldable pub sys_user_fork : KernelCmd ℕ
sys_user_fork = do current ← gets (λ k. k.current); c ← deref current; do_fork c

unfoldable pub sys_user_wait : (pid : ℕ) → KernelCmd ℕ
sys_user_wait pid = wait (as_int pid)

unfoldable pub sys_user_yield : KernelCmd ℕ
sys_user_yield = do
  current ← gets (λ k. k.current)
  c ← deref current
  set_proc c (λ p. record p { status = ready })
  insert_to_ready_queue c
  schedule
  pure 0

-- The arguments behind `a2` are not read by any call.
unfoldable pub do_syscall : (a0 a1 a2 : ℕ) → KernelCmd ℕ
do_syscall a0 a1 a2 k =
    if a0 == sys_base
    then sys_user_print a1 a2 k
    else if a0 == sys_base + 1
    then sys_user_exit a1 k
    else if a0 == sys_base + 2
    then sys_user_allocate_page k
    else if a0 == sys_base + 3
    then sys_user_free_page a1 k
    else if a0 == sys_base + 4
    then sys_user_fork k
    else if a0 == sys_base + 5
    then sys_user_yield k
    else if a0 == sys_base + 6
    then sys_user_wait a1 k
    else panic
