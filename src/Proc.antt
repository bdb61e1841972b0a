-- ===== src/Proc.antt =====
-- kernel/process.c: the process pool, and `alloc_process`. A `mapped_region` has
-- 16 bytes: `va`, then `npages` and `seg_type` as the two halves of a word.
pub mod Fork
pub mod Stages
pub mod Mappings
pub mod Created
pub mod Alloc
pub mod Wait
use mypkecode.Base.{
  ℕ, zero, suc, ◌+◌, ◌-◌, ◌*◌, ◌/◌, ◌%◌, ◌^◌, Bool, true, false, ◌&&◌, Option, none, some, bit_or,
  ltb, ◌==◌, if◌then◌else◌,
}
use mypkecode.Base.{Run, ok, hang, pure, stop, ◌>>=◌, ◌>>◌}
use mypkecode.Base.Words.{u64}
use mypkecode.Phys.{pgsize, load, store, memset_zero, memcpy}
use mypkecode.Pmm.{rounddown, alloc_page}
use mypkecode.Vmm.{prot_read, prot_write, prot_exec, prot_to_type, lookup_pa, user_vm_map}
use mypkecode.Kernel.{
  nproc, Status, ProcPtr, Process, Kernel, KernelCmd, lift, gets, modify, update, set_proc,
}
use mypkecode.Kernel.Status.{free, ready, running, blocked, zombie}
use mypkecode.Trapframe.{off_sp, off_a0, trapframe_size}
use mypkecode.Sched.{insert_to_ready_queue, schedule}

-- `USER_STACK_TOP` and `USER_FREE_ADDRESS_START` of kernel/memlayout.h
abbrev pub user_stack_top : ℕ
user_stack_top = 0x7fff_f000

abbrev pub user_free_address_start : ℕ
user_free_address_start = pgsize * 1024

-- `enum segment_type`
abbrev pub code_segment : ℕ
code_segment = 0

abbrev pub data_segment : ℕ
data_segment = 1

abbrev pub stack_segment : ℕ
stack_segment = 2

abbrev pub context_segment : ℕ
context_segment = 3

abbrev pub system_segment : ℕ
system_segment = 4

-- The fields of `mapped_info[i]`, where the table is at `info`.
abbrev pub get_va : (info i : ℕ) → KernelCmd ℕ
get_va info i = lift (load (info + 16 * i))

abbrev pub get_npages : (info i : ℕ) → KernelCmd ℕ
get_npages info i = do w ← lift (load (info + 16 * i + 8)); pure (w % 2 ^ 32)

abbrev pub get_seg_type : (info i : ℕ) → KernelCmd ℕ
get_seg_type info i = do w ← lift (load (info + 16 * i + 8)); pure (w / 2 ^ 32)

-- The three assignments to the fields of `mapped_info[i]`.
abbrev pub set_region : (info i va npages seg_type : ℕ) → KernelCmd (Unit {0})
set_region info i va npages seg_type = do
  lift (store (info + 16 * i) va)
  lift (store (info + 16 * i + 8) (npages + seg_type * 2 ^ 32))

-- A process of zeros, which `memset` leaves; FREE is 0.
abbrev pub blank : ℕ → Process
blank pid = record {
  kstack = 0;
  pagetable = 0;
  trapframe = 0;
  mapped_info = 0;
  total_mapped_region = 0;
  pid = pid;
  status = free;
  parent = none;
  queue_next = none;
  tick_count = 0;
}

-- The loop over the pool, for the processes below `n`.
unfoldable pub init_procs : ℕ → KernelCmd (Unit {0})
init_procs zero = pure tt
init_procs (suc n) = do init_procs n; set_proc n (λ p. record p { status = free; pid = n })

unfoldable pub init_proc_pool : KernelCmd (Unit {0})
init_proc_pool = do
  modify (λ k. record k { procs = λ i. if ltb i nproc then blank 0 else k.procs i })
  init_procs nproc

abbrev pub is_free : Status → Bool
is_free free = true
is_free _ = false

-- The first FREE process at `i` or behind it, with `n` processes left to look at.
unfoldable pub first_free : (n i : ℕ) → (ℕ → Process) → Option ℕ
first_free zero i procs = none
first_free (suc n) i procs =
    let rest = first_free n (suc i) procs in if is_free (procs i).status then some i else rest

-- The body of `alloc_process` once process `i` is found. The status stays FREE.
unfoldable pub init_vm_space : (i : ℕ) → KernelCmd ℕ
init_vm_space i = do
  tf ← lift alloc_page
  set_proc i (λ p. record p { trapframe = tf })
  lift (memset_zero tf trapframe_size)
  pagetable ← lift alloc_page
  set_proc i (λ p. record p { pagetable = pagetable })
  lift (memset_zero pagetable pgsize)
  stack ← lift alloc_page
  set_proc i (λ p. record p { kstack = u64 (stack + pgsize) })
  user_stack ← lift alloc_page
  lift (store (tf + off_sp) user_stack_top)
  info ← lift alloc_page
  set_proc i (λ p. record p { mapped_info = info })
  lift (memset_zero info pgsize)
  lift (
      user_vm_map pagetable (user_stack_top - pgsize) pgsize user_stack
        (prot_to_type (bit_or prot_write prot_read) true))
  set_region info 0 (user_stack_top - pgsize) 1 stack_segment
  lift (user_vm_map pagetable tf pgsize tf (prot_to_type (bit_or prot_write prot_read) false))
  set_region info 1 tf 1 context_segment
  trap ← gets (λ k. k.trap_sec_start)
  lift (user_vm_map pagetable trap pgsize trap (prot_to_type (bit_or prot_read prot_exec) false))
  set_region info 2 trap 1 system_segment
  set_proc i (λ p. record p { total_mapped_region = 3 })
  pure i

unfoldable pub alloc_process : KernelCmd ℕ
alloc_process = do
  procs ← gets (λ k. k.procs)
  elim (first_free nproc 0 procs) [ none ↦ stop | some i ↦ init_vm_space i ]
