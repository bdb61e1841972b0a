-- ===== src/Proc/Fork.antt =====
-- `do_fork` of kernel/process.c.
pub mod State
pub mod Pages
pub mod Data
pub mod Segment
pub mod Code
pub mod Regions
pub mod Cases
pub mod Loop
pub mod Parent
pub mod Start
pub mod Child
pub mod Finish
pub mod Outcome
pub mod Whole
use mypkecode.Base.{
  ℕ, zero, suc, ◌+◌, ◌-◌, ◌*◌, ◌%◌, ◌^◌, true, some, bit_or, ltb, ◌==◌, if◌then◌else◌,
}
use mypkecode.Base.{pure, ◌>>=◌, ◌>>◌}
use mypkecode.Base.Words.{u64}
use mypkecode.Phys.{pgsize, store, memcpy}
use mypkecode.Pmm.{rounddown, alloc_page}
use mypkecode.Vmm.{prot_read, prot_write, prot_exec, prot_to_type, lookup_pa, user_vm_map}
use mypkecode.Kernel.{KernelCmd, lift, gets, set_proc}
use mypkecode.Kernel.Status.{ready}
use mypkecode.Trapframe.{off_a0, trapframe_size}
use mypkecode.Sched.{insert_to_ready_queue}
use mypkecode.Proc.{
  code_segment, data_segment, stack_segment, context_segment, get_va, get_npages, get_seg_type,
  set_region, alloc_process,
}

-- The conversion of a word to `int`, read as a word again.
abbrev pub as_int : ℕ → ℕ
as_int w = if ltb (w % 2 ^ 32) (2 ^ 31) then w % 2 ^ 32 else w % 2 ^ 32 + (2 ^ 64 - 2 ^ 32)

-- The loop over the pages of a data segment, from page `j` on with `n` pages left.
unfoldable pub copy_data : (n j parent child i : ℕ) → KernelCmd (Unit {0})
copy_data zero j parent child i = pure tt
copy_data (suc n) j parent child i = do
  p ← gets (λ k. k.procs parent)
  c ← gets (λ k. k.procs child)
  pa ← lift alloc_page
  start ← get_va p.mapped_info i
  let va = as_int (u64 (start + pgsize * j))
  from ← lift (lookup_pa p.pagetable va)
  lift (memcpy pa from pgsize)
  lift (user_vm_map c.pagetable va pgsize pa (prot_to_type (bit_or prot_write prot_read) true))
  copy_data n (suc j) parent child i

-- The cases of the `switch` of `do_fork`, for region `i` of the parent.
unfoldable pub fork_context : (parent child : ℕ) → KernelCmd (Unit {0})
fork_context parent child = do
  p ← gets (λ k. k.procs parent)
  c ← gets (λ k. k.procs child)
  lift (memcpy c.trapframe p.trapframe trapframe_size)

unfoldable pub fork_stack : (parent child i : ℕ) → KernelCmd (Unit {0})
fork_stack parent child i = do
  p ← gets (λ k. k.procs parent)
  c ← gets (λ k. k.procs child)
  to_va ← get_va c.mapped_info 0
  to ← lift (lookup_pa c.pagetable to_va)
  from_va ← get_va p.mapped_info i
  from ← lift (lookup_pa p.pagetable from_va)
  lift (memcpy to from pgsize)

unfoldable pub fork_data : (parent child i : ℕ) → KernelCmd (Unit {0})
fork_data parent child i = do
  p ← gets (λ k. k.procs parent)
  c ← gets (λ k. k.procs child)
  va ← get_va p.mapped_info i
  lift (store (c.mapped_info + 16 * i) va)
  npages ← get_npages p.mapped_info i
  copy_data npages 0 parent child i

unfoldable pub fork_code : (parent child i : ℕ) → KernelCmd (Unit {0})
fork_code parent child i = do
  p ← gets (λ k. k.procs parent)
  c ← gets (λ k. k.procs child)
  va ← get_va p.mapped_info i
  pa ← lift (lookup_pa p.pagetable va)
  lift (
      user_vm_map c.pagetable (rounddown va pgsize) pgsize pa
        (prot_to_type (bit_or prot_exec prot_read) true))
  npages ← get_npages p.mapped_info i
  set_region c.mapped_info c.total_mapped_region va npages code_segment
  set_proc child (λ c. record c { total_mapped_region = c.total_mapped_region + 1 })

unfoldable pub fork_region : (parent child i : ℕ) → KernelCmd (Unit {0})
fork_region parent child i = do
  p ← gets (λ k. k.procs parent)
  seg_type ← get_seg_type p.mapped_info i
  if seg_type == context_segment
      then fork_context parent child
      else if seg_type == stack_segment
      then fork_stack parent child i
      else if seg_type == data_segment
      then fork_data parent child i
      else if seg_type == code_segment
      then fork_code parent child i
      else pure tt

-- The loop of `do_fork`, from region `i` on with `n` regions left.
unfoldable pub fork_regions : (n i parent child : ℕ) → KernelCmd (Unit {0})
fork_regions zero i parent child = pure tt
fork_regions (suc n) i parent child = do
  fork_region parent child i
  fork_regions n (suc i) parent child

unfoldable pub do_fork : (parent : ℕ) → KernelCmd ℕ
do_fork parent = do
  child ← alloc_process
  p ← gets (λ k. k.procs parent)
  fork_regions p.total_mapped_region 0 parent child
  set_proc child (λ c. record c { status = ready })
  c ← gets (λ k. k.procs child)
  lift (store (c.trapframe + off_a0) 0)
  set_proc child (λ c. record c { parent = some parent })
  insert_to_ready_queue child
  gets (λ k. as_int (k.procs child).pid)
