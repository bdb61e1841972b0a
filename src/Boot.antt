-- ===== src/Boot.antt =====
-- kernel/kernel.c: the start of the supervisor-mode kernel.
use mypkecode.Base.{ℕ}
use mypkecode.Base.{pure, ◌>>=◌, ◌>>◌}
use mypkecode.Pmm.{pmm_init}
use mypkecode.Vmm.{kern_vm_init}
use mypkecode.Kernel.{KernelCmd, lift, modify}
use mypkecode.Trapframe.{make_satp}
use mypkecode.Sched.{insert_to_ready_queue, schedule}
use mypkecode.Proc.{init_proc_pool, alloc_process}
use mypkecode.Host.{Buffer, Host}
use mypkecode.Elf.{load_bincode_from_host_elf}

-- The flush of the TLB is not part of the state.
unfoldable pub enable_paging : (g_kernel_pagetable : ℕ) → KernelCmd (Unit {0})
enable_paging g_kernel_pagetable = modify λ k. record k { satp = make_satp g_kernel_pagetable }

module _ (host : Host) (junk : Buffer) where
  unfoldable pub load_user_program : KernelCmd ℕ
  load_user_program = do proc ← alloc_process; load_bincode_from_host_elf host junk proc; pure proc

  -- `kernel_end` and `etext` are the linker's symbols, `g_mem_size` is set before by `query_mem`.
  unfoldable pub s_start : (kernel_end etext g_mem_size : ℕ) → KernelCmd ℕ
  s_start kernel_end etext g_mem_size = do
    modify (λ k. record k { satp = 0 })
    lift (pmm_init kernel_end g_mem_size)
    root ← lift (kern_vm_init etext)
    enable_paging root
    init_proc_pool
    proc ← load_user_program
    insert_to_ready_queue proc
    schedule
    pure 0
