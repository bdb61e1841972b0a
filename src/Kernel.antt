-- ===== src/Kernel.antt =====
-- The state of the supervisor-mode kernel: physical memory, the process pool of kernel/process.h and
-- kernel/process.c, the scheduler's and the trap handler's variables, and the control registers.
use mypkecode.Base.{ℕ, Option, if◌then◌else◌, ◌==◌}
use mypkecode.Base.{Run, ok, panic, poweroff, halt, fault, user, hang, Cmd}
use mypkecode.Phys.{Phys, PhysCmd}

-- `NPROC`
abbrev pub nproc : ℕ
nproc = 32

-- `enum proc_status`
pub data Status : Type 0 where
  free ready running blocked zombie : Status

-- A `process *` points into `procs[]`: NULL, or an index.
abbrev pub ProcPtr : Type 0
ProcPtr = Option ℕ

-- `struct process`. The trapframe and the table of mapped regions lie in pages of physical memory.
pub record Process : Type 0 where
  pub kstack : ℕ
  pub pagetable : ℕ
  pub trapframe : ℕ
  pub mapped_info : ℕ
  pub total_mapped_region : ℕ
  pub pid : ℕ
  pub status : Status
  pub parent : ProcPtr
  pub queue_next : ProcPtr
  pub tick_count : ℕ

pub record Kernel : Type 0 where
  pub phys : Phys
  pub procs : ℕ → Process
  pub current : ProcPtr
  pub ready_queue_head : ProcPtr
  pub g_ufree_page : ℕ
  pub g_ticks : ℕ
  pub satp : ℕ
  pub stvec : ℕ
  pub sstatus : ℕ
  pub sepc : ℕ
  pub scause : ℕ
  pub stval : ℕ
  pub sip : ℕ
  pub sscratch : ℕ
  -- addresses that the linker fixes
  pub smode_trap_vector : ℕ
  pub smode_trap_handler : ℕ
  pub trap_sec_start : ℕ

abbrev pub KernelCmd : Type 0 → Type 0
KernelCmd = Cmd Kernel

-- A command on memory as one of the kernel.
abbrev pub on_phys : {A : Type 0} → Kernel → Run Phys A → Run Kernel A
on_phys k (ok a s) = ok a (record k { phys = s })
on_phys k panic = panic
on_phys k poweroff = poweroff
on_phys k halt = halt
on_phys k fault = fault
on_phys k (user s) = user (record k { phys = s })
on_phys k hang = hang

abbrev pub lift : {A : Type 0} → PhysCmd A → KernelCmd A
lift m k = on_phys k (m k.phys)

abbrev pub gets : {A : Type 0} → (Kernel → A) → KernelCmd A
gets f k = ok (f k) k

abbrev pub modify : (Kernel → Kernel) → KernelCmd (Unit {0})
modify f k = ok tt (f k)

-- `procs[i]` with one element changed.
unfoldable pub update : (ℕ → Process) → ℕ → Process → ℕ → Process
update procs i p j = if i == j then p else procs j

abbrev pub set_proc : ℕ → (Process → Process) → KernelCmd (Unit {0})
set_proc i f = modify λ k. record k { procs = update k.procs i (f (k.procs i)) }
