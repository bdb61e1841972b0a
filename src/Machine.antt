-- ===== src/Machine.antt =====
-- kernel/machine/minit.c and kernel/machine/mtrap.c: the machine mode, which starts the kernel and
-- passes the timer's interrupts on to it.
pub mod Timer
pub mod Start
use mypkecode.Base.{
  ℕ, ◌+◌, ◌-◌, ◌*◌, ◌/◌, ◌%◌, ◌^◌, Bool, not, bit_and, bit_or, ◌==◌, if◌then◌else◌,
}
use mypkecode.Files.{Files, spike_file_init}
use mypkecode.Base.{Run, ok, panic, poweroff, halt, fault, user, hang, Cmd, stop, ◌>>=◌, ◌>>◌}
use mypkecode.Base.Words.{u64, has_bit}
use mypkecode.Kernel.{Kernel}
use mypkecode.Strap.{cause_user_ecall, cause_load_page_fault, cause_store_page_fault}

-- The registers of the machine mode and the two of the supervisor mode that it writes, the timer
-- (`CLINT_MTIME` and the `CLINT_MTIMECMP` of each hart), and what `init_dtb` finds. The `_mask` fields are
-- the bits that the hardware has in the two delegation registers.
pub record Machine : Type 0 where
  pub mcause : ℕ
  pub mstatus : ℕ
  pub mepc : ℕ
  pub mtvec : ℕ
  pub mscratch : ℕ
  pub mideleg : ℕ
  pub medeleg : ℕ
  pub mie : ℕ
  pub misa : ℕ
  pub sie : ℕ
  pub mtime : ℕ
  pub mtimecmp : ℕ → ℕ
  pub mideleg_mask : ℕ
  pub medeleg_mask : ℕ
  pub htif : ℕ
  pub g_mem_size : ℕ
  -- the tables of host files, without the host
  pub files : Files (Unit {0})
  pub kernel : Kernel

abbrev pub MachineCmd : Type 0 → Type 0
MachineCmd = Cmd Machine

abbrev pub change : (Machine → Machine) → MachineCmd (Unit {0})
change f m = ok tt (f m)

abbrev pub asks : {A : Type 0} → (Machine → A) → MachineCmd A
asks f m = ok (f m) m

-- Causes of kernel/riscv.h.
abbrev pub cause_misaligned_fetch : ℕ
cause_misaligned_fetch = 0

abbrev pub cause_fetch_access : ℕ
cause_fetch_access = 1

abbrev pub cause_illegal_instruction : ℕ
cause_illegal_instruction = 2

abbrev pub cause_breakpoint : ℕ
cause_breakpoint = 3

abbrev pub cause_misaligned_load : ℕ
cause_misaligned_load = 4

abbrev pub cause_load_access : ℕ
cause_load_access = 5

abbrev pub cause_misaligned_store : ℕ
cause_misaligned_store = 6

abbrev pub cause_store_access : ℕ
cause_store_access = 7

abbrev pub cause_fetch_page_fault : ℕ
cause_fetch_page_fault = 12

abbrev pub cause_mtimer : ℕ
cause_mtimer = 2 ^ 63 + 7

abbrev pub timer_interval : ℕ
timer_interval = 1000000

abbrev pub sip_ssip : ℕ
sip_ssip = 2 ^ 1

abbrev pub irq_s_ext : ℕ
irq_s_ext = 9

abbrev pub irq_s_timer : ℕ
irq_s_timer = 5

abbrev pub irq_s_soft : ℕ
irq_s_soft = 1

-- `MIP_SSIP | MIP_STIP | MIP_SEIP`
abbrev pub interrupts : ℕ
interrupts = bit_or (bit_or (2 ^ irq_s_soft) (2 ^ irq_s_timer)) (2 ^ irq_s_ext)

abbrev pub exceptions : ℕ
exceptions =
    bit_or
      (bit_or
        (bit_or
          (bit_or (bit_or (2 ^ cause_misaligned_fetch) (2 ^ cause_fetch_page_fault))
            (2 ^ cause_breakpoint))
          (2 ^ cause_load_page_fault))
        (2 ^ cause_store_page_fault))
      (2 ^ cause_user_ecall)

-- `*(uint64*)CLINT_MTIMECMP(hart) = time`
abbrev pub set_alarm : (hart time : ℕ) → Machine → Machine
set_alarm hart time m = record m { mtimecmp = λ h. if hart == h then u64 time else m.mtimecmp h }

unfoldable pub handle_timer : MachineCmd (Unit {0})
handle_timer = do
  change (λ m. set_alarm 0 (m.mtimecmp 0 + timer_interval) m)
  change (λ m. record m { kernel = record m.kernel { sip = sip_ssip } })

abbrev pub handle_instruction_access_fault : MachineCmd (Unit {0})
handle_instruction_access_fault = stop

abbrev pub handle_load_access_fault : MachineCmd (Unit {0})
handle_load_access_fault = stop

abbrev pub handle_store_access_fault : MachineCmd (Unit {0})
handle_store_access_fault = stop

abbrev pub handle_illegal_instruction : MachineCmd (Unit {0})
handle_illegal_instruction = stop

abbrev pub handle_misaligned_load : MachineCmd (Unit {0})
handle_misaligned_load = stop

abbrev pub handle_misaligned_store : MachineCmd (Unit {0})
handle_misaligned_store = stop

-- The case of a load access fault falls through to that of a store.
unfoldable pub handle_mtrap : MachineCmd (Unit {0})
handle_mtrap m =
    if m.mcause == cause_mtimer
    then handle_timer m
    else if m.mcause == cause_fetch_access
    then handle_instruction_access_fault m
    else if m.mcause == cause_load_access
    then (handle_load_access_fault >> handle_store_access_fault) m
    else if m.mcause == cause_store_access
    then handle_store_access_fault m
    else if m.mcause == cause_illegal_instruction
    then handle_illegal_instruction m
    else if m.mcause == cause_misaligned_load
    then handle_misaligned_load m
    else if m.mcause == cause_misaligned_store
    then handle_misaligned_store m
    else panic

-- `assert`
abbrev pub check : Bool → MachineCmd (Unit {0})
check c m = if c then ok tt m else poweroff

-- The letter is a byte.
abbrev pub supports_extension : (ext : ℕ) → Machine → Bool
supports_extension ext m = has_bit m.misa (ext - b'A')

unfoldable pub delegate_traps : MachineCmd (Unit {0})
delegate_traps m =
    if supports_extension b'S' m
    then (do
      change (λ m'. record m' { mideleg = bit_and interrupts m'.mideleg_mask })
      change (λ m'. record m' { medeleg = bit_and exceptions m'.medeleg_mask })
      mideleg ← asks (λ m'. m'.mideleg)
      check (mideleg == interrupts)
      medeleg ← asks (λ m'. m'.medeleg)
      check (medeleg == exceptions))
        m
    else ok tt m

unfoldable pub timerinit : (hartid : ℕ) → MachineCmd (Unit {0})
timerinit hartid = do
  change (λ m. set_alarm hartid (m.mtime + timer_interval) m)
  change (λ m. record m { mie = bit_or m.mie (2 ^ 7) })

-- `found_htif` and `size` are what `query_htif` and `query_mem` find in the device tree; a size of 0
-- fails an assertion of `query_mem`.
unfoldable pub init_dtb : (found_htif size : ℕ) → MachineCmd (Unit {0})
init_dtb found_htif size = do
  change (λ m. record m { htif = found_htif })
  change (λ m. record m { g_mem_size = size })
  check (not (size == 0))

-- `(mstatus & ~MSTATUS_MPP_MASK) | MSTATUS_MPP_S`
abbrev pub previous_supervisor : ℕ → ℕ
previous_supervisor mstatus = bit_or (mstatus - mstatus / 2 ^ 11 % 4 * 2 ^ 11) (2 ^ 11)

abbrev on_files : {A : Type 0} → Machine → Run (Files (Unit {0})) A → Run Machine A
on_files m (ok a s) = ok a (record m { files = s })
on_files m panic = panic
on_files m poweroff = poweroff
on_files m halt = halt
on_files m fault = fault
on_files m (user s) = user (record m { files = s })
on_files m hang = hang

-- The arguments behind `hartid` are addresses that the linker fixes and the findings of `init_dtb`;
-- `frontend_syscall` is the host, as spike_file.c calls it. The `mret` at
-- the end goes on at `mepc`, in the mode that `mstatus` has for it.
unfoldable pub m_start :
    (frontend_syscall : (n a0 a1 a2 a3 a4 : ℕ) → Unit {0} → ℕ × Unit {0})
    (hartid s_start mtrapvec g_itrframe found_htif size : ℕ)
    → MachineCmd (Unit {0})
m_start frontend_syscall hartid s_start mtrapvec g_itrframe found_htif size = do
  (λ m. on_files m (spike_file_init frontend_syscall m.files))
  init_dtb found_htif size
  change (λ m. record m { mscratch = g_itrframe })
  change (λ m. record m { mstatus = previous_supervisor m.mstatus })
  change (λ m. record m { mepc = s_start })
  change (λ m. record m { mtvec = mtrapvec })
  change (λ m. record m { mstatus = bit_or m.mstatus (2 ^ 3) })
  delegate_traps
  change (λ m. record m { sie = bit_or (bit_or (bit_or m.sie (2 ^ 9)) (2 ^ 5)) (2 ^ 1) })
  timerinit hartid
