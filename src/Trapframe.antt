-- ===== src/Trapframe.antt =====
-- `struct trapframe` of kernel/process.h with the registers of kernel/riscv.h, and the parts of
-- kernel/strap_vector.S that the C code relies on.
use mypkecode.Base.{ℕ, ◌-◌, ◌*◌, ◌/◌, ◌%◌, ◌^◌, bit_or, user}
use mypkecode.Kernel.{KernelCmd}

-- Byte offsets of the fields.
abbrev pub off_sp : ℕ
off_sp = 8

abbrev pub off_a0 : ℕ
off_a0 = 72

abbrev pub off_kernel_sp : ℕ
off_kernel_sp = 248

abbrev pub off_kernel_trap : ℕ
off_kernel_trap = 256

abbrev pub off_epc : ℕ
off_epc = 264

abbrev pub off_kernel_satp : ℕ
off_kernel_satp = 272

-- `sizeof(trapframe)`
abbrev pub trapframe_size : ℕ
trapframe_size = 280

-- `MAKE_SATP`
abbrev pub make_satp : ℕ → ℕ
make_satp pagetable = bit_or (8 * 2 ^ 60) (pagetable / 2 ^ 12)

-- `x & ~(1 << n)`
abbrev pub clear_bit : (x n : ℕ) → ℕ
clear_bit x n = x - x / 2 ^ n % 2 * 2 ^ n

-- Bit numbers of `SSTATUS_SPP` and `SSTATUS_SPIE`.
abbrev pub sstatus_spp : ℕ
sstatus_spp = 8

abbrev pub sstatus_spie : ℕ
sstatus_spie = 5

-- Switches to the page table of user mode, keeps the trapframe in `sscratch`, restores the user's
-- registers from it and leaves the kernel by `sret`.
unfoldable pub return_to_user : (tf satp : ℕ) → KernelCmd (Unit {0})
return_to_user tf satp k = user (record k { satp = satp; sscratch = tf })
