-- ===== src/Phys.antt =====
-- The physical memory that the kernel reads and writes, and the allocator's three variables.
-- The kernel runs with all of it mapped one to one (kernel/vmm.c, kern_vm_init), so a pointer of the
-- kernel is a physical byte address. Memory is a function from the addresses of 64-bit words.
pub mod Laws
use mypkecode.Base.{ℕ, ◌+◌, ◌-◌, ltb, ◌==◌, if◌then◌else◌}
use mypkecode.Base.{Run, ok, fault, Cmd}

-- bytes per page (kernel/riscv.h)
abbrev pub pgsize : ℕ
pgsize = 4096

abbrev pub null : ℕ
null = 0

abbrev pub Memory : Type 0
Memory = ℕ → ℕ

-- `free_list` is `g_free_mem_list.next`; the other two bound the memory that pages come from.
pub record Phys : Type 0 where
  pub mem : Memory
  pub free_list : ℕ
  pub free_mem_start_addr : ℕ
  pub free_mem_end_addr : ℕ

abbrev pub PhysCmd : Type 0 → Type 0
PhysCmd = Cmd Phys

unfoldable pub write : Memory → ℕ → ℕ → Memory
write m a v b = if a == b then v else m b

-- `n` bytes from `p` on are zeroed: what `memset(p, 0, n)` leaves behind, word by word.
unfoldable pub clear : Memory → ℕ → ℕ → Memory
clear m p n b = if ltb b p then m b else if ltb b (p + n) then 0 else m b

-- `n` bytes from `src` on are copied to `dest`: what `memcpy(dest, src, n)` leaves behind.
unfoldable pub copy : Memory → ℕ → ℕ → ℕ → Memory
copy m dest src n b =
    if ltb b dest then m b else if ltb b (dest + n) then m (src + (b - dest)) else m b

-- Page zero is not mapped: an access there is a fault.
unfoldable pub load : ℕ → PhysCmd ℕ
load a s = if ltb a pgsize then fault else ok (s.mem a) s

unfoldable pub store : ℕ → ℕ → PhysCmd (Unit {0})
store a v s = if ltb a pgsize then fault else ok tt (record s { mem = write s.mem a v })

unfoldable pub memset_zero : ℕ → ℕ → PhysCmd (Unit {0})
memset_zero p n s = if ltb p pgsize then fault else ok tt (record s { mem = clear s.mem p n })

unfoldable pub memcpy : ℕ → ℕ → ℕ → PhysCmd (Unit {0})
memcpy dest src n s =
    if ltb dest pgsize
    then fault
    else if ltb src pgsize
    then fault
    else ok tt (record s { mem = copy s.mem dest src n })
