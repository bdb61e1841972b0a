-- ===== src/Pmm.antt =====
-- kernel/pmm.c: the list of free physical pages. The list is threaded through the free pages
-- themselves: the first word of a page is the `next` field of its `list_node`.
pub mod Chain
pub mod Pages
pub mod Create
use mypkecode.Base.{
  ℕ, zero, suc, ◌+◌, ◌-◌, ◌*◌, ◌/◌, ◌%◌, ◌^◌, Bool, true, false, not, min, ◌||◌, ltb, ◌==◌,
  if◌then◌else◌,
}
use mypkecode.Base.{Run, ok, panic, hang, Cmd, pure, ◌>>=◌, ◌>>◌}
use mypkecode.Base.Words.{u64}
use mypkecode.Phys.{pgsize, Phys, PhysCmd, load, store}

-- `ROUNDUP(a, b)` of util/functions.h on uint64.
unfoldable pub roundup : ℕ → ℕ → ℕ
roundup a b = u64 ((u64 (a + 2 ^ 64 - 1) / b + 1) * b)

-- `ROUNDDOWN(a, b)` of util/functions.h.
unfoldable pub rounddown : ℕ → ℕ → ℕ
rounddown a b = a / b * b

set_free_list : ℕ → PhysCmd (Unit {0})
set_free_list n s = ok tt (record s { free_list = n })

-- The guard of `free_page`.
abbrev pub rejected : Phys → ℕ → Bool
rejected s pa =
    not (pa % pgsize == 0) || ltb pa s.free_mem_start_addr || not (ltb pa s.free_mem_end_addr)

unfoldable pub free_page : ℕ → PhysCmd (Unit {0})
unfolding set_free_list store
free_page pa s = if rejected s pa then panic else (store pa s.free_list >> set_free_list pa) s

-- The value is the page's address, 0 when no page is left.
unfoldable pub alloc_page : PhysCmd ℕ
unfolding set_free_list load
alloc_page s =
    if s.free_list == 0
    then ok 0 s
    else (do next ← load s.free_list; set_free_list next; pure s.free_list) s

-- The loop of `create_freepage_list`, from page `p` on.
unfoldable pub create_loop : ℕ → ℕ → ℕ → PhysCmd (Unit {0})
create_loop zero p end s = hang
create_loop (suc fuel) p end s =
    let rest = (free_page p >> create_loop fuel (u64 (p + pgsize)) end) s in
    if ltb (u64 (p + pgsize)) end then rest else ok tt s

-- The loop makes at most one round for each page below `end`.
unfoldable pub create_freepage_list : ℕ → ℕ → PhysCmd (Unit {0})
unfolding create_loop roundup set_free_list
create_freepage_list start end =
    set_free_list 0 >> create_loop (end / pgsize + 2) (roundup start pgsize) end

abbrev pub dram_base : ℕ
dram_base = 0x8000_0000

abbrev pub kern_base : ℕ
kern_base = 0x8000_0000

abbrev pub pke_max_allowable_ram : ℕ
pke_max_allowable_ram = 128 * 1024 * 1024

-- `kernel_end` is the linker's `_end`. The value is the new `g_mem_size`, which the C code keeps in
-- a global variable of spike_interface/spike_memory.c.
unfoldable pub pmm_init : (kernel_end g_mem_size : ℕ) → PhysCmd ℕ
pmm_init kernel_end g_mem_size s =
    let size = min pke_max_allowable_ram g_mem_size in
    let start = roundup kernel_end pgsize in
    let end = size + dram_base in
    if ltb size (u64 (kernel_end + 2 ^ 64 - kern_base))
    then panic
    else (do create_freepage_list start end; pure size)
        (record s { free_mem_start_addr = start; free_mem_end_addr = end })
