-- ===== src/Vmm.antt =====
-- kernel/vmm.c: Sv39 page tables, three levels of tables of 512 entries in physical memory, with the
-- page table macros of kernel/riscv.h.
pub mod Space
pub mod Link
pub mod Linked
pub mod Walk
pub mod Lookup
pub mod Mapping
pub mod MapLoop
pub mod MapPages
pub mod Perm
pub mod Spared
pub mod Outside
pub mod User
pub mod Built
pub mod Unmap
pub mod Release
pub mod RoundTrip
use mypkecode.Base.{
  ℕ, zero, suc, ◌+◌, ◌-◌, ◌*◌, ◌/◌, ◌%◌, ◌^◌, Bool, true, false, not, ◌&&◌, ◌||◌, Option, none,
  some, bit_or, bit_xor, ltb, leb, ◌==◌, if◌then◌else◌,
}
use mypkecode.Base.{Run, ok, panic, hang, Cmd, pure, stop, ◌>>=◌, ◌>>◌}
use mypkecode.Base.Words.{u64, has_bit}
use mypkecode.Phys.{pgsize, PhysCmd, load, store, memset_zero}
use mypkecode.Pmm.{rounddown, alloc_page, free_page, dram_base, kern_base, pke_max_allowable_ram}

-- The flags of an entry, as bit numbers and as masks.
abbrev pub pte_v : ℕ
pte_v = 0

abbrev pub pte_r : ℕ
pte_r = 1

abbrev pub pte_w : ℕ
pte_w = 2

abbrev pub pte_x : ℕ
pte_x = 3

abbrev pub pte_u : ℕ
pte_u = 4

abbrev pub pte_a : ℕ
pte_a = 6

abbrev pub pte_d : ℕ
pte_d = 7

-- `MAXVA`
abbrev pub maxva : ℕ
maxva = 2 ^ 38

-- `PA2PTE`, `PTE2PA` and `PX`
abbrev pub pa2pte : ℕ → ℕ
pa2pte pa = pa / 2 ^ 12 * 2 ^ 10

abbrev pub pte2pa : ℕ → ℕ
pte2pa pte = u64 (pte / 2 ^ 10 * 2 ^ 12)

abbrev pub px : ℕ → ℕ → ℕ
px level va = va / 2 ^ (12 + 9 * level) % 512

-- The address of entry `i` of the table at `pt`; an entry has 8 bytes.
abbrev pub entry : ℕ → ℕ → ℕ
entry pt i = pt + 8 * i

-- `enum VMPermision` of kernel/vmm.h
abbrev pub prot_read : ℕ
prot_read = 1

abbrev pub prot_write : ℕ
prot_write = 2

abbrev pub prot_exec : ℕ
prot_exec = 4

unfoldable pub prot_to_type : (prot : ℕ) (user : Bool) → ℕ
prot_to_type prot user =
    let p0 : ℕ = 0 in
    let p1 : ℕ = if has_bit prot 0 then bit_or p0 (bit_or (2 ^ pte_r) (2 ^ pte_a)) else p0 in
    let p2 : ℕ = if has_bit prot 1 then bit_or p1 (bit_or (2 ^ pte_w) (2 ^ pte_d)) else p1 in
    let p3 : ℕ = if has_bit prot 2 then bit_or p2 (bit_or (2 ^ pte_x) (2 ^ pte_a)) else p2 in
    let p4 : ℕ = if p3 == 0 then 2 ^ pte_r else p3 in if user then bit_or p4 (2 ^ pte_u) else p4

-- A new table for the entry at `pte`; `none` where no page is left.
unfoldable pub new_table : (pte : ℕ) → PhysCmd (Option ℕ)
new_table pte = do
  pt ← alloc_page
  if pt == 0
      then pure none
      else do memset_zero pt pgsize; store pte (bit_or (pa2pte pt) (2 ^ pte_v)); pure (some pt)

-- One round of the loop of `page_walk`: the table below the entry at `pte`, which is allocated and
-- cleared if the entry is invalid and `alloc` is set; `none` where the C code returns NULL.
unfoldable pub next_table : (pte : ℕ) (alloc : Bool) → PhysCmd (Option ℕ)
next_table pte alloc = do
  v ← load pte
  if has_bit v pte_v then pure (some (pte2pa v)) else if alloc then new_table pte else pure none

-- The loop, with `level` rounds left.
unfoldable pub walk_down : (level pt va : ℕ) (alloc : Bool) → PhysCmd ℕ
walk_down zero pt va alloc = pure (entry pt (px 0 va))
walk_down (suc level) pt va alloc = do
  next ← next_table (entry pt (px (suc level) va)) alloc
  elim next [ none ↦ pure 0 | some pt' ↦ walk_down level pt' va alloc ]

unfoldable pub page_walk : (page_dir va : ℕ) (alloc : Bool) → PhysCmd ℕ
page_walk page_dir va alloc = if leb maxva va then stop else walk_down 2 page_dir va alloc

-- What a mapping writes: `PA2PTE(pa) | perm | PTE_V`.
unfoldable pub leaf_pte : (pa perm : ℕ) → ℕ
leaf_pte pa perm = bit_or (bit_or (pa2pte pa) perm) (2 ^ pte_v)

-- The body of the loop of `map_pages`; the value is false where the C code returns -1.
unfoldable pub map_page : (page_dir first pa perm : ℕ) → PhysCmd Bool
map_page page_dir first pa perm = do
  pte ← page_walk page_dir first true
  if pte == 0 then pure false else do
    v ← load pte
    if has_bit v pte_v then stop else do store pte (leaf_pte pa perm); pure true

-- The loop of `map_pages`. The value is true where the C code returns 0, false where it returns -1.
unfoldable pub map_loop : (fuel page_dir first last pa perm : ℕ) → PhysCmd Bool
map_loop zero page_dir first last pa perm = λ _. hang
map_loop (suc fuel) page_dir first last pa perm = if ltb last first then pure true else do
  mapped ← map_page page_dir first pa perm
  if mapped
      then map_loop fuel page_dir (u64 (first + pgsize)) last (u64 (pa + pgsize)) perm
      else pure false

-- One round for each page from `first` to `last`, and one for the last test.
unfoldable pub map_pages : (page_dir va size pa perm : ℕ) → PhysCmd Bool
map_pages page_dir va size pa perm =
    let last = rounddown (u64 (va + size + 2 ^ 64 - 1)) pgsize in
    map_loop (last / pgsize + 2) page_dir (rounddown va pgsize) last pa perm

unfoldable pub lookup_pa : (pagetable va : ℕ) → PhysCmd ℕ
lookup_pa pagetable va = if leb maxva va then pure 0 else do
  pte ← page_walk pagetable va false
  if pte == 0 then pure 0 else do
    v ← load pte
    if not (has_bit v pte_v) || (not (has_bit v pte_r) && not (has_bit v pte_w))
        then pure 0
        else pure (pte2pa v)

unfoldable pub user_va_to_pa : (page_dir va : ℕ) → PhysCmd ℕ
user_va_to_pa page_dir va = do
  pte ← page_walk page_dir va false
  if pte == 0 then pure 0 else do v ← load pte; pure (u64 (pte2pa v + va % 2 ^ 12))

-- `kern_vm_map` takes the physical address before the size, `user_vm_map` after it.
unfoldable pub kern_vm_map : (page_dir va pa sz perm : ℕ) → PhysCmd (Unit {0})
kern_vm_map page_dir va pa sz perm = do
  mapped ← map_pages page_dir va sz pa perm
  if mapped then pure tt else stop

unfoldable pub user_vm_map : (page_dir va size pa perm : ℕ) → PhysCmd (Unit {0})
user_vm_map page_dir va size pa perm = do
  mapped ← map_pages page_dir va size pa perm
  if mapped then pure tt else stop

-- The arguments `size` and `free` are not read.
unfoldable pub user_vm_unmap : (page_dir va size : ℕ) (free : Bool) → PhysCmd (Unit {0})
user_vm_unmap page_dir va size free = do
  pte ← page_walk page_dir va false
  v ← load pte
  free_page (u64 (pte2pa v + va % 2 ^ 12))
  v' ← load pte
  store pte (bit_xor v' (2 ^ pte_v))

-- `PHYS_TOP`
abbrev pub phys_top : ℕ
phys_top = dram_base + pke_max_allowable_ram

-- `etext` is the linker's `_etext`. The value is the new `g_kernel_pagetable`.
unfoldable pub kern_vm_init : (etext : ℕ) → PhysCmd ℕ
kern_vm_init etext = do
  t_page_dir ← alloc_page
  memset_zero t_page_dir pgsize
  kern_vm_map t_page_dir kern_base dram_base (u64 (etext + 2 ^ 64 - kern_base))
      (prot_to_type (bit_or prot_read prot_exec) false)
  lookup_pa t_page_dir kern_base
  kern_vm_map t_page_dir etext etext (u64 (phys_top + 2 ^ 64 - etext))
      (prot_to_type (bit_or prot_read prot_write) false)
  lookup_pa t_page_dir etext
  pure t_page_dir
