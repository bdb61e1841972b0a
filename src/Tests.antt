-- ===== src/Tests.antt =====
-- Concrete states and runs: one address space with an empty directory and three free pages, and a
-- pool of processes with a ready queue.
mod Pages
mod Spaces
mod Turns
mod Allocs
mod Forks
mod Traps
mod Heap
mod Texts
mod Prints
mod Users
mod Loads
mod Files
mod Rounds
mod Starts
use mypkecode.Base.{
  ℕ, ◌+◌, ◌*◌, ◌/◌, ◌%◌, ◌^◌, ◌≤◌, ◌<◌, ◌≡◌, ◌≢◌, refl, ◌∙◌, Bool, true, false, Option, none, some,
  List, [], ◌∷◌, ◌==◌, ◌&&◌, ◌||◌, ◌++◌, ◌⊎◌, ◌↔◌, has, length, arith, ok, user, panic, halt, fault,
  if◌then◌else◌, min,
}
use mypkecode.Base.Words.{has_bit}
use mypkecode.Phys.{pgsize, Memory, Phys}
use mypkecode.Pmm.{rejected, free_page, alloc_page}
use mypkecode.Pmm.Chain.{FreeList}
use mypkecode.Vmm.{pte_v, pte2pa, px, entry, maxva}
use mypkecode.Vmm.Space.{Label, Labels, dir, child, pte_at, Space}

abbrev pub root : ℕ
root = 0x8010_0000

abbrev pub first_page : ℕ
first_page = 0x8020_0000

abbrev pub memory : Memory
memory a =
    if a == first_page
    then first_page + pgsize
    else if a == first_page + pgsize
    then first_page + 2 * pgsize
    else 0

abbrev pub machine : Phys
machine = record {
  mem = memory;
  free_list = first_page;
  free_mem_start_addr = first_page;
  free_mem_end_addr = 0x8030_0000;
}

abbrev pub labels : Labels
labels p = if p == root then some (dir root) else none

abbrev pub free_pages : List ℕ
free_pages = first_page ∷ (first_page + pgsize) ∷ (first_page + 2 * pgsize) ∷ []

pub machine-FreeList : FreeList machine free_pages
machine-FreeList = record {
  above_null = omega arith;
  fits = omega arith;
  chain = (
    refl,
    refl,
    omega arith,
    omega arith,
    refl,
    (
      refl,
      refl,
      omega arith,
      omega arith,
      refl,
      (refl, refl, omega arith, omega arith, refl, refl),
    ),
  );
}

labels-root : (p : ℕ) (l : Label) → labels p ≡ some l → (p ≡ root) × (l ≡ dir root)
labels-root p l h = ground arith

pub machine-Space : Space machine labels free_pages
machine-Space = record {
  pool = machine-FreeList;
  free = λ p h. ground arith;
  page = λ p l h. let (e, f) = labels-root p l h in rw e (refl, omega arith);
  dirs = λ p r h. ground arith;
  tables = λ p i l c h d b v.
      let (e, f) = labels-root p l h in
      let zero_there : memory (entry p i) ≡ 0 = ground (arith, e) in
      absurd (ground (arith, zero_there));
}
