-- ===== src/Tests/Pages.antt =====
-- Runs of the page allocator (kernel/pmm.c).
use mypkecode.Base.{ℕ, ◌+◌, ◌≡◌, refl, true, List, ◌↔◌, has, arith, ok, min}
use mypkecode.Phys.{pgsize, Phys}
use mypkecode.Pmm.{free_page, alloc_page, pmm_init, roundup, pke_max_allowable_ram, dram_base}
use mypkecode.Pmm.Chain.{FreeList}
use mypkecode.Pmm.Pages.{alloc_page-free_page}
use mypkecode.Pmm.Create.{InPool, pmm_init-Pools}
use mypkecode.Tests.{first_page, machine, machine-FreeList}

-- A page of the pool that is in use.
abbrev used_page : ℕ
used_page = 0x8021_0000

alloc_page-free_page_example :
    (s' : Phys) × (free_page used_page machine ≡ ok tt s')
    × (alloc_page s' ≡ ok used_page (record s' { free_list = first_page }))
alloc_page-free_page_example = alloc_page-free_page machine-FreeList used_page refl refl

-- A kernel that ends at 0x80007123, with 64 MB of memory.
pmm_init-Pools_example :
    (t : Phys) × (xs : List ℕ) × (pmm_init 0x8000_7123 0x400_0000 machine
      ≡ ok (min pke_max_allowable_ram 0x400_0000) t)
    × FreeList t xs
    × ((a : ℕ)
        → (has a xs ≡ true)
          ↔ InPool
              (roundup 0x8000_7123 pgsize)
              (min pke_max_allowable_ram 0x400_0000 + dram_base)
              a)
pmm_init-Pools_example = pmm_init-Pools machine 0x8000_7123 0x400_0000 (omega arith) (omega arith)
