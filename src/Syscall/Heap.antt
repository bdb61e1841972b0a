-- ===== src/Syscall/Heap.antt =====
-- `sys_user_allocate_page` of kernel/syscall.c.
use mypkecode.Base.{
  ℕ, ◌+◌, ◌/◌, ◌%◌, ◌^◌, ◌≤◌, ◌<◌, ◌≡◌, refl, false, some, List, ◌∷◌, length, ◌==◌, ◌&&◌, arith, ok,
}
use mypkecode.Base.Words.{u64, has_bit}
use mypkecode.Phys.{pgsize, Phys}
use mypkecode.Pmm.Pages.{taken, alloc_page-cons}
use mypkecode.Vmm.{pte_v, maxva, lookup_pa, user_va_to_pa}
use mypkecode.Vmm.Space.{dir, Labels, pte_at, Space}
use mypkecode.Vmm.Lookup.{pa_of}
use mypkecode.Vmm.User.{user_vm_map-lookup}
use mypkecode.Kernel.{Kernel}
use mypkecode.Syscall.{sys_user_allocate_page}

-- The spaces are well formed without the first free page, which is taken.
pub taken-Space :
    {s : Phys} {lab : Labels} {pa : ℕ} {xs : List ℕ}
    → Space s lab (pa ∷ xs)
    → Space (taken s) lab xs
taken-Space sp = record {
  pool = (alloc_page-cons sp.pool).1;
  free = λ p h. sp.free p (ground arith);
  page = sp.page;
  dirs = sp.dirs;
  tables = sp.tables;
}

-- In a well-formed set of address spaces with three pages free, below 2^61, let the running process have a
-- directory, and let the end of the heap be an aligned page below `MAXVA` that is not mapped there.
-- Then `sys_user_allocate_page` returns that address, moves the end of the heap one page up, maps the
-- page to the first free page, and every other page of every space is found where it was before.
pub sys_user_allocate_page-lookup :
    (k : Kernel) (c pa : ℕ) {lab : Labels} {xs : List ℕ}
    → k.current ≡ some c
    → Space k.phys lab (pa ∷ xs)
    → lab (k.procs c).pagetable ≡ some (dir (k.procs c).pagetable)
    → k.g_ufree_page % pgsize ≡ 0
    → k.g_ufree_page + pgsize ≤ maxva
    → k.phys.free_mem_end_addr ≤ 2 ^ 61
    → 2 ≤ length xs
    → has_bit (pte_at k.phys.mem (k.procs c).pagetable k.g_ufree_page) pte_v ≡ false
    → (s' : Phys) × (sys_user_allocate_page k
        ≡ ok k.g_ufree_page (record k { phys = s'; g_ufree_page = k.g_ufree_page + pgsize }))
      × (lookup_pa (k.procs c).pagetable k.g_ufree_page s' ≡ ok pa s')
      × ((off : ℕ)
          → off < pgsize
          → user_va_to_pa (k.procs c).pagetable (k.g_ufree_page + off) s' ≡ ok (pa + off) s')
      × ((r' va' : ℕ)
          → va' < maxva
          → lab r' ≡ some (dir r')
          → ((r' == (k.procs c).pagetable) && (va' / pgsize == k.g_ufree_page / pgsize)) ≡ false
          → lookup_pa r' va' s' ≡ ok (pa_of (pte_at k.phys.mem r' va')) s')
unfolding sys_user_allocate_page
sys_user_allocate_page-lookup k c pa cur sp at al small low enough fresh =
    let chain = sp.pool.chain in
    let (s', run, found, offsets, others) =
      user_vm_map-lookup (k.procs c).pagetable k.g_ufree_page pa 3 (taken-Space sp) at al small
        (chain.1) (omega (arith, chain.3)) (omega arith) refl enough fresh in
    let wrap : u64 (k.g_ufree_page + pgsize) ≡ k.g_ufree_page + pgsize = omega arith in
    (s', rw ((alloc_page-cons sp.pool).0, cur, run, wrap) refl, found, offsets, others)
