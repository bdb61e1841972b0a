-- ===== src/Tests/Heap.antt =====
-- A run of `sys_user_allocate_page` (kernel/syscall.c) by process 0.
use mypkecode.Base.{ℕ, ◌+◌, ◌/◌, ◌<◌, ◌≡◌, refl, false, some, ◌==◌, ◌&&◌, arith, ok}
use mypkecode.Base.Words.{has_bit}
use mypkecode.Phys.{pgsize, Phys}
use mypkecode.Vmm.{pte_v, maxva, lookup_pa, user_va_to_pa}
use mypkecode.Vmm.Space.{dir, pte_at}
use mypkecode.Vmm.Lookup.{pa_of}
use mypkecode.Syscall.{sys_user_allocate_page}
use mypkecode.Syscall.Heap.{sys_user_allocate_page-lookup}
use mypkecode.Tests.{root, first_page, machine, labels, machine-Space}
use mypkecode.Tests.Turns.{kernel}

abbrev heap : ℕ
heap = 0x40_0000

nothing_there : has_bit (pte_at machine.mem root heap) pte_v ≡ false
unfolding pte_at
nothing_there = refl

sys_user_allocate_page-lookup_example :
    (s' : Phys) × (sys_user_allocate_page (kernel (some 1) 0)
      ≡ ok heap (record (kernel (some 1) 0) { phys = s'; g_ufree_page = heap + pgsize }))
    × (lookup_pa root heap s' ≡ ok first_page s')
    × ((off : ℕ) → off < pgsize → user_va_to_pa root (heap + off) s' ≡ ok (first_page + off) s')
    × ((r' va' : ℕ)
        → va' < maxva
        → labels r' ≡ some (dir r')
        → ((r' == root) && (va' / pgsize == heap / pgsize)) ≡ false
        → lookup_pa r' va' s' ≡ ok (pa_of (pte_at machine.mem r' va')) s')
sys_user_allocate_page-lookup_example =
    sys_user_allocate_page-lookup (kernel (some 1) 0) 0 first_page refl machine-Space refl refl
      (omega arith) (omega arith) (omega arith) nothing_there
