-- ===== src/Tests/Spaces.antt =====
-- Runs of the page table routines (kernel/vmm.c) on the address space of the tests.
use mypkecode.Base.{
  ℕ, ◌+◌, ◌*◌, ◌/◌, ◌<◌, ◌≡◌, refl, true, false, some, List, ◌∷◌, ◌==◌, ◌&&◌, arith, ok, fault,
}
use mypkecode.Base.Words.{has_bit}
use mypkecode.Phys.{pgsize, Phys}
use mypkecode.Vmm.{
  pte_v, maxva, page_walk, map_pages, lookup_pa, user_va_to_pa, user_vm_map, user_vm_unmap,
  prot_to_type,
}
use mypkecode.Vmm.Space.{dir, Labels, pte_at, Space}
use mypkecode.Vmm.Walk.{Walked, page_walk-Walked}
use mypkecode.Vmm.Lookup.{pa_of, lookup_pa-pte_at, user_va_to_pa-pte_at}
use mypkecode.Vmm.MapLoop.{Mapped}
use mypkecode.Vmm.MapPages.{map_pages-Mapped}
use mypkecode.Vmm.User.{user_vm_map-Remaps, user_vm_map-lookup}
use mypkecode.Vmm.Unmap.{user_vm_unmap-fault}
use mypkecode.Vmm.Release.{MappedTo, user_vm_unmap-release, user_vm_unmap-twice}
use mypkecode.Vmm.RoundTrip.{Remaps-MappedTo, user_vm_unmap-user_vm_map}
use mypkecode.Tests.{root, machine, labels, free_pages, machine-Space}

-- A virtual page and a physical page in use.
abbrev heap : ℕ
heap = 0x40_0000

abbrev used_page : ℕ
used_page = 0x8021_0000

nothing_there : has_bit (pte_at machine.mem root heap) pte_v ≡ false
unfolding pte_at
nothing_there = refl

user_vm_map-lookup_example :
    (s' : Phys) × (user_vm_map root heap pgsize used_page (prot_to_type 3 true) machine ≡ ok tt s')
    × (lookup_pa root heap s' ≡ ok used_page s')
    × ((off : ℕ) → off < pgsize → user_va_to_pa root (heap + off) s' ≡ ok (used_page + off) s')
    × ((r' va' : ℕ)
        → va' < maxva
        → labels r' ≡ some (dir r')
        → ((r' == root) && (va' / pgsize == heap / pgsize)) ≡ false
        → lookup_pa r' va' s' ≡ ok (pa_of (pte_at machine.mem r' va')) s')
user_vm_map-lookup_example =
    user_vm_map-lookup root heap used_page 3 machine-Space refl refl (omega arith) refl
      (omega arith) (omega arith) refl (omega arith) nothing_there

map_pages-Mapped_example :
    Mapped machine labels free_pages root heap
      (heap + pgsize)
      used_page
      7
      (map_pages root heap (2 * pgsize) used_page 7 machine)
map_pages-Mapped_example =
    map_pages-Mapped root heap (2 * pgsize) used_page 7 machine-Space refl (omega arith)
      (omega arith) (omega arith)

user_vm_unmap-user_vm_map_example :
    (s₁ s₂ : Phys) × (user_vm_map root heap pgsize used_page 0xD7 machine ≡ ok tt s₁)
    × (user_vm_unmap root heap pgsize true s₁ ≡ ok tt s₂)
    × (s₂.free_list ≡ used_page)
    × (lookup_pa root heap s₂ ≡ ok 0 s₂)
    × ((r' va' : ℕ)
        → va' < maxva
        → labels r' ≡ some (dir r')
        → ((r' == root) && (va' / pgsize == heap / pgsize)) ≡ false
        → lookup_pa r' va' s₂ ≡ ok (pa_of (pte_at machine.mem r' va')) s₂)
user_vm_unmap-user_vm_map_example =
    user_vm_unmap-user_vm_map root heap used_page 0xD7 pgsize true machine-Space refl refl
      (omega arith) (omega arith) (omega arith) refl refl refl (omega arith) nothing_there

-- The state after `user_vm_map` of that page.
mapping :
    (s' : Phys) × (lab' : Labels) × (xs' : List ℕ) × (p : ℕ) × MappedTo s' lab' xs' root heap
      used_page p
mapping =
    let (s', lab', xs', run, m, u) =
      user_vm_map-Remaps machine-Space root heap used_page 0xD7 refl refl (omega arith)
        (omega arith) (omega arith) nothing_there in
    let (p, t) =
      Remaps-MappedTo root heap used_page 0xD7 m refl refl (omega arith) (omega arith) (omega arith)
        refl refl refl in
    (s', lab', xs', p, t)

user_vm_unmap-release_example :
    (s' : Phys) × (user_vm_unmap root heap pgsize true mapping.0 ≡ ok tt s')
    × Space s' mapping.1 (used_page ∷ mapping.2)
    × (lookup_pa root heap s' ≡ ok 0 s')
    × ((r' va' : ℕ)
        → va' < maxva
        → mapping.1 r' ≡ some (dir r')
        → ((r' == root) && (va' / pgsize == heap / pgsize)) ≡ false
        → lookup_pa r' va' s' ≡ ok (pa_of (pte_at mapping.0.mem r' va')) s')
user_vm_unmap-release_example = user_vm_unmap-release mapping.4 pgsize true

user_vm_unmap-twice_example :
    (s' s'' : Phys) × (user_vm_unmap root heap pgsize true mapping.0 ≡ ok tt s')
    × (user_vm_unmap root heap pgsize true s' ≡ ok tt s'')
    × (pte_at s''.mem root heap ≡ pte_at mapping.0.mem root heap)
    × (s''.free_list ≡ used_page)
    × (s''.mem used_page ≡ used_page)
user_vm_unmap-twice_example = user_vm_unmap-twice mapping.4 pgsize true

page_walk-Walked_example :
    Walked machine labels free_pages root heap (page_walk root heap true machine)
page_walk-Walked_example = page_walk-Walked machine-Space root heap refl (omega arith)

user_vm_unmap-fault_example : user_vm_unmap root heap pgsize true machine ≡ fault
user_vm_unmap-fault_example =
    user_vm_unmap-fault root heap pgsize true machine-Space refl (omega arith) refl

lookup_pa-pte_at_example : lookup_pa root heap machine ≡ ok 0 machine
unfolding pte_at
lookup_pa-pte_at_example = lookup_pa-pte_at machine-Space root heap refl

user_va_to_pa-pte_at_example : user_va_to_pa root heap machine ≡ ok 0 machine
unfolding pte_at
user_va_to_pa-pte_at_example = user_va_to_pa-pte_at machine-Space root heap refl (omega arith)
