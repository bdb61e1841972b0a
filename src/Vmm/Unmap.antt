-- ===== src/Vmm/Unmap.antt =====
-- `user_vm_unmap` of kernel/vmm.c.
use mypkecode.Base.{
  ℕ, ◌+◌, ◌*◌, ◌/◌, ◌%◌, ◌^◌, ◌<◌, ◌≡◌, refl, ◌∙◌, ap, sym, Bool, true, false, List, ◌∷◌, ◌==◌,
  ◌&&◌, has, arith, ok, panic, fault, if◌then◌else◌, none, some, bit_xor,
}
use mypkecode.Base.Words.{u64}
use mypkecode.Phys.{pgsize, Phys, load}
use mypkecode.Pmm.{rejected}
use mypkecode.Pmm.Pages.{freed, free_page-cons, free_page-panic}
use mypkecode.Vmm.{pte_v, pte2pa, px, entry, maxva, user_vm_unmap}
use mypkecode.Vmm.Space.{dir, leaf, Labels, leaf_table, pte_at, pte_at-read, Space}
use mypkecode.Vmm.Lookup.{page_walk-slot, leaf_table-label}
use mypkecode.Vmm.Mapping.{stored, stored-Space, stored-pte_at}
use mypkecode.Vmm.Walk.{load-table, store-table}
use mypkecode.Vmm.Outside.{freed-Space, pte_at-outside, leaf_table-outside}

-- The physical address that `user_vm_unmap` frees for a leaf entry `e`.
abbrev pub target : (va e : ℕ) → ℕ
target va e = u64 (pte2pa e + va % 2 ^ 12)

-- In a well-formed set of spaces `user_vm_unmap` of an address below `MAXVA` without a leaf table
-- reads through the NULL pointer.
pub user_vm_unmap-fault :
    {s : Phys} {lab : Labels} {xs : List ℕ} (r va size : ℕ) (free : Bool)
    → Space s lab xs
    → lab r ≡ some (dir r)
    → va < maxva
    → leaf_table s.mem r va ≡ none
    → user_vm_unmap r va size free s ≡ fault
unfolding user_vm_unmap load
user_vm_unmap-fault r va size free sp at small none_there =
    rw (page_walk-slot sp r va at small, none_there)

-- Where the entry's address is no page of the pool, `free_page` stops the kernel: so for an entry
-- that was never set, and for an address that is not page-aligned.
pub user_vm_unmap-panic :
    {s : Phys} {lab : Labels} {xs : List ℕ} (r va size p : ℕ) (free : Bool)
    → Space s lab xs
    → lab r ≡ some (dir r)
    → va < maxva
    → leaf_table s.mem r va ≡ some p
    → rejected s (target va (pte_at s.mem r va)) ≡ true
    → user_vm_unmap r va size free s ≡ panic
unfolding user_vm_unmap
user_vm_unmap-panic {s} r va size p free sp at small there bad =
    let lp = leaf_table-label sp r va at p there in
    let e : pte_at s.mem r va ≡ s.mem (entry p (px 0 va)) = pte_at-read s.mem r va p there in
    rw (
      page_walk-slot sp r va at small,
      there,
      load-table sp p (px 0 va) _ lp,
      ← e,
      free_page-panic s _ bad,
    )

-- What the entries are then: the valid bit of one is flipped.
abbrev pub flipped : Phys → (r va : ℕ) → ℕ → ℕ → ℕ
flipped s r va r' va' =
    if (r' == r) && (va' / pgsize == va / pgsize)
    then bit_xor (pte_at s.mem r va) (2 ^ pte_v)
    else pte_at s.mem r' va'

module _ {s : Phys} {lab : Labels} {xs : List ℕ} (r va p : ℕ) (sp : Space s lab xs)
    (at : lab r ≡ some (dir r)) (small : va < maxva) (there : leaf_table s.mem r va ≡ some p)
    (pa : ℕ) (epa : target va (pte_at s.mem r va) ≡ pa) (good : rejected s pa ≡ false)
    (out : has pa xs ≡ false) (bare : lab pa ≡ none) where
  lp : lab p ≡ some (leaf r (px 2 va) (px 1 va))
  lp = leaf_table-label sp r va at p there

  same_page : lab (pa / pgsize * pgsize) ≡ none
  same_page = let q : pa / pgsize * pgsize ≡ pa = ground arith in ap lab q ∙ bare

  pub Space-freed : Space (freed s pa) lab (pa ∷ xs)
  Space-freed = freed-Space sp pa good out bare

  pub there_freed : leaf_table (freed s pa).mem r va ≡ some p
  there_freed = leaf_table-outside sp pa s.free_list same_page r va at ∙ there

  entry-freed : (freed s pa).mem (entry p (px 0 va)) ≡ pte_at s.mem r va
  entry-freed =
      sym (pte_at-read (freed s pa).mem r va p there_freed)
      ∙ pte_at-outside sp pa s.free_list same_page r va at

  pub user_vm_unmap-run :
      (size : ℕ) (free : Bool)
      → user_vm_unmap r va size free s
        ≡ ok tt (stored (freed s pa) (entry p (px 0 va)) (bit_xor (pte_at s.mem r va) (2 ^ pte_v)))
  unfolding user_vm_unmap
  user_vm_unmap-run size free =
      let e1 = pte_at-read s.mem r va p there in
      rw (
        page_walk-slot sp r va at small,
        there,
        load-table sp p (px 0 va) _ lp,
        ← e1,
        epa,
        (free_page-cons sp.pool pa good out).0,
        load-table Space-freed p (px 0 va) _ lp,
        entry-freed,
        store-table Space-freed p (px 0 va) _ lp,
      )

  pub unmapped-Space :
      Space
        (stored (freed s pa) (entry p (px 0 va)) (bit_xor (pte_at s.mem r va) (2 ^ pte_v)))
        lab
        (pa ∷ xs)
  unmapped-Space = stored-Space Space-freed p (px 0 va) _ lp (omega arith)

  pub unmapped-pte_at :
      (r' va' : ℕ)
      → va' < maxva
      → lab r' ≡ some (dir r')
      → pte_at
          (stored (freed s pa) (entry p (px 0 va)) (bit_xor (pte_at s.mem r va) (2 ^ pte_v))).mem
          r'
          va'
        ≡ flipped s r va r' va'
  unmapped-pte_at r' va' hva' at' =
      stored-pte_at Space-freed p (px 0 va) _ lp (omega arith) va small there_freed at refl r' va'
        hva' at'
      ∙ ap
          (λ v.
            if (r' == r) && (va' / pgsize == va / pgsize)
            then bit_xor (pte_at s.mem r va) (2 ^ pte_v)
            else v)
          (pte_at-outside sp pa s.free_list same_page r' va' at')
