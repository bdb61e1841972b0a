-- ===== src/Vmm/Release.antt =====
-- `user_vm_unmap` of kernel/vmm.c on a mapped page, once and twice.
use mypkecode.Base.{
  ℕ, ◌+◌, ◌-◌, ◌*◌, ◌/◌, ◌%◌, ◌^◌, ◌<◌, ◌≡◌, ◌≢◌, refl, ◌∙◌, ap, sym, Bool, true, false, List, ◌∷◌,
  ◌==◌, ◌&&◌, not, has, arith, ok, lt→leb, some, none, bit_xor,
}
use mypkecode.Base.Words.{has_bit, bit_xor-one}
use mypkecode.Phys.{pgsize, Phys}
use mypkecode.Phys.Laws.{write_self, write_ne, load-ok, store-ok, write-write_comm}
use mypkecode.Pmm.{rejected}
use mypkecode.Pmm.Pages.{freed, free_page-accepted}
use mypkecode.Vmm.{pte_v, pte2pa, px, entry, maxva, user_vm_unmap, lookup_pa}
use mypkecode.Vmm.Space.{dir, leaf, Labels, leaf_table, pte_at, pte_at-read, Space}
use mypkecode.Vmm.Lookup.{pa_of, lookup_pa-pte_at, page_walk-slot, leaf_table-label}
use mypkecode.Vmm.Mapping.{stored, leaf_table-stored, stored-Space, stored-pte_at}
use mypkecode.Vmm.Walk.{load-table}
use mypkecode.Vmm.Outside.{pte_at-outside}
use mypkecode.Vmm.Unmap.{
  target, flipped, user_vm_unmap-run, unmapped-Space, unmapped-pte_at, Space-freed, there_freed,
}

-- A page of a space that is mapped to the page `pa` of the pool, which holds no table and is not
-- free. `p` is the leaf table.
pub record MappedTo (s : Phys) (lab : Labels) (xs : List ℕ) (r va pa p : ℕ) : Type 0 where
  pub space : Space s lab xs
  pub root : lab r ≡ some (dir r)
  pub low : va < maxva
  pub aligned : va % pgsize ≡ 0
  pub there : leaf_table s.mem r va ≡ some p
  pub valid : has_bit (pte_at s.mem r va) pte_v ≡ true
  pub points : pte2pa (pte_at s.mem r va) ≡ pa
  pub pooled : rejected s pa ≡ false
  pub in_use : has pa xs ≡ false
  pub bare : lab pa ≡ none

-- Flipping the valid bit leaves the address of an entry, and is its own inverse.
flip_lem :
    (e : ℕ)
    → (pte2pa (bit_xor e (2 ^ pte_v)) ≡ pte2pa e)
      × (has_bit (bit_xor e (2 ^ pte_v)) pte_v ≡ not (has_bit e pte_v))
      × (bit_xor (bit_xor e (2 ^ pte_v)) (2 ^ pte_v) ≡ e)
flip_lem e =
    rw (bit_xor-one e, bit_xor-one (e / 2 * 2 + (1 - e % 2)))
      (ground arith, ground arith, ground arith)

module _ {s : Phys} {lab : Labels} {xs : List ℕ} {r va pa p : ℕ}
    (m : MappedTo s lab xs r va pa p) where
  aim : target va (pte_at s.mem r va) ≡ pa
  aim = ground (arith, m.points, m.aligned)

  abbrev after : Phys
  after = stored (freed s pa) (entry p (px 0 va)) (bit_xor (pte_at s.mem r va) (2 ^ pte_v))

  after_run : (size : ℕ) (free : Bool) → user_vm_unmap r va size free s ≡ ok tt after
  after_run = user_vm_unmap-run r va p m.space m.root m.low m.there pa aim m.pooled m.in_use m.bare

  after-Space : Space after lab (pa ∷ xs)
  after-Space = unmapped-Space r va p m.space m.root m.low m.there pa aim m.pooled m.in_use m.bare

  after_entries :
      (r' va' : ℕ)
      → va' < maxva
      → lab r' ≡ some (dir r')
      → pte_at after.mem r' va' ≡ flipped s r va r' va'
  after_entries =
      unmapped-pte_at r va p m.space m.root m.low m.there pa aim m.pooled m.in_use m.bare

  after_here : pte_at after.mem r va ≡ bit_xor (pte_at s.mem r va) (2 ^ pte_v)
  after_here = after_entries r va m.low m.root ∙ ground arith

  -- `user_vm_unmap` of an aligned address that is mapped to a page of the pool which is neither
  -- free nor a table puts that page at the head of the free list, keeps the spaces well formed,
  -- makes `lookup_pa` give 0 for the address, and leaves every other page of every space where it
  -- was.
  pub user_vm_unmap-release :
      (size : ℕ) (free : Bool)
      → (s' : Phys) × (user_vm_unmap r va size free s ≡ ok tt s')
        × Space s' lab (pa ∷ xs)
        × (lookup_pa r va s' ≡ ok 0 s')
        × ((r' va' : ℕ)
            → va' < maxva
            → lab r' ≡ some (dir r')
            → ((r' == r) && (va' / pgsize == va / pgsize)) ≡ false
            → lookup_pa r' va' s' ≡ ok (pa_of (pte_at s.mem r' va')) s')
  user_vm_unmap-release size free =
      let gone : has_bit (pte_at after.mem r va) pte_v ≡ false =
        rw after_here ((flip_lem (pte_at s.mem r va)).1 ∙ ap not m.valid) in
      (
        after,
        after_run size free,
        after-Space,
        lookup_pa-pte_at after-Space r va m.root
            ∙ ap (λ v. ok v after) (rw (lt→leb maxva va m.low) (ground (arith, gone))),
        λ r' va' hva' dir' other.
            let same : pte_at after.mem r' va' ≡ pte_at s.mem r' va' =
              after_entries r' va' hva' dir' ∙ rw other refl in
            lookup_pa-pte_at after-Space r' va' dir'
            ∙ ap (λ v. ok v after) (rw (lt→leb maxva va' hva') (ap pa_of same)),
      )

  there_after : leaf_table after.mem r va ≡ some p
  there_after =
      leaf_table-stored
        (Space-freed r va p m.space m.root m.low m.there pa aim m.pooled m.in_use m.bare) p
        (px 0 va) _ (leaf_table-label m.space r va m.root p m.there) (omega arith) r va m.root
      ∙ there_freed r va p m.space m.root m.low m.there pa aim m.pooled m.in_use m.bare

  lp : lab p ≡ some (leaf r (px 2 va) (px 1 va))
  lp = leaf_table-label m.space r va m.root p m.there

  -- No entry of the leaf table lies in the page that is freed.
  apart : entry p (px 0 va) ≢ pa
  apart h =
      let a = m.space.page p _ lp in let q : pa ≡ p = ground arith in cc (ap lab q, lp, m.bare)

  abbrev again : Phys
  again = stored (freed after pa) (entry p (px 0 va)) (pte_at s.mem r va)

  entry_after : after.mem (entry p (px 0 va)) ≡ bit_xor (pte_at s.mem r va) (2 ^ pte_v)
  entry_after = sym (pte_at-read after.mem r va p there_after) ∙ after_here

  entry-freed : (freed after pa).mem (entry p (px 0 va)) ≡ bit_xor (pte_at s.mem r va) (2 ^ pte_v)
  entry-freed =
      write_ne after.mem pa after.free_list (entry p (px 0 va)) (λ h. apart (sym h)) ∙ entry_after

  aim_again : target va (bit_xor (pte_at s.mem r va) (2 ^ pte_v)) ≡ pa
  aim_again = rw ((flip_lem (pte_at s.mem r va)).0) aim

  again_run : (size : ℕ) (free : Bool) → user_vm_unmap r va size free after ≡ ok tt again
  unfolding user_vm_unmap
  again_run size free =
      let a = m.space.page p _ lp in
      rw
        (
          page_walk-slot after-Space r va m.root m.low,
          there_after,
          load-table after-Space p (px 0 va) _ lp,
          entry_after,
          aim_again,
          free_page-accepted after pa m.space.pool.above_null m.pooled,
          load-ok (entry p (px 0 va)) (freed after pa) (omega arith),
          entry-freed,
          (flip_lem (pte_at s.mem r va)).2,
        )
        (store-ok (entry p (px 0 va)) (pte_at s.mem r va) (freed after pa) (omega arith))

  again_here : pte_at again.mem r va ≡ pte_at s.mem r va
  again_here =
      let q : pa / pgsize * pgsize ≡ pa = ground (arith, m.pooled) in
      let back = stored-Space after-Space p (px 0 va) (pte_at s.mem r va) lp (omega arith) in
      ap (λ mem. pte_at mem r va)
        (write-write_comm after.mem pa pa (entry p (px 0 va)) (pte_at s.mem r va)
          (λ h. apart (sym h)))
      ∙ pte_at-outside back pa pa (ap lab q ∙ m.bare) r va m.root
      ∙ stored-pte_at after-Space p (px 0 va) (pte_at s.mem r va) lp (omega arith) va m.low
          there_after m.root refl r va m.low m.root
      ∙ ground arith

  -- A second `user_vm_unmap` of the same mapped page is not refused: it puts the physical page on
  -- the free list again, whose first page then leads to itself, and makes the entry as it was
  -- before the first one.
  pub user_vm_unmap-twice :
      (size : ℕ) (free : Bool)
      → (s' s'' : Phys) × (user_vm_unmap r va size free s ≡ ok tt s')
        × (user_vm_unmap r va size free s' ≡ ok tt s'')
        × (pte_at s''.mem r va ≡ pte_at s.mem r va)
        × (s''.free_list ≡ pa)
        × (s''.mem pa ≡ pa)
  user_vm_unmap-twice size free = (
    after,
    again,
    after_run size free,
    again_run size free,
    again_here,
    refl,
    write_ne (freed after pa).mem (entry p (px 0 va)) (pte_at s.mem r va) pa apart
        ∙ write_self after.mem pa pa,
  )
