-- ===== src/Vmm/RoundTrip.antt =====
-- `user_vm_unmap` after `user_vm_map` (kernel/vmm.c).
use mypkecode.Base.{
  ℕ, ◌+◌, ◌/◌, ◌%◌, ◌^◌, ◌≤◌, ◌<◌, ◌≡◌, refl, ◌∙◌, ap, Bool, true, false, List, ◌==◌, ◌&&◌, has,
  length, arith, ok, some, none, Option-cases, inl, inr,
}
use mypkecode.Base.Words.{has_bit}
use mypkecode.Phys.{pgsize, Memory, Phys}
use mypkecode.Pmm.{rejected}
use mypkecode.Vmm.{pte_v, px, maxva, user_vm_map, user_vm_unmap, leaf_pte, lookup_pa}
use mypkecode.Vmm.Space.{dir, Labels, leaf_table, read, pte_at, Space}
use mypkecode.Vmm.Lookup.{pa_of}
use mypkecode.Vmm.MapLoop.{Remaps}
use mypkecode.Vmm.Perm.{leaf_pte_fields}
use mypkecode.Vmm.User.{mapped_at, user_vm_map-Remaps}
use mypkecode.Vmm.Release.{MappedTo, user_vm_unmap-release}

-- A valid entry has a leaf table.
valid-table :
    (m : Memory) (r va : ℕ)
    → has_bit (pte_at m r va) pte_v ≡ true
    → (p : ℕ) × (leaf_table m r va ≡ some p)
unfolding pte_at
valid-table m r va v = elim (Option-cases (leaf_table m r va)) [
  | inl e ↦
      absurd (zero_bit (read m (leaf_table m r va) (px 0 va)) (ap (λ o. read m o (px 0 va)) e) v)
  | inr pe ↦ pe
]
  where
    zero_bit : (e : ℕ) → e ≡ 0 → ¬ (has_bit e pte_v ≡ true)
    zero_bit e z h = ground arith

-- What a mapping of one page leaves behind is a mapped page.
pub Remaps-MappedTo :
    {s s' : Phys} {lab lab' : Labels} {xs xs' : List ℕ} (r va pa perm : ℕ)
    → Remaps s lab xs s' lab' xs' (mapped_at s r va pa perm)
    → lab r ≡ some (dir r)
    → va % pgsize ≡ 0
    → va < maxva
    → perm < 1024
    → pa < 2 ^ 61
    → rejected s pa ≡ false
    → has pa xs ≡ false
    → lab pa ≡ none
    → (p : ℕ) × MappedTo s' lab' xs' r va pa p
Remaps-MappedTo {s} {s'} r va pa perm m at al small hp low good out bare =
    let here : pte_at s'.mem r va ≡ leaf_pte pa perm = m.entries r va small at ∙ ground arith in
    let f = leaf_pte_fields pa perm hp (omega arith) in
    let valid : has_bit (pte_at s'.mem r va) pte_v ≡ true = rw here f.0 in
    let (p, e) = valid-table s'.mem r va valid in
    let (bare', out') = m.apart pa bare out in
    (
      p,
      record {
        space = m.space;
        root = m.extends r _ at;
        low = small;
        aligned = al;
        there = e;
        valid = valid;
        points = rw here (f.1 ∙ ground (arith, good));
        pooled = rw (m.bounds.0, m.bounds.1) good;
        in_use = out';
        bare = bare';
      },
    )

-- In a well-formed set of address spaces with two pages free, let a page of the pool that is
-- neither free nor a table be mapped by `user_vm_map` at an aligned page below `MAXVA` that is not
-- mapped, and unmapped by `user_vm_unmap`: both succeed, the physical page is the first free page
-- afterwards, `lookup_pa` gives 0 for the address, and finds every other page of every space where
-- it was before.
pub user_vm_unmap-user_vm_map :
    {s : Phys} {lab : Labels} {xs : List ℕ} (r va pa perm size : ℕ) (free : Bool)
    → Space s lab xs
    → lab r ≡ some (dir r)
    → va % pgsize ≡ 0
    → va + pgsize ≤ maxva
    → perm < 1024
    → pa < 2 ^ 61
    → rejected s pa ≡ false
    → has pa xs ≡ false
    → lab pa ≡ none
    → 2 ≤ length xs
    → has_bit (pte_at s.mem r va) pte_v ≡ false
    → (s₁ s₂ : Phys) × (user_vm_map r va pgsize pa perm s ≡ ok tt s₁)
      × (user_vm_unmap r va size free s₁ ≡ ok tt s₂)
      × (s₂.free_list ≡ pa)
      × (lookup_pa r va s₂ ≡ ok 0 s₂)
      × ((r' va' : ℕ)
          → va' < maxva
          → lab r' ≡ some (dir r')
          → ((r' == r) && (va' / pgsize == va / pgsize)) ≡ false
          → lookup_pa r' va' s₂ ≡ ok (pa_of (pte_at s.mem r' va')) s₂)
user_vm_unmap-user_vm_map {s} r va pa perm size free sp at al small hp low good out bare enough
      fresh =
    let (s₁, lab₁, xs₁, run, m, u) =
      user_vm_map-Remaps sp r va pa perm at al small low enough fresh in
    let (p, mt) = Remaps-MappedTo r va pa perm m at al (omega arith) hp low good out bare in
    let (s₂, run₂, sp₂, zero_there, others) = user_vm_unmap-release mt size free in
    (
      s₁,
      s₂,
      run,
      run₂,
      sp₂.pool.chain.0,
      zero_there,
      λ r' va' hva' dir' other.
          let same : pte_at s₁.mem r' va' ≡ pte_at s.mem r' va' =
            m.entries r' va' hva' dir' ∙ rw other refl in
          others r' va' hva' (m.extends r' _ dir') other ∙ ap (λ e. ok (pa_of e) s₂) same,
    )
