-- ===== src/Vmm/User.antt =====
-- `user_vm_map` of kernel/vmm.c for one page, and what `lookup_pa` and `user_va_to_pa` find then.
use mypkecode.Base.{
  ℕ, ◌+◌, ◌-◌, ◌*◌, ◌/◌, ◌%◌, ◌^◌, ◌≤◌, ◌<◌, ◌≡◌, refl, ◌∙◌, ap, Bool, true, false, List, ◌==◌,
  ◌||◌, ◌&&◌, length, arith, ok, lt→leb, if◌then◌else◌, Option, none, some,
}
use mypkecode.Base.Words.{has_bit, u64}
use mypkecode.Phys.{pgsize, Memory, Phys}
use mypkecode.Vmm.{
  pte_v, pte_r, pte_w, pte2pa, px, maxva, map_pages, user_vm_map, leaf_pte, prot_to_type, lookup_pa,
  user_va_to_pa,
}
use mypkecode.Vmm.Space.{Label, dir, Labels, leaf_table, read, pte_at, Space}
use mypkecode.Vmm.Lookup.{pa_of, located, lookup_pa-pte_at, user_va_to_pa-pte_at}
use mypkecode.Vmm.Mapping.{pte_at-page}
use mypkecode.Vmm.MapLoop.{Remaps, remap, Mapped, done, full, clash}
use mypkecode.Vmm.MapPages.{map_pages-Mapped}
use mypkecode.Vmm.Perm.{leaf_pte_fields, prot_to_type-Grants}

-- The abstract map after the page at `va` of the space at `r` is mapped to `pa`.
abbrev pub mapped_at : Phys → (r va pa perm : ℕ) → ℕ → ℕ → ℕ
mapped_at s r va pa perm r' va' =
    if (r' == r) && (va' / pgsize == va / pgsize) then leaf_pte pa perm else pte_at s.mem r' va'

or_widen : (a b c : Bool) → (a || b) ≡ true → ((a || c) || b) ≡ true
or_widen true b c h = refl
or_widen false true true h = refl
or_widen false true false h = refl
or_widen false false c h = cc

one_page :
    (s : Phys) (r va pa perm r' va' : ℕ)
    → va % pgsize ≡ 0
    → remap s.mem r
        (va / pgsize * pgsize)
        ((va + pgsize - 1) / pgsize * pgsize + pgsize)
        pa
        perm
        r'
        va'
      ≡ mapped_at s r va pa perm r' va'
one_page s r va pa perm r' va' al = ground arith

module _ {s : Phys} {lab : Labels} {xs : List ℕ} (sp : Space s lab xs) (r va pa perm : ℕ)
    (at : lab r ≡ some (dir r)) (al : va % pgsize ≡ 0) (small : va + pgsize ≤ maxva)
    (low : pa < 2 ^ 61) where
  -- With two pages free and the entry invalid, mapping one page succeeds, and it changes that
  -- page's entry alone.
  pub user_vm_map-Remaps :
      2 ≤ length xs
      → has_bit (pte_at s.mem r va) pte_v ≡ false
      → (s' : Phys) × (lab' : Labels) × (xs' : List ℕ) × (user_vm_map r va pgsize pa perm s
          ≡ ok tt s')
        × Remaps s lab xs s' lab' xs' (mapped_at s r va pa perm)
        × (length xs ≤ length xs' + 2)
  unfolding user_vm_map
  user_vm_map-Remaps enough free =
      go (map_pages-Mapped r va pgsize pa perm sp at (omega arith) small (omega arith))
    where
      go :
          Mapped s lab xs r
            (va / pgsize * pgsize)
            ((va + pgsize - 1) / pgsize * pgsize)
            pa
            perm
            (map_pages r va pgsize pa perm s)
          → (s' : Phys) × (lab' : Labels) × (xs' : List ℕ) × (user_vm_map r va pgsize pa perm s
              ≡ ok tt s')
            × Remaps s lab xs s' lab' xs' (mapped_at s r va pa perm)
            × (length xs ≤ length xs' + 2)
      go (done s' lab' xs' e m u) = (
        s',
        lab',
        xs',
        rw e,
        record {
          space = m.space;
          extends = m.extends;
          apart = m.apart;
          frame = m.frame;
          bounds = m.bounds;
          entries =
              λ r' va' hva' at'. m.entries r' va' hva' at' ∙ one_page s r va pa perm r' va' al;
        },
        omega arith,
      )
      go (full s' lab' end e ge lte ale m u) = absurd (omega arith)
      go (clash va' i v e) = absurd (ground (arith, pte_at-page s.mem r va va'))

located-valid :
    (m : Memory) (o : Option ℕ) (k va e : ℕ)
    → has_bit (read m o k) pte_v ≡ true
    → located va e o ≡ u64 (pte2pa e + va % pgsize)
located-valid m none k va e v = cc
located-valid m (some p) k va e v = refl

-- A valid entry that can be read or written has a leaf table, and the two lookups give its page.
module _ {s : Phys} {lab : Labels} {xs : List ℕ} (sp : Space s lab xs) (r va pa : ℕ)
    (at : lab r ≡ some (dir r)) (small : va < maxva) (low : pa < 2 ^ 61)
    (valid : has_bit (pte_at s.mem r va) pte_v ≡ true)
    (page : pte2pa (pte_at s.mem r va) ≡ pa) where
  pub user_va_to_pa-mapped : user_va_to_pa r va s ≡ ok (pa + va % pgsize) s
  unfolding pte_at
  user_va_to_pa-mapped =
      user_va_to_pa-pte_at sp r va at small
      ∙ ap (λ v. ok v s)
          (located-valid s.mem (leaf_table s.mem r va) (px 0 va) va (pte_at s.mem r va) valid
            ∙ ground arith)

  pub lookup_pa-mapped :
      (has_bit (pte_at s.mem r va) pte_r || has_bit (pte_at s.mem r va) pte_w) ≡ true
      → lookup_pa r va s ≡ ok pa s
  lookup_pa-mapped rw_bits = lookup_pa-pte_at sp r va at ∙ ap (λ v. ok v s) (ground arith)

-- What the two lookups find where the entries are those of `mapped_at`.
pub mapped-lookups :
    (s : Phys) {s' : Phys} {lab lab' : Labels} {xs' : List ℕ} (r va pa prot : ℕ)
    → Space s' lab' xs'
    → ((p : ℕ) (l : Label) → lab p ≡ some l → lab' p ≡ some l)
    → ((r' va' : ℕ)
        → va' < maxva
        → lab r' ≡ some (dir r')
        → pte_at s'.mem r' va' ≡ mapped_at s r va pa (prot_to_type prot true) r' va')
    → lab r ≡ some (dir r)
    → va % pgsize ≡ 0
    → va + pgsize ≤ maxva
    → pa % pgsize ≡ 0
    → pa < 2 ^ 61
    → prot < 8
    → (has_bit prot 0 || has_bit prot 1) ≡ true
    → (lookup_pa r va s' ≡ ok pa s')
      × ((off : ℕ) → off < pgsize → user_va_to_pa r (va + off) s' ≡ ok (pa + off) s')
      × ((r' va' : ℕ)
          → va' < maxva
          → lab r' ≡ some (dir r')
          → ((r' == r) && (va' / pgsize == va / pgsize)) ≡ false
          → lookup_pa r' va' s' ≡ ok (pa_of (pte_at s.mem r' va')) s')
mapped-lookups s {s'} r va pa prot space extends entries at al small alp low hp can =
    let perm = prot_to_type prot true in
    let g = prot_to_type-Grants prot true hp in
    let f = leaf_pte_fields pa perm g.0 (omega arith) in
    let at' = extends r _ at in
    let here : pte_at s'.mem r va ≡ leaf_pte pa perm =
      entries r va (omega arith) at ∙ ground arith in
    let there : (off : ℕ) → off < pgsize → pte_at s'.mem r (va + off) ≡ leaf_pte pa perm =
      λ off h. pte_at-page s'.mem r (va + off) va (omega arith) ∙ here in
    (
      lookup_pa-mapped space r va pa at' (omega arith) low (rw here f.0)
          (rw here (f.1 ∙ omega arith))
          (rw (here, f.2, f.3, g.1, g.2)
            (or_widen (has_bit prot 0) (has_bit prot 1) (prot == 0) can)),
      λ off h.
          user_va_to_pa-mapped space r (va + off) pa at' (omega arith) low (rw (there off h) f.0)
            (rw (there off h) (f.1 ∙ omega arith))
          ∙ ap (λ v. ok v s') (omega arith),
      λ r' va' hva' dir' other.
          let same : pte_at s'.mem r' va' ≡ pte_at s.mem r' va' =
            entries r' va' hva' dir' ∙ rw other refl in
          lookup_pa-pte_at space r' va' (extends r' _ dir')
          ∙ ap (λ v. ok v s') (rw (lt→leb maxva va' hva') (ap pa_of same)),
    )

-- In a well-formed set of address spaces with two pages free, mapping an aligned page below
-- `MAXVA` that is not mapped to an aligned physical page below 2^61, readable or writable,
-- succeeds; then `lookup_pa` finds the physical page, `user_va_to_pa` the address for every offset
-- in the page, and `lookup_pa` finds every other page of every space where it was before.
pub user_vm_map-lookup :
    {s : Phys} {lab : Labels} {xs : List ℕ} (r va pa prot : ℕ)
    → Space s lab xs
    → lab r ≡ some (dir r)
    → va % pgsize ≡ 0
    → va + pgsize ≤ maxva
    → pa % pgsize ≡ 0
    → pa < 2 ^ 61
    → prot < 8
    → (has_bit prot 0 || has_bit prot 1) ≡ true
    → 2 ≤ length xs
    → has_bit (pte_at s.mem r va) pte_v ≡ false
    → (s' : Phys) × (user_vm_map r va pgsize pa (prot_to_type prot true) s ≡ ok tt s')
      × (lookup_pa r va s' ≡ ok pa s')
      × ((off : ℕ) → off < pgsize → user_va_to_pa r (va + off) s' ≡ ok (pa + off) s')
      × ((r' va' : ℕ)
          → va' < maxva
          → lab r' ≡ some (dir r')
          → ((r' == r) && (va' / pgsize == va / pgsize)) ≡ false
          → lookup_pa r' va' s' ≡ ok (pa_of (pte_at s.mem r' va')) s')
user_vm_map-lookup {s} r va pa prot sp at al small alp low hp can enough free =
    let (s', lab', xs', run, m, u) =
      user_vm_map-Remaps sp r va pa (prot_to_type prot true) at al small low enough free in
    let (found, offsets, others) =
      mapped-lookups s r va pa prot m.space m.extends m.entries at al small alp low hp can in
    (s', run, found, offsets, others)
