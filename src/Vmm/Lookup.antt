-- ===== src/Vmm/Lookup.antt =====
-- `page_walk` without `alloc`, `lookup_pa` and `user_va_to_pa` of kernel/vmm.c read the tables and
-- change nothing.
use mypkecode.Base.{
  ℕ, ◌+◌, ◌%◌, ◌^◌, ◌<◌, ◌≡◌, refl, false, not, ◌&&◌, ◌||◌, Option, none, some, List, ◌==◌,
  if◌then◌else◌, arith, ok, Bool-cases, Option-cases, inl, inr, leb, lt→leb,
}
use mypkecode.Base.Words.{has_bit, u64}
use mypkecode.Phys.{Phys}
use mypkecode.Vmm.{
  pte_v, pte_r, pte_w, pte2pa, px, entry, maxva, next_table, walk_down, page_walk, lookup_pa,
  user_va_to_pa,
}
use mypkecode.Vmm.Space.{Label, dir, mid, leaf, child, Labels, below, leaf_table, pte_at, Space}
use mypkecode.Vmm.Walk.{load-table}

abbrev pub slot : ℕ → Option ℕ → ℕ
slot va none = 0
slot va (some p) = entry p (px 0 va)

-- The address that `lookup_pa` gives for a leaf entry: 0 unless it is valid and readable or writable.
abbrev pub pa_of : ℕ → ℕ
pa_of e =
    if not (has_bit e pte_v) || (not (has_bit e pte_r) && not (has_bit e pte_w))
    then 0
    else pte2pa e

-- The value of `user_va_to_pa` at a leaf entry `e`, if there is a leaf table.
abbrev pub located : (va e : ℕ) → Option ℕ → ℕ
located va e none = 0
located va e (some p) = u64 (pte2pa e + va % 2 ^ 12)

module _ {s : Phys} {lab : Labels} {xs : List ℕ} (sp : Space s lab xs) where
  next_table-below :
      (p i : ℕ) (l : Label)
      → lab p ≡ some l
      → next_table (entry p i) false s ≡ ok (below s.mem (some p) i) s
  unfolding next_table
  next_table-below p i l at = rw (load-table sp p i l at) (ground arith)

  pub below-label :
      (p i q : ℕ) (l c : Label)
      → lab p ≡ some l
      → child l i ≡ some c
      → i < 512
      → below s.mem (some p) i ≡ some q
      → lab q ≡ some c
  below-label p i q l c at down hi b = ground (arith, sp.tables p i l c at down hi)

  module _ (r va : ℕ) (at : lab r ≡ some (dir r)) where
    pub leaf_table-label :
        (p : ℕ) → leaf_table s.mem r va ≡ some p → lab p ≡ some (leaf r (px 2 va) (px 1 va))
    leaf_table-label p e = elim (Option-cases (below s.mem (some r) (px 2 va))) [
      | inl n ↦ absurd (cc (rw n at e))
      | inr (q, b) ↦
          let lq = below-label r (px 2 va) q (dir r) _ at refl (omega arith) b in
          below-label q (px 1 va) p (mid r (px 2 va)) _ lq refl (omega arith) (rw b at e)
    ]

    pub page_walk-slot :
        va < maxva → page_walk r va false s ≡ ok (slot va (leaf_table s.mem r va)) s
    unfolding page_walk walk_down
    page_walk-slot small =
        rw (lt→leb maxva va small, next_table-below r (px 2 va) (dir r) at)
          (elim (Option-cases (below s.mem (some r) (px 2 va))) [
            | inl n ↦ rw n
            | inr (q, b) ↦
                let lq = below-label r (px 2 va) q (dir r) _ at refl (omega arith) b in
                rw (b, next_table-below q (px 1 va) (mid r (px 2 va)) lq) (ground arith)
          ])

    -- In a well-formed set of spaces `lookup_pa` changes nothing and gives the page of the leaf
    -- entry of the address where that is valid and readable or writable, and 0 otherwise and from
    -- `MAXVA` on.
    pub lookup_pa-pte_at :
        lookup_pa r va s ≡ ok (if leb maxva va then 0 else pa_of (pte_at s.mem r va)) s
    unfolding lookup_pa pte_at
    lookup_pa-pte_at = elim (Bool-cases (leb maxva va)) [
      | inl big ↦ rw big
      | inr small ↦
          let lt : va < maxva = ground arith in
          rw (small, page_walk-slot lt)
            (elim (Option-cases (leaf_table s.mem r va)) [
              | inl n ↦ rw n
              | inr (p, b) ↦
                  let lp = leaf_table-label p b in
                  let a = sp.page p _ lp in
                  let nz : (entry p (px 0 va) == 0) ≡ false = ground arith in
                  rw b (rw (nz, load-table sp p (px 0 va) _ lp) (ground arith))
            ])
    ]

    -- In a well-formed set of spaces `user_va_to_pa` of an address below `MAXVA` changes nothing
    -- and gives 0 where no leaf table is, and else the page of the leaf entry with the offset
    -- added, whether the entry is valid or not.
    pub user_va_to_pa-pte_at :
        va < maxva
        → user_va_to_pa r va s ≡ ok (located va (pte_at s.mem r va) (leaf_table s.mem r va)) s
    unfolding user_va_to_pa pte_at
    user_va_to_pa-pte_at lt = rw (page_walk-slot lt) (elim (Option-cases (leaf_table s.mem r va)) [
      | inl n ↦ rw n
      | inr (p, b) ↦
          let lp = leaf_table-label p b in
          let a = sp.page p _ lp in
          let nz : (entry p (px 0 va) == 0) ≡ false = ground arith in
          rw b (rw (nz, load-table sp p (px 0 va) _ lp) refl)
    ])
