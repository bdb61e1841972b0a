-- ===== src/Vmm/Walk.antt =====
-- `page_walk` of kernel/vmm.c over well-formed spaces.
use mypkecode.Base.{
  ℕ, ◌+◌, ◌≤◌, ◌<◌, ◌≡◌, refl, ap, subst, Bool, true, false, Option, none, some, List, [], ◌∷◌,
  length, arith, Run, ok, Bool-cases, inl, inr, le→ltb, lt→leb,
}
use mypkecode.Base.Words.{has_bit}
use mypkecode.Phys.{pgsize, Memory, Phys, load, store, write}
use mypkecode.Pmm.Pages.{alloc_page-nil}
use mypkecode.Vmm.{pte_v, pte2pa, px, entry, maxva, new_table, next_table, walk_down, page_walk}
use mypkecode.Vmm.Space.{
  Label, dir, mid, leaf, child, Labels, below, leaf_table, Space, Grows, Grows-refl, Grows-trans,
}
use mypkecode.Vmm.Link.{linked, relabel, new_table-link, new_page, link_pte_lem, read_self}
use mypkecode.Vmm.Linked.{linked-Grows}

-- The outcome of one round: a table with label `c`, or none and no free page.
data Round (s : Phys) (lab : Labels) (xs : List ℕ) (p i : ℕ) (c : Label) (r : Run Phys (Option ℕ))
    : Type 0 where
  found :
      (q : ℕ) (s' : Phys) (lab' : Labels) (xs' : List ℕ)
      → r ≡ ok (some q) s'
      → Grows s lab xs s' lab' xs'
      → lab' q ≡ some c
      → below s'.mem (some p) i ≡ some q
      → length xs ≤ length xs' + 1
      → Round s lab xs p i c r
  full : r ≡ ok none s → xs ≡ [] → Round s lab xs p i c r

below-valid :
    (m : Memory) (p i : ℕ)
    → has_bit (m (entry p i)) pte_v ≡ true
    → below m (some p) i ≡ some (pte2pa (m (entry p i)))
below-valid m p i h = rw h

pub load-table :
    {s : Phys} {lab : Labels} {xs : List ℕ}
    → Space s lab xs
    → (p i : ℕ) (l : Label) → lab p ≡ some l
    → load (entry p i) s ≡ ok (s.mem (entry p i)) s
unfolding load
load-table sp p i l at = let a = sp.page p l at in rw (le→ltb (entry p i) pgsize (omega arith))

pub store-table :
    {s : Phys} {lab : Labels} {xs : List ℕ}
    → Space s lab xs
    → (p i : ℕ) (l : Label) → lab p ≡ some l
    → (v : ℕ) → store (entry p i) v s ≡ ok tt (record s { mem = write s.mem (entry p i) v })
unfolding store
store-table sp p i l at v = let a = sp.page p l at in rw (le→ltb (entry p i) pgsize (omega arith))

module _ {s : Phys} {lab : Labels} (p i : ℕ) {l c : Label} where
  Round-valid :
      (xs : List ℕ) (sp : Space s lab xs) (alloc : Bool)
      → lab p ≡ some l
      → child l i ≡ some c
      → i < 512
      → has_bit (s.mem (entry p i)) pte_v ≡ true
      → Round s lab xs p i c (next_table (entry p i) alloc s)
  unfolding next_table new_table
  Round-valid xs sp alloc at down hi v =
      found (pte2pa (s.mem (entry p i))) s lab xs (rw (load-table sp p i l at, v)) (Grows-refl sp)
        (sp.tables p i l c at down hi v) (below-valid s.mem p i v) (omega arith)

  Round-invalid :
      (xs : List ℕ) (sp : Space s lab xs)
      → lab p ≡ some l
      → child l i ≡ some c
      → i < 512
      → has_bit (s.mem (entry p i)) pte_v ≡ false
      → Round s lab xs p i c (next_table (entry p i) true s)
  unfolding next_table new_table
  Round-invalid [] sp at down hi v =
      full (rw (load-table sp p i l at, v, alloc_page-nil sp.pool)) refl
  Round-invalid (n ∷ xs) sp at down hi v =
      let a = new_page sp in
      let ptr = link_pte_lem n a.0 a.2 in
      found n (linked s n p i) (relabel lab n c) xs
        (rw (load-table sp p i l at, v) (new_table-link sp p i at down hi v))
        (linked-Grows sp p i at down hi v) (ground arith)
        (rw (read_self sp p i at down hi v, ptr.0, ptr.1)) (omega arith)

  round :
      (xs : List ℕ) (sp : Space s lab xs)
      → lab p ≡ some l
      → child l i ≡ some c
      → i < 512
      → Round s lab xs p i c (next_table (entry p i) true s)
  round xs sp at down hi = elim (Bool-cases (has_bit (s.mem (entry p i)) pte_v)) [
    | inl v ↦ Round-valid xs sp true at down hi v
    | inr v ↦ Round-invalid xs sp at down hi v
  ]

-- What `page_walk` with `alloc` gives: the entry of `va` in a labelled leaf table, or NULL when no
-- page is left; the address spaces are the same in both cases.
pub data Walked (s : Phys) (lab : Labels) (xs : List ℕ) (r va : ℕ) (run : Run Phys ℕ) : Type 0 where
  reached :
      (p : ℕ) (s' : Phys) (lab' : Labels) (xs' : List ℕ)
      → run ≡ ok (entry p (px 0 va)) s'
      → Grows s lab xs s' lab' xs'
      → lab' p ≡ some (leaf r (px 2 va) (px 1 va))
      → leaf_table s'.mem r va ≡ some p
      → length xs ≤ length xs' + 2
      → Walked s lab xs r va run
  exhausted :
      (s' : Phys) (lab' : Labels)
      → run ≡ ok 0 s'
      → Grows s lab xs s' lab' []
      → length xs ≤ 1
      → Walked s lab xs r va run

module _ {s : Phys} {lab : Labels} {xs : List ℕ} (sp : Space s lab xs) (r va : ℕ)
    (at : lab r ≡ some (dir r)) where
  second :
      (q : ℕ) (s₁ : Phys) (lab₁ : Labels) (xs₁ : List ℕ)
      → Grows s lab xs s₁ lab₁ xs₁
      → lab₁ q ≡ some (mid r (px 2 va))
      → below s₁.mem (some r) (px 2 va) ≡ some q
      → length xs ≤ length xs₁ + 1
      → Walked s lab xs r va (walk_down 1 q va true s₁)
  unfolding walk_down
  second q s₁ lab₁ xs₁ g lq b u = go (round q (px 1 va) xs₁ g.space lq refl (omega arith))
    where
      go :
          Round s₁ lab₁ xs₁ q
            (px 1 va)
            (leaf r (px 2 va) (px 1 va))
            (next_table (entry q (px 1 va)) true s₁)
          → Walked s lab xs r va (walk_down 1 q va true s₁)
      go (found t s₂ lab₂ xs₂ e h lt b₂ u₂) =
          reached t s₂ lab₂ xs₂ (rw e) (Grows-trans g h) lt
            (rw (h.keeps r (px 2 va) q (dir r) (g.extends r _ at) (omega arith) b) b₂) (omega arith)
      go (full e n) = exhausted s₁ lab₁ (rw e) (rw n at g) (ground (arith, ap (length {0}) n))

  -- In a well-formed set of spaces `page_walk` with `alloc`, of an address below `MAXVA`, returns
  -- either the entry of the address in a leaf table, with at most two pages taken, or NULL where
  -- no page is left. The spaces stay well formed and no address of any space is mapped otherwise
  -- than before.
  pub page_walk-Walked : va < maxva → Walked s lab xs r va (page_walk r va true s)
  unfolding page_walk walk_down
  page_walk-Walked small =
      rw (lt→leb maxva va small) (go (round r (px 2 va) xs sp at refl (omega arith)))
    where
      go :
          Round s lab xs r (px 2 va) (mid r (px 2 va)) (next_table (entry r (px 2 va)) true s)
          → Walked s lab xs r va (walk_down 2 r va true s)
      go (found q s₁ lab₁ xs₁ e g lq b u) = rw e (second q s₁ lab₁ xs₁ g lq b u)
      go (full e n) =
          exhausted s lab (rw e)
            (subst (λ (ys : List ℕ). Grows s lab xs s lab ys) n (Grows-refl sp))
            (ground (arith, ap (length {0}) n))
