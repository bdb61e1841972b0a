-- ===== src/Vmm/Space.antt =====
-- All page tables in memory at once: which page holds which table, and what an address maps to.
use mypkecode.Base.{
  ℕ, ◌*◌, ◌/◌, ◌%◌, ◌≤◌, ◌<◌, ◌≡◌, true, false, Option, none, some, List, has, if◌then◌else◌, refl,
  ◌∙◌, ap,
}
use mypkecode.Base.Words.{has_bit}
use mypkecode.Phys.{pgsize, Memory, Phys}
use mypkecode.Pmm.Chain.{FreeList}
use mypkecode.Vmm.{pte_v, pte2pa, px, entry}

-- The place of a table: the directory of an address space, which is named by its address, the table
-- below entry `i` of that, and the table below entry `j` of this.
pub data Label : Type 0 where
  dir : (r : ℕ) → Label
  mid : (r i : ℕ) → Label
  leaf : (r i j : ℕ) → Label

abbrev pub child : Label → ℕ → Option Label
child (dir r) i = some (mid r i)
child (mid r i) j = some (leaf r i j)
child (leaf r i j) k = none

abbrev pub Labels : Type 0
Labels = ℕ → Option Label

-- One level down from the table at `o`, reading only.
abbrev pub below : Memory → Option ℕ → ℕ → Option ℕ
below m none i = none
below m (some p) i = if has_bit (m (entry p i)) pte_v then some (pte2pa (m (entry p i))) else none

abbrev pub read : Memory → Option ℕ → ℕ → ℕ
read m none i = 0
read m (some p) i = m (entry p i)

-- The leaf table for `va` in the space with directory `r`.
abbrev pub leaf_table : Memory → (r va : ℕ) → Option ℕ
leaf_table m r va = below m (below m (some r) (px 2 va)) (px 1 va)

-- The abstract view of an address space: the leaf entry of each address, 0 where there is none.
unfoldable pub pte_at : Memory → (r va : ℕ) → ℕ
pte_at m r va = read m (leaf_table m r va) (px 0 va)

pub pte_at-read :
    (m : Memory) (r va p : ℕ) → leaf_table m r va ≡ some p → pte_at m r va ≡ m (entry p (px 0 va))
unfolding pte_at
pte_at-read m r va p e = ap (λ o. read m o (px 0 va)) e

-- Each page has at most one label, free pages have none, and valid entries of tables above the
-- leaves point to the tables with the right labels. So no two tables share a page, within a space
-- and between spaces.
pub record Space (s : Phys) (lab : Labels) (xs : List ℕ) : Type 0 where
  pub pool : FreeList s xs
  pub free : (p : ℕ) → has p xs ≡ true → lab p ≡ none
  pub page : (p : ℕ) (l : Label) → lab p ≡ some l → (p % pgsize ≡ 0) × (pgsize ≤ p)
  pub dirs : (p r : ℕ) → lab p ≡ some (dir r) → p ≡ r
  pub tables :
      (p i : ℕ) (l c : Label)
      → lab p ≡ some l
      → child l i ≡ some c
      → i < 512
      → has_bit (s.mem (entry p i)) pte_v ≡ true
      → lab (pte2pa (s.mem (entry p i))) ≡ some c

-- The bounds of the pool are as before.
abbrev pub SameBounds : Phys → Phys → Type 0
SameBounds s s' =
    (s'.free_mem_start_addr ≡ s.free_mem_start_addr) × (s'.free_mem_end_addr ≡ s.free_mem_end_addr)

-- How the tables may change when a walk allocates: labels are added, valid entries stay, no address
-- maps to anything else, and pages that are neither tables nor free are not written.
pub record Grows (s : Phys) (lab : Labels) (xs : List ℕ) (s' : Phys) (lab' : Labels) (xs' : List ℕ)
    : Type 0 where
  pub space : Space s' lab' xs'
  pub extends : (p : ℕ) (l : Label) → lab p ≡ some l → lab' p ≡ some l
  pub keeps :
      (p i q : ℕ) (l : Label)
      → lab p ≡ some l
      → i < 512
      → below s.mem (some p) i ≡ some q
      → below s'.mem (some p) i ≡ some q
  pub same : (r va : ℕ) → lab r ≡ some (dir r) → pte_at s'.mem r va ≡ pte_at s.mem r va
  pub apart : (p : ℕ) → lab p ≡ none → has p xs ≡ false → (lab' p ≡ none) × (has p xs' ≡ false)
  pub frame :
      (b : ℕ)
      → lab (b / pgsize * pgsize) ≡ none
      → has (b / pgsize * pgsize) xs ≡ false
      → s'.mem b ≡ s.mem b
  pub bounds : SameBounds s s'

pub Grows-refl : {s : Phys} {lab : Labels} {xs : List ℕ} → Space s lab xs → Grows s lab xs s lab xs
Grows-refl sp = record {
  space = sp;
  extends = λ p l h. h;
  keeps = λ p i q l h k e. e;
  same = λ r va h. refl;
  apart = λ p h k. (h, k);
  frame = λ b h k. refl;
  bounds = (refl, refl);
}

pub Grows-trans :
    {s s' s'' : Phys} {lab lab' lab'' : Labels} {xs xs' xs'' : List ℕ}
    → Grows s lab xs s' lab' xs'
    → Grows s' lab' xs' s'' lab'' xs''
    → Grows s lab xs s'' lab'' xs''
Grows-trans g h = record {
  space = h.space;
  extends = λ p l e. h.extends p l (g.extends p l e);
  keeps = λ p i q l e k b. h.keeps p i q l (g.extends p l e) k (g.keeps p i q l e k b);
  same = λ r va e. h.same r va (g.extends r (dir r) e) ∙ g.same r va e;
  apart = λ p e k. let (e', k') = g.apart p e k in h.apart p e' k';
  frame = λ b e k. let (e', k') = g.apart _ e k in h.frame b e' k' ∙ g.frame b e k;
  bounds = (h.bounds.0 ∙ g.bounds.0, h.bounds.1 ∙ g.bounds.1);
}
