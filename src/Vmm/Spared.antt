-- ===== src/Vmm/Spared.antt =====
-- A change of memory that spares every page table and the first words of the free pages leaves all
-- address spaces alone.
use mypkecode.Base.{
  ℕ, ◌*◌, ◌/◌, ◌<◌, ◌≡◌, ◌≢◌, refl, ◌∙◌, ap, sym, true, false, Option, none, some, List, has, arith,
  Option-cases, inl, inr,
}
use mypkecode.Phys.{pgsize, Memory, Phys}
use mypkecode.Pmm.Chain.{IsChain-frame, chain-range}
use mypkecode.Vmm.{px, entry}
use mypkecode.Vmm.Space.{Label, dir, mid, Labels, below, read, leaf_table, pte_at, Space}
use mypkecode.Vmm.Lookup.{below-label, leaf_table-label}

abbrev pub with_memory : Phys → Memory → Phys
with_memory s m' = record s { mem = m' }

module _ {s : Phys} {lab : Labels} {xs : List ℕ} (sp : Space s lab xs) (m' : Memory)
    (table_entry : (q h : ℕ) (l : Label)
      → lab q ≡ some l
      → h < 512
      → m' (entry q h) ≡ s.mem (entry q h)) where
  below-mid :
      (o : Option ℕ) (h c d : ℕ)
      → ((q : ℕ) → o ≡ some q → lab q ≡ some (mid c d))
      → h < 512
      → below m' o h ≡ below s.mem o h
  below-mid none h c d l hh = refl
  below-mid (some q) h c d l hh = rw (table_entry q h _ (l q refl) hh)

  pub leaf_table-spared :
      (r va : ℕ) → lab r ≡ some (dir r) → leaf_table m' r va ≡ leaf_table s.mem r va
  leaf_table-spared r va at =
      let first : below m' (some r) (px 2 va) ≡ below s.mem (some r) (px 2 va) =
        rw (table_entry r (px 2 va) _ at (omega arith)) in
      ap (λ o. below m' o (px 1 va)) first
      ∙ below-mid (below s.mem (some r) (px 2 va)) (px 1 va) r (px 2 va)
          (λ q e. below-label sp r (px 2 va) q (dir r) _ at refl (omega arith) e) (omega arith)

  pub pte_at-spared : (r va : ℕ) → lab r ≡ some (dir r) → pte_at m' r va ≡ pte_at s.mem r va
  unfolding pte_at
  pte_at-spared r va at =
      ap (λ o. read m' o (px 0 va)) (leaf_table-spared r va at)
      ∙ (elim (Option-cases (leaf_table s.mem r va)) [
        | inl e ↦ ap (λ o. read m' o (px 0 va)) e ∙ sym (ap (λ o. read s.mem o (px 0 va)) e)
        | inr (p, e) ↦
            ap (λ o. read m' o (px 0 va)) e
            ∙ table_entry p (px 0 va) _ (leaf_table-label sp r va at p e) (omega arith)
            ∙ sym (ap (λ o. read s.mem o (px 0 va)) e)
      ])

  pub spared-Space : ((x : ℕ) → has x xs ≡ true → m' x ≡ s.mem x) → Space (with_memory s m') lab xs
  spared-Space first = record {
    pool = record {
      above_null = sp.pool.above_null;
      fits = sp.pool.fits;
      chain = IsChain-frame s.mem m' _ _ _ xs sp.pool.chain first;
    };
    free = sp.free;
    page = sp.page;
    dirs = sp.dirs;
    tables = λ q h l c hq hc hh valid.
        let e = table_entry q h l hq hh in rw e (sp.tables q h l c hq hc hh (rw e at valid));
  }

-- A change within one page that holds no table and is not free.
module _ {s : Phys} {lab : Labels} {xs : List ℕ} (sp : Space s lab xs) (m' : Memory) (pa : ℕ)
    (within : (b : ℕ) → b / pgsize * pgsize ≢ pa → m' b ≡ s.mem b) (bare : lab pa ≡ none)
    (out : has pa xs ≡ false) where
  pub page-entry :
      (q h : ℕ) (l : Label) → lab q ≡ some l → h < 512 → m' (entry q h) ≡ s.mem (entry q h)
  page-entry q h l hq hh =
      let a = sp.page q l hq in
      within (entry q h) λ e. let same : pa ≡ q = omega arith in cc (ap lab same, hq, bare)

  pub page-Space : Space (with_memory s m') lab xs
  page-Space = spared-Space sp m' page-entry λ x i.
      let r = chain-range s.mem _ _ s.free_list xs sp.pool.chain x i in
      within x
        λ e. let same : x ≡ pa = omega (arith, r.0, e) in cc (ap (λ y. has y xs) same, i, out)
