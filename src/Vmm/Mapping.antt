-- ===== src/Vmm/Mapping.antt =====
-- `map_pages` of kernel/vmm.c for one page: the abstract map gets one new entry.
use mypkecode.Base.{
  ℕ, ◌/◌, ◌<◌, ◌≡◌, ◌≢◌, refl, ◌∙◌, ap, sym, false, ◌&&◌, Option, none, some, List, ◌==◌, has,
  if◌then◌else◌, arith, Bool-cases, Option-cases, inl, inr,
}
use mypkecode.Phys.{pgsize, Memory, Phys, write}
use mypkecode.Phys.Laws.{write_self, write_ne}
use mypkecode.Pmm.Chain.{IsChain-write, chain-range}
use mypkecode.Vmm.{px, entry, maxva}
use mypkecode.Vmm.Space.{
  Label, dir, mid, leaf, child, Labels, below, read, leaf_table, pte_at, Space,
}
use mypkecode.Vmm.Link.{entry_eq}
use mypkecode.Vmm.Lookup.{leaf_table-label, below-label}

abbrev pub stored : Phys → (a v : ℕ) → Phys
stored s a v = record s { mem = write s.mem a v }

-- Two addresses below `MAXVA` lie in the same page just if they have the same three indices.
pub page_eq :
    (va va' : ℕ)
    → va < maxva
    → va' < maxva
    → px 2 va ≡ px 2 va'
    → px 1 va ≡ px 1 va'
    → px 0 va ≡ px 0 va'
    → va / pgsize ≡ va' / pgsize
page_eq va va' h h' e2 e1 e0 = omega arith

pub px_eq :
    (va va' : ℕ)
    → va / pgsize ≡ va' / pgsize
    → (px 2 va ≡ px 2 va') × (px 1 va ≡ px 1 va') × (px 0 va ≡ px 0 va')
px_eq va va' e = (omega arith, omega arith, omega arith)

-- The abstract map is one entry for a page.
pub pte_at-page :
    (m : Memory) (r va va' : ℕ) → va / pgsize ≡ va' / pgsize → pte_at m r va ≡ pte_at m r va'
unfolding pte_at
pte_at-page m r va va' e = let (e2, e1, e0) = px_eq va va' e in rw (e2, e1, e0)

pub leaf_table-page :
    (m : Memory) (r va va' : ℕ)
    → va / pgsize ≡ va' / pgsize
    → leaf_table m r va ≡ leaf_table m r va'
leaf_table-page m r va va' e = let (e2, e1, e0) = px_eq va va' e in rw (e2, e1)

-- A write into a leaf table.
module _ {s : Phys} {lab : Labels} {xs : List ℕ} (sp : Space s lab xs) (p k v : ℕ) {r i j : ℕ}
    (at : lab p ≡ some (leaf r i j)) (hk : k < 512) where
  abbrev m' : Memory
  m' = write s.mem (entry p k) v

  table_entry :
      (q h : ℕ) (l c : Label) (g : ℕ)
      → lab q ≡ some l
      → child l g ≡ some c
      → h < 512
      → m' (entry q h) ≡ s.mem (entry q h)
  table_entry q h l c g hq hc hh =
      let a = sp.page p _ at in
      let b = sp.page q l hq in
      write_ne s.mem (entry p k) v (entry q h)
        (λ e. let (pq, kh) = entry_eq p q k h a.0 b.0 hk hh e in ground (arith, ap lab pq))

  below-stored :
      (q h : ℕ) (l c : Label) (g : ℕ)
      → lab q ≡ some l
      → child l g ≡ some c
      → h < 512
      → below m' (some q) h ≡ below s.mem (some q) h
  below-stored q h l c g hq hc hh = rw (table_entry q h l c g hq hc hh)

  below-mid :
      (o : Option ℕ) (h a b : ℕ)
      → ((q : ℕ) → o ≡ some q → lab q ≡ some (mid a b))
      → h < 512
      → below m' o h ≡ below s.mem o h
  below-mid none h a b l hh = refl
  below-mid (some q) h a b l hh = below-stored q h (mid a b) (leaf a b 0) 0 (l q refl) refl hh

  pub leaf_table-stored :
      (r' va : ℕ) → lab r' ≡ some (dir r') → leaf_table m' r' va ≡ leaf_table s.mem r' va
  leaf_table-stored r' va at' =
      let first = below-stored r' (px 2 va) (dir r') (mid r' 0) 0 at' refl (omega arith) in
      ap (λ o. below m' o (px 1 va)) first
      ∙ below-mid (below s.mem (some r') (px 2 va)) (px 1 va) r' (px 2 va)
          (λ q e. below-label sp r' (px 2 va) q (dir r') _ at' refl (omega arith) e) (omega arith)

  not_free : has (entry p k) xs ≡ false
  not_free = elim (Bool-cases (has (entry p k) xs)) [
    | inl e ↦
        let a = sp.page p _ at in
        let g = chain-range s.mem _ _ _ xs sp.pool.chain (entry p k) e in
        let same : entry p k ≡ p = omega arith in
        absurd (ground (arith, ap lab same, sp.free (entry p k) e))
    | inr e ↦ e
  ]

  pub stored-Space : Space (stored s (entry p k) v) lab xs
  stored-Space = record {
    pool = record {
      above_null = sp.pool.above_null;
      fits = sp.pool.fits;
      chain = IsChain-write s.mem _ _ _ xs (entry p k) v sp.pool.chain not_free;
    };
    free = sp.free;
    page = sp.page;
    dirs = sp.dirs;
    tables = λ q h l c hq hc hh valid.
        let e = table_entry q h l c h hq hc hh in rw e (sp.tables q h l c hq hc hh (rw e at valid));
  }

  other :
      (va : ℕ)
      → va < maxva
      → leaf_table s.mem r va ≡ some p
      → lab r ≡ some (dir r)
      → k ≡ px 0 va
      → (r' va' : ℕ) → va' < maxva
      → lab r' ≡ some (dir r')
      → ((r' == r) && (va' / pgsize == va / pgsize)) ≡ false
      → read m' (leaf_table s.mem r' va') (px 0 va')
        ≡ read s.mem (leaf_table s.mem r' va') (px 0 va')
  other va hva lt at_r ek r' va' hva' at' miss = elim (Option-cases (leaf_table s.mem r' va')) [
    | inl x ↦ ap (λ o. read m' o (px 0 va')) x ∙ sym (ap (λ o. read s.mem o (px 0 va')) x)
    | inr (q, x) ↦
        let lp = leaf_table-label sp r va at_r p lt in
        let lq = leaf_table-label sp r' va' at' q x in
        let a = sp.page p _ at in
        let b = sp.page q _ lq in
        let ne : entry p k ≢ entry q (px 0 va') = λ e.
          let (pq, kk) = entry_eq p q k (px 0 va') a.0 b.0 hk (omega arith) e in
          let same = ap lab pq in
          let er : r' ≡ r = cc in
          let e2 : px 2 va' ≡ px 2 va = cc in
          let e1 : px 1 va' ≡ px 1 va = cc in
          let ev = page_eq va' va hva' hva e2 e1 (omega arith) in ground arith in
        ap (λ o. read m' o (px 0 va')) x
        ∙ write_ne s.mem (entry p k) v (entry q (px 0 va')) ne
        ∙ sym (ap (λ o. read s.mem o (px 0 va')) x)
  ]

  -- The entry that is written is that of just one page of just one space.
  pub stored-pte_at :
      (va : ℕ)
      → va < maxva
      → leaf_table s.mem r va ≡ some p
      → lab r ≡ some (dir r)
      → k ≡ px 0 va
      → (r' va' : ℕ) → va' < maxva
      → lab r' ≡ some (dir r')
      → pte_at m' r' va'
        ≡ (if (r' == r) && (va' / pgsize == va / pgsize) then v else pte_at s.mem r' va')
  unfolding pte_at
  stored-pte_at va hva lt at_r ek r' va' hva' at' =
      let stay = ap (λ o. read m' o (px 0 va')) (leaf_table-stored r' va' at') in
      elim (Bool-cases ((r' == r) && (va' / pgsize == va / pgsize))) [
        | inl hit ↦
            let er : r' ≡ r = ground arith in
            let e = px_eq va' va (ground arith) in
            let path : leaf_table s.mem r' va' ≡ some p = rw (er, e.0, e.1) lt in
            rw hit (
              stay
              ∙ ap (λ o. read m' o (px 0 va')) path
              ∙ ap (λ h. m' (entry p h)) (e.2 ∙ sym ek)
              ∙ write_self s.mem (entry p k) v)
        | inr miss ↦ rw miss (stay ∙ other va hva lt at_r ek r' va' hva' at' miss)
      ]
