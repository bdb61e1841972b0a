-- ===== src/Vmm/Linked.antt =====
-- A new table keeps the spaces well formed, and no address maps to anything else.
use mypkecode.Base.{
  ℕ, ◌*◌, ◌/◌, ◌<◌, ◌≡◌, ◌≢◌, ◌⊎◌, refl, ◌∙◌, ap, sym, true, false, Option, none, some, List, ◌∷◌,
  ◌==◌, has, arith, Bool-cases, inl, inr, ==_iff,
}
use mypkecode.Base.Words.{has_bit}
use mypkecode.Phys.{pgsize, Memory, Phys}
use mypkecode.Pmm.Chain.{FreeList, IsChain-frame, chain-range}
use mypkecode.Pmm.Pages.{alloc_page-cons}
use mypkecode.Vmm.{pte_v, pte2pa, px, entry}
use mypkecode.Vmm.Space.{Label, dir, mid, leaf, child, Labels, below, read, pte_at, Space, Grows}
use mypkecode.Vmm.Link.{
  link_pte_lem, entry_eq, link_mem, linked, relabel, new_page, read_new, read_old, read_self,
}

child-ne-dir : (l c : Label) (i r : ℕ) → child l i ≡ some c → c ≢ dir r
child-ne-dir l c i r = ground arith

child-ne-leaf : (l c : Label) (i r j a : ℕ) → child l i ≡ some c → l ≢ leaf r j a
child-ne-leaf l c i r j a = ground arith

module _ {s : Phys} {lab : Labels} {n : ℕ} {xs : List ℕ} (sp : Space s lab (n ∷ xs)) (p i : ℕ)
    {l c : Label} (at : lab p ≡ some l) (down : child l i ≡ some c) (hi : i < 512)
    (invalid : has_bit (s.mem (entry p i)) pte_v ≡ false) where
  abbrev m' : Memory
  m' = link_mem s.mem n p i

  abbrev lab' : Labels
  lab' = relabel lab n c

  -- An entry of an old table is the linked one, or as it was.
  old_entry :
      (q k : ℕ) (l' : Label)
      → lab q ≡ some l'
      → k < 512
      → ((q ≡ p) × (k ≡ i)) ⊎ ((entry q k ≢ entry p i) × (m' (entry q k) ≡ s.mem (entry q k)))
  old_entry q k l' hq hk =
      let a = new_page sp in
      let b = sp.page p l at in
      let d = sp.page q l' hq in
      let other : q ≢ n = λ e. cc (a.4, ap lab e) in
      elim (Bool-cases (entry q k == entry p i)) [
        | inl e ↦ inl (entry_eq q p k i d.0 b.0 hk hi ((==_iff _ _).0 e))
        | inr e ↦
            let ne : entry q k ≢ entry p i = ground arith in
            inr (ne, read_old sp p i at down hi invalid (entry q k) ne (λ h. other (omega arith)))
      ]

  labels_extend : (q : ℕ) (l' : Label) → lab q ≡ some l' → lab' q ≡ some l'
  labels_extend q l' h = let a = new_page sp in ground (arith, a.4)

  linked_free : FreeList (linked s n p i) xs
  linked_free =
      let rest = (alloc_page-cons sp.pool).1 in
      record {
        above_null = rest.above_null;
        fits = rest.fits;
        chain = IsChain-frame s.mem m' _ _ _ xs rest.chain λ x e.
            let g = chain-range s.mem _ _ _ xs rest.chain x e in
            let a = new_page sp in
            let b = sp.page p l at in
            let old : lab x ≡ none = sp.free x (ground arith) in
            let ne : x ≢ p = λ h. cc (at, ap lab h) in
            let out : x ≢ n = λ h. cc (a.3, ap (λ (y : ℕ). has y xs) h) in
            read_old sp p i at down hi invalid x (λ h. ne (omega arith)) (λ h. out (omega arith));
      }

  linked_tables :
      (q k : ℕ) (l' c' : Label)
      → lab' q ≡ some l'
      → child l' k ≡ some c'
      → k < 512
      → has_bit (m' (entry q k)) pte_v ≡ true
      → lab' (pte2pa (m' (entry q k))) ≡ some c'
  linked_tables q k l' c' hq hc hk valid = elim (Bool-cases (n == q)) [
    | inl e ↦
        let z = read_new sp p i at down hi invalid k hk in
        let e' = (==_iff n q).0 e in
        let z' : m' (entry q k) ≡ 0 = ap (λ x. m' (entry x k)) (sym e') ∙ z in absurd (ground arith)
    | inr e ↦
        let a = new_page sp in
        let hq' : lab q ≡ some l' = ground arith in
        let ptr = link_pte_lem n a.0 a.2 in
        elim (old_entry q k l' hq' hk) [
          | inl o ↦
              let w = read_self sp p i at down hi invalid in
              let same : some c ≡ some c' = cc (o.0, o.1) in rw (o.0, o.1, w, ptr.1) (ground arith)
          | inr o ↦
              let t = sp.tables q k l' c' hq' hc hk (rw o.1 at valid) in
              rw o.1 (labels_extend _ c' t)
        ]
  ]

  linked-Space : Space (linked s n p i) lab' xs
  linked-Space = record {
    pool = linked_free;
    free = λ q h.
        let a = new_page sp in
        let o : lab q ≡ none = sp.free q (ground arith) in
        ground (arith, a.3, ap (λ (y : ℕ). has y xs));
    page = λ q l' h. ground (arith, new_page sp, sp.page q l');
    dirs = λ q r h. ground (arith, sp.dirs q r, child-ne-dir l c i r);
    tables = linked_tables;
  }

  -- One level down in the old memory and in the new one: the same table, no table, or the new and
  -- empty table where there was none.
  data Sim (o o' : Option ℕ) (d : Label) : Type 0 where
    gone : o ≡ none → o' ≡ none → Sim o o' d
    both : (q : ℕ) → o ≡ some q → o' ≡ some q → lab q ≡ some d → Sim o o' d
    fresh : o ≡ none → o' ≡ some n → Sim o o' d

  Sim-below :
      (o o' : Option ℕ) (d d' : Label) (k : ℕ)
      → child d k ≡ some d'
      → k < 512
      → Sim o o' d
      → Sim (below s.mem o k) (below m' o' k) d'
  Sim-below o o' d d' k hc hk (gone e e') = gone (rw e) (rw e')
  Sim-below o o' d d' k hc hk (fresh e e') =
      let z = read_new sp p i at down hi invalid k hk in gone (rw e) (rw (e', z))
  Sim-below o o' d d' k hc hk (both q e e' hq) = elim (old_entry q k d hq hk) [
    | inl w ↦
        let a = new_page sp in
        let ptr = link_pte_lem n a.0 a.2 in
        fresh (rw (e, w.0, w.1, invalid))
          (rw (e', w.0, w.1, read_self sp p i at down hi invalid, ptr.0, ptr.1))
    | inr w ↦ elim (Bool-cases (has_bit (s.mem (entry q k)) pte_v)) [
      | inl v ↦ both _ (rw (e, v)) (rw (e', w.1, v)) (sp.tables q k d d' hq hc hk v)
      | inr v ↦ gone (rw (e, v)) (rw (e', w.1, v))
    ]
  ]

  Sim-read :
      (o o' : Option ℕ) (r j a k : ℕ)
      → k < 512
      → Sim o o' (leaf r j a)
      → read m' o' k ≡ read s.mem o k
  Sim-read o o' r j a k hk (gone e e') = rw (e, e')
  Sim-read o o' r j a k hk (fresh e e') = rw (e, e') (read_new sp p i at down hi invalid k hk)
  Sim-read o o' r j a k hk (both q e e' hq) = elim (old_entry q k _ hq hk) [
    | inl w ↦
        let same : l ≡ leaf r j a = cc (ap lab w.0) in absurd (child-ne-leaf l c i r j a down same)
    | inr w ↦ rw (e, e') w.1
  ]

  linked-pte_at : (r va : ℕ) → lab r ≡ some (dir r) → pte_at m' r va ≡ pte_at s.mem r va
  unfolding pte_at
  linked-pte_at r va h = Sim-read _ _ r (px 2 va) (px 1 va) (px 0 va) (omega arith) (
      Sim-below _ _ (mid r (px 2 va)) _ (px 1 va) refl (omega arith)
        (Sim-below _ _ (dir r) _ (px 2 va) refl (omega arith) (both r refl refl h)))

  -- `new_table` at an invalid entry of a table that is not a leaf, with a free page at hand.
  pub linked-Grows : Grows s lab (n ∷ xs) (linked s n p i) lab' xs
  linked-Grows = record {
    space = linked-Space;
    extends = labels_extend;
    keeps = λ q k t l' hq hk e. elim (old_entry q k l' hq hk) [
      | inl w ↦ let z : below s.mem (some q) k ≡ none = rw (w.0, w.1, invalid) in cc (z, e)
      | inr w ↦ rw w.1 e
    ];
    same = linked-pte_at;
    apart = λ q h k. ground arith;
    frame = λ b h k.
        let a = sp.page p l at in
        let ne : b / pgsize * pgsize ≢ p = λ e. cc (ap lab e, at, h) in
        read_old sp p i at down hi invalid b (λ e. ne (omega arith)) (λ e. ground (arith, e));
    bounds = (refl, refl);
  }
