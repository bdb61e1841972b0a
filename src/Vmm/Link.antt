-- ===== src/Vmm/Link.antt =====
-- A table is added below an invalid entry: what `new_table` of kernel/vmm.c does to all spaces.
use mypkecode.Base.{
  ℕ, ◌+◌, ◌*◌, ◌/◌, ◌%◌, ◌^◌, ◌≤◌, ◌<◌, ◌≡◌, ◌≢◌, ◌∙◌, ap, true, false, none, some, List, ◌∷◌, ◌==◌,
  has, if◌then◌else◌, arith, bit_or, ok,
}
use mypkecode.Base.Words.{has_bit, bit_or-one}
use mypkecode.Phys.{pgsize, Memory, Phys, write, clear, store, memset_zero}
use mypkecode.Phys.Laws.{clear_in, write_ne, write_self}
use mypkecode.Pmm.Pages.{taken, alloc_page-cons}
use mypkecode.Vmm.{pte_v, pa2pte, pte2pa, entry, new_table}
use mypkecode.Vmm.Space.{Label, child, Labels, Space}

-- What a link writes into the entry.
unfoldable pub link_pte : ℕ → ℕ
link_pte n = bit_or (pa2pte n) (2 ^ pte_v)

pub link_pte_lem :
    (n : ℕ)
    → n % pgsize ≡ 0
    → n < 2 ^ 63
    → (has_bit (link_pte n) pte_v ≡ true) × (pte2pa (link_pte n) ≡ n)
unfolding link_pte
link_pte_lem n al small =
    let e : bit_or (pa2pte n) (2 ^ pte_v) ≡ pa2pte n / 2 * 2 + 1 = bit_or-one (pa2pte n) in
    rw e (ground arith, omega arith)

-- Entries of different places do not overlap.
pub entry_eq :
    (p q i k : ℕ)
    → p % pgsize ≡ 0
    → q % pgsize ≡ 0
    → i < 512
    → k < 512
    → entry p i ≡ entry q k
    → (p ≡ q) × (i ≡ k)
entry_eq p q i k hp hq hi hk e = (omega arith, omega arith)

pub link_mem : Memory → (n p i : ℕ) → Memory
link_mem m n p i = write (clear m n pgsize) (entry p i) (link_pte n)

abbrev pub linked : Phys → (n p i : ℕ) → Phys
linked s n p i = record (taken s) { mem = link_mem s.mem n p i }

abbrev pub relabel : Labels → ℕ → Label → Labels
relabel lab n c q = if n == q then some c else lab q

module _ {s : Phys} {lab : Labels} {n : ℕ} {xs : List ℕ} (sp : Space s lab (n ∷ xs)) where
  pub new_page :
      (n % pgsize ≡ 0) × (pgsize ≤ n) × (n < 2 ^ 63) × (has n xs ≡ false) × (lab n ≡ none)
  new_page =
      let c = sp.pool.chain in
      let lo = sp.pool.above_null in
      let hi = sp.pool.fits in (c.1, omega arith, omega arith, c.4, sp.free n (ground arith))

  module _ (p i : ℕ) {l c : Label} (at : lab p ≡ some l) (down : child l i ≡ some c) (hi : i < 512)
      (invalid : has_bit (s.mem (entry p i)) pte_v ≡ false) where
    pub n_ne_p : n ≢ p
    n_ne_p e = let a = new_page in cc (ap lab e, a.4)

    pub new_table-link : new_table (entry p i) s ≡ ok (some n) (linked s n p i)
    unfolding new_table link_mem store memset_zero link_pte
    new_table-link =
        let a = new_page in
        let b = sp.page p l at in rw ((alloc_page-cons sp.pool).0) (ground arith)

    -- The new table reads as zeros.
    pub read_new : (k : ℕ) → k < 512 → link_mem s.mem n p i (entry n k) ≡ 0
    unfolding link_mem
    read_new k hk =
        let a = new_page in
        let b = sp.page p l at in
        write_ne _ (entry p i) _ (entry n k) (λ e. n_ne_p (omega arith))
        ∙ clear_in s.mem n pgsize (entry n k) (omega arith) (omega arith)

    -- Outside the new page only the linked entry changes.
    pub read_old :
        (b : ℕ) → b ≢ entry p i → b / pgsize * pgsize ≢ n → link_mem s.mem n p i b ≡ s.mem b
    unfolding link_mem clear
    read_old b ne out =
        let a = new_page in write_ne _ (entry p i) _ b (λ e. ne (omega arith)) ∙ ground arith

    pub read_self : link_mem s.mem n p i (entry p i) ≡ link_pte n
    unfolding link_mem
    read_self = write_self _ _ _
