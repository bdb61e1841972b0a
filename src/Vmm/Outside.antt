-- ===== src/Vmm/Outside.antt =====
-- Writes to pages that hold no table leave all address spaces alone; `free_page` is one of them.
use mypkecode.Base.{ℕ, ◌*◌, ◌/◌, ◌<◌, ◌≡◌, ◌∙◌, ap, false, none, some, List, ◌∷◌, has, arith}
use mypkecode.Phys.{pgsize, Memory, Phys, write}
use mypkecode.Phys.Laws.{write_ne}
use mypkecode.Pmm.{rejected}
use mypkecode.Pmm.Pages.{freed, free_page-cons}
use mypkecode.Vmm.{entry}
use mypkecode.Vmm.Space.{Label, dir, Labels, leaf_table, pte_at, Space}
use mypkecode.Vmm.Mapping.{stored}
use mypkecode.Vmm.Spared.{leaf_table-spared, pte_at-spared, spared-Space}

module _ {s : Phys} {lab : Labels} {xs : List ℕ} (sp : Space s lab xs) (b v : ℕ)
    (bare : lab (b / pgsize * pgsize) ≡ none) where
  abbrev m' : Memory
  m' = write s.mem b v

  table_entry :
      (q h : ℕ) (l : Label) → lab q ≡ some l → h < 512 → m' (entry q h) ≡ s.mem (entry q h)
  table_entry q h l hq hh =
      let a = sp.page q l hq in
      write_ne s.mem b v (entry q h)
        λ e. let same : b / pgsize * pgsize ≡ q = omega arith in cc (ap lab same, hq, bare)

  pub leaf_table-outside :
      (r va : ℕ) → lab r ≡ some (dir r) → leaf_table m' r va ≡ leaf_table s.mem r va
  leaf_table-outside = leaf_table-spared sp m' table_entry

  pub pte_at-outside : (r va : ℕ) → lab r ≡ some (dir r) → pte_at m' r va ≡ pte_at s.mem r va
  pte_at-outside = pte_at-spared sp m' table_entry

  pub outside-Space : has b xs ≡ false → Space (stored s b v) lab xs
  unfolding write
  outside-Space out = spared-Space sp m' table_entry λ x i. ground arith

-- A page that holds no table and is not free can be freed: the spaces stay well formed.
pub freed-Space :
    {s : Phys} {lab : Labels} {xs : List ℕ}
    → Space s lab xs
    → (pa : ℕ) → rejected s pa ≡ false
    → has pa xs ≡ false
    → lab pa ≡ none
    → Space (freed s pa) lab (pa ∷ xs)
freed-Space {s} {lab} {xs} sp pa h out bare =
    let same : pa / pgsize * pgsize ≡ pa = ground arith in
    let o = outside-Space sp pa s.free_list (ap lab same ∙ bare) out in
    record {
      pool = (free_page-cons sp.pool pa h out).1;
      free = λ p e. ground (arith, sp.free p, ap lab, bare);
      page = o.page;
      dirs = o.dirs;
      tables = o.tables;
    }
