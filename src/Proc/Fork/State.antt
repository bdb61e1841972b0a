-- ===== src/Proc/Fork/State.antt =====
-- The state of the loop of `do_fork` (kernel/process.c) and what a part of it may change.
use mypkecode.Base.{
  ℕ, ◌+◌, ◌*◌, ◌/◌, ◌^◌, ◌≤◌, ◌<◌, ◌≡◌, ◌≢◌, refl, ◌∙◌, ap, Bool, true, false, ◌&&◌, ◌||◌, List, [],
  ◌++◌, has, length, length-append, ◌==◌, arith,
}
use mypkecode.Phys.{pgsize}
use mypkecode.Vmm.Space.{Labels, SameBounds}
use mypkecode.Vmm.Built.{Built}
use mypkecode.Kernel.{Process, Kernel}
use mypkecode.Proc.Created.{HoldsRegions, HoldsRegions-same, HoldsRegions-append}

-- The kernel with the abstract view of its memory: labels, free pages, pages that are no tables, and
-- the entries of the spaces.
pub record Forking : Type 0 where
  pub k : Kernel
  pub lab : Labels
  pub xs : List ℕ
  pub own : List ℕ
  pub f : ℕ → ℕ → ℕ

module _ (roots : ℕ → Bool) (p c ppt pinfo pt info : ℕ) where
  -- The parent `p` and the child `c` with their directories and tables of regions.
  pub record Ready (s : Forking) (total : ℕ) : Type 0 where
    pub built : Built s.k.phys s.lab s.xs s.own roots s.f
    pub parent_pagetable : (s.k.procs p).pagetable ≡ ppt
    pub parent_info : (s.k.procs p).mapped_info ≡ pinfo
    pub child_pagetable : (s.k.procs c).pagetable ≡ pt
    pub child_info : (s.k.procs c).mapped_info ≡ info
    pub child_total : (s.k.procs c).total_mapped_region ≡ total
    pub low : s.k.phys.free_mem_end_addr ≤ 2 ^ 61
    pub mine : has info s.own ≡ true
    pub theirs : has pinfo s.own ≡ true

  -- The child's space changes in the pages that `cov` holds of, its table gets the regions `rs`
  -- from `total` on, and `need` free pages are enough. Other pages keep what they hold.
  pub record Step (s t : Forking) (cov : ℕ → Bool) (rs : List (ℕ × ℕ × ℕ)) (total need : ℕ)
      : Type 0 where
    pub built : Built t.k.phys t.lab t.xs t.own roots t.f
    pub grows : (q : ℕ) → has q s.own ≡ true → has q t.own ≡ true
    pub kept :
        (a : ℕ)
        → has (a / pgsize * pgsize) s.own ≡ true
        → a / pgsize * pgsize ≢ info
        → t.k.phys.mem a ≡ s.k.phys.mem a
    pub earlier : (a : ℕ) → info ≤ a → a < info + 16 * total → t.k.phys.mem a ≡ s.k.phys.mem a
    pub table : HoldsRegions t.k.phys.mem info total rs
    pub entries : (r va : ℕ) → ((r == pt) && cov (va / pgsize)) ≡ false → t.f r va ≡ s.f r va
    pub child : t.k.procs c ≡ record (s.k.procs c) {
      total_mapped_region = (s.k.procs c).total_mapped_region + length rs;
    }
    pub others : (q : ℕ) → q ≢ c → t.k.procs q ≡ s.k.procs q
    pub rest : t.k ≡ record s.k { phys = t.k.phys; procs = t.k.procs }
    pub bounds : SameBounds s.k.phys t.k.phys
    pub enough : length s.xs ≤ length t.xs + need

  pub table_page :
      {s : Forking} {total : ℕ}
      → Ready s total
      → total ≤ 256
      → (a : ℕ) → info ≤ a
      → a < info + 16 * total
      → has (a / pgsize * pgsize) s.own ≡ true
  table_page r small a ge lt =
      let o = r.built.owned info r.mine in
      let page : a / pgsize * pgsize ≡ info = omega (arith, o.2, ge, lt, small) in rw page r.mine

  module _ {s t : Forking} {cov : ℕ → Bool} {rs : List (ℕ × ℕ × ℕ)} {total need : ℕ} where
    pub Step-Ready :
        p ≢ c → Ready s total → Step s t cov rs total need → Ready t (total + length rs)
    Step-Ready apart r st =
        let same = st.others p apart in
        record {
          built = st.built;
          parent_pagetable = rw same r.parent_pagetable;
          parent_info = rw same r.parent_info;
          child_pagetable = rw st.child r.child_pagetable;
          child_info = rw st.child r.child_info;
          child_total = rw (st.child, r.child_total) refl;
          low = rw (st.bounds.1) r.low;
          mine = st.grows info r.mine;
          theirs = st.grows pinfo r.theirs;
        }

    pub Step-Step :
        {u : Forking} {cov' : ℕ → Bool} {rs' : List (ℕ × ℕ × ℕ)} {need' : ℕ}
        → Step s t cov rs total need
        → Step t u cov' rs' (total + length rs) need'
        → Step s u (λ v. cov v || cov' v) (rs ++ rs') total (need + need')
    Step-Step {u} {cov'} {rs'} st st' =
        let more : Process → Process =
          λ q. record q { total_mapped_region = q.total_mapped_region + length rs' } in
        let exactly : ℕ → Process = λ n. record (s.k.procs c) { total_mapped_region = n } in
        let over : Kernel → Kernel = λ k. record k { phys = u.k.phys; procs = u.k.procs } in
        record {
          built = st'.built;
          grows = λ q h. st'.grows q (st.grows q h);
          kept = λ a h out. st'.kept a (st.grows (a / pgsize * pgsize) h) out ∙ st.kept a h out;
          earlier = λ a ge lt. st'.earlier a ge (omega (arith, lt)) ∙ st.earlier a ge lt;
          table =
              HoldsRegions-append u.k.phys.mem info total rs rs'
                (HoldsRegions-same t.k.phys.mem u.k.phys.mem info total rs
                  (λ a ge lt. st'.earlier a (omega (arith, ge)) lt) st.table)
                st'.table;
          entries =
              λ r va h. st'.entries r va (ground (arith, h)) ∙ st.entries r va (ground (arith, h));
          child = st'.child ∙ ap more st.child ∙ ap exactly (omega (arith, length-append rs rs'));
          others = λ q h. st'.others q h ∙ st.others q h;
          rest = st'.rest ∙ ap over st.rest;
          bounds = (st'.bounds.0 ∙ st.bounds.0, st'.bounds.1 ∙ st.bounds.1);
          enough = omega (arith, st.enough, st'.enough);
        }

    pub Step-widen :
        {cov' : ℕ → Bool} {need' : ℕ}
        → Step s t cov rs total need
        → ((v : ℕ) → cov' v ≡ false → cov v ≡ false)
        → need ≤ need'
        → Step s t cov' rs total need'
    Step-widen st wide more = record {
      built = st.built;
      grows = st.grows;
      kept = st.kept;
      earlier = st.earlier;
      table = st.table;
      entries = λ r va h. st.entries r va (ground (arith, h, wide (va / pgsize)));
      child = st.child;
      others = st.others;
      rest = st.rest;
      bounds = st.bounds;
      enough = omega (arith, st.enough, more);
    }

  pub Step-refl :
      {s : Forking} {total : ℕ} (cov : ℕ → Bool) → Ready s total → Step s s cov [] total 0
  Step-refl {s} cov r = record {
    built = r.built;
    grows = λ q h. h;
    kept = λ a h out. refl;
    earlier = λ a ge lt. refl;
    table = tt;
    entries = λ q va h. refl;
    child =
        let e : (s.k.procs c).total_mapped_region + 0 ≡ (s.k.procs c).total_mapped_region =
          omega arith in
        rw e refl;
    others = λ q h. refl;
    rest = refl;
    bounds = (refl, refl);
    enough = omega arith;
  }

  -- Where a step leaves the table alone.
  module _ {s t : Forking} {cov : ℕ → Bool} {total need : ℕ} where
    pub silent-Ready : p ≢ c → Ready s total → Step s t cov [] total need → Ready t total
    silent-Ready apart r st =
        let e : total + 0 ≡ total = omega arith in let n = Step-Ready apart r st in rw e at n

    pub silent-Step :
        {u : Forking} {cov' : ℕ → Bool} {rs' : List (ℕ × ℕ × ℕ)} {need' : ℕ}
        → Step s t cov [] total need
        → Step t u cov' rs' total need'
        → Step s u (λ v. cov v || cov' v) rs' total (need + need')
    silent-Step st st' = let e : total + 0 ≡ total = omega arith in Step-Step st (rw e st')
