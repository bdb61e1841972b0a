-- ===== src/Proc/Fork/Data.antt =====
-- The loop of `do_fork` (kernel/process.c) over the pages of a data segment.
use mypkecode.Base.{
  ℕ, suc, ◌+◌, ◌*◌, ◌/◌, ◌%◌, ◌^◌, ◌≤◌, ◌<◌, ◌≡◌, ◌≢◌, refl, ◌∙◌, ap, Bool, true, false, List, [],
  ◌∷◌, has, length, ◌==◌, arith, ok, lt→ltb, Bool-cases, inl, inr,
}
use mypkecode.Base.Words.{u64, has_bit}
use mypkecode.Phys.{pgsize, Phys, copy}
use mypkecode.Phys.Laws.{load-ok, memcpy-ok, copy_apart, copy_in}
use mypkecode.Pmm.Pages.{taken, alloc_page-cons}
use mypkecode.Vmm.{pte_v, user_vm_map}
use mypkecode.Vmm.Lookup.{pa_of}
use mypkecode.Vmm.Spared.{with_memory}
use mypkecode.Vmm.Built.{
  Built, mapped_over, mapped_here, taken-Built, changed-Built, mapped-Built, lookup_pa-entry,
}
use mypkecode.Proc.Mappings.{stack_perm}
use mypkecode.Proc.Fork.{as_int, copy_data}
use mypkecode.Proc.Fork.Pages.{Copied}
use mypkecode.Proc.Fork.State.{Forking, Ready, Step, table_page}

as_int_small : (n : ℕ) → n < 2 ^ 31 → as_int (u64 n) ≡ n
as_int_small n h =
    let e : n % 2 ^ 64 % 2 ^ 32 ≡ n = omega (arith, h) in rw (e, lt→ltb n (2 ^ 31) h) refl

module _ (roots : ℕ → Bool) (p c ppt pinfo pt info : ℕ) (parent_root : roots ppt ≡ true)
    (child_root : roots pt ≡ true) (s : Forking) (total i j start pa : ℕ) (ys : List ℕ)
    (r : Ready roots p c ppt pinfo pt info s total) (small : total ≤ 256) (i_small : i < 256)
    (head : s.xs ≡ pa ∷ ys) (noted : s.k.phys.mem (pinfo + 16 * i) ≡ start)
    (within : start + pgsize * j + pgsize ≤ 2 ^ 31) (al : start % pgsize ≡ 0)
    (source : has (pa_of (s.f ppt (start + pgsize * j))) s.own ≡ true)
    (fresh : has_bit (s.f pt (start + pgsize * j)) pte_v ≡ false) (enough : 3 ≤ length s.xs) where
  abbrev data_va : ℕ
  data_va = start + pgsize * j

  abbrev from : ℕ
  from = pa_of (s.f ppt data_va)

  abbrev copied : Phys
  copied = with_memory (taken s.k.phys) (copy s.k.phys.mem pa from pgsize)

  before-Built : Built s.k.phys s.lab (pa ∷ ys) s.own roots s.f
  before-Built = let b = r.built in rw head at b

  page_taken : Built (taken s.k.phys) s.lab ys (pa ∷ s.own) roots s.f
  page_taken = taken-Built before-Built

  pa_fits : (pa % pgsize ≡ 0) × (pgsize ≤ pa) × (pa < 2 ^ 61)
  pa_fits =
      let b = before-Built in
      let chain = b.space.pool.chain in
      (chain.1, omega (arith, chain.2, b.space.pool.above_null), omega (arith, chain.3, r.low))

  copied-Built : Built copied s.lab ys (pa ∷ s.own) roots s.f
  copied-Built =
      changed-Built (copy s.k.phys.mem pa from pgsize) pa page_taken (ground arith)
        λ a h. copy_apart s.k.phys.mem pa from pgsize a pa_fits.0 (omega arith) h

  new_page : (q : ℕ) → has q s.own ≡ true → q ≢ pa
  new_page q h = let o = (before-Built.owned q h).1 in ground (arith, o)

  pinfo_fits : (pinfo % pgsize ≡ 0) × (pgsize ≤ pinfo)
  pinfo_fits = let o = r.built.owned pinfo r.theirs in (o.2, o.3)

  round_run :
      (s' : Phys) (n : ℕ)
      → user_vm_map pt data_va pgsize pa stack_perm copied ≡ ok tt s'
      → copy_data (suc n) j p c i s.k ≡ copy_data n (suc j) p c i (record s.k { phys = s' })
  unfolding copy_data
  round_run s' n run =
      let got = (alloc_page-cons before-Built.space.pool).0 in
      let word = load-ok (pinfo + 16 * i) (taken s.k.phys) (omega (arith, pinfo_fits)) in
      let place = as_int_small data_va (omega (arith, within)) in
      let found = lookup_pa-entry page_taken ppt data_va parent_root (omega (arith, within)) in
      let moved =
        memcpy-ok pa from pgsize (taken s.k.phys) pa_fits.1 (r.built.owned from source).3 in
      rw
        (
          got, r.parent_info, word, noted, place, r.parent_pagetable, found, moved,
          r.child_pagetable, run,
        )
        refl

  unowned : has pa s.own ≡ false
  unowned = elim (Bool-cases (has pa s.own)) [ inl e ↦ absurd (new_page pa e refl) | inr e ↦ e ]

  in_page : (o : ℕ) → o < pgsize → (pa + o) / pgsize * pgsize ≡ pa
  in_page o lt = omega (arith, pa_fits.0, lt)

  -- One round of the loop.
  pub round :
      (t : Forking) × ((n : ℕ) → copy_data (suc n) j p c i s.k ≡ copy_data n (suc j) p c i t.k)
      × Step roots p c ppt pinfo pt info s t (λ v. v == data_va / pgsize) [] total 3
      × Copied roots p c ppt pinfo pt info s t data_va
  round =
      let two_left : 2 ≤ length ys = omega (arith, rw head at enough) in
      let (s', lab', xs', run, d, u, same, bounds) =
        mapped-Built pt data_va pa stack_perm copied-Built child_root (omega (arith, al))
          (omega (arith, within)) pa_fits.2 two_left fresh in
      let mem_copied = λ (a : ℕ) (h : has (a / pgsize * pgsize) s.own ≡ true).
        copy_apart s.k.phys.mem pa from pgsize a pa_fits.0 (omega arith)
          (new_page (a / pgsize * pgsize) h) in
      (
        record {
          k = record s.k { phys = s' };
          lab = lab';
          xs = xs';
          own = pa ∷ s.own;
          f = mapped_over s.f pt data_va pa stack_perm;
        },
        (λ n. round_run s' n run),
        record {
          built = d;
          grows = λ q h. ground (arith, h);
          kept = λ a h out. same a (ground (arith, h)) ∙ mem_copied a h;
          earlier = λ a ge lt.
              let page : has (a / pgsize * pgsize) s.own ≡ true =
                table_page roots p c ppt pinfo pt info r small a ge lt in
              same a (ground (arith, page)) ∙ mem_copied a page;
          table = tt;
          entries = λ r' va' h. ground (arith, h);
          child =
              let e : (s.k.procs c).total_mapped_region + 0 ≡ (s.k.procs c).total_mapped_region =
                omega arith in
              rw e refl;
          others = λ q h. refl;
          rest = refl;
          bounds = bounds;
          enough = rw head (omega (arith, u));
        },
        record {
          pa = pa;
          entry = mapped_here s.f pt data_va pa stack_perm data_va refl;
          taken = ground arith;
          unused = unowned;
          same = λ o lt.
              same (pa + o) (ground (arith, in_page o lt))
              ∙ copy_in s.k.phys.mem pa from pgsize (pa + o) (omega arith) (omega (arith, lt))
              ∙ ap (λ (n : ℕ). s.k.phys.mem (from + n)) (omega arith);
        },
      )
