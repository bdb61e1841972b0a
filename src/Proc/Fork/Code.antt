-- ===== src/Proc/Fork/Code.antt =====
-- The case of `do_fork` (kernel/process.c) for a code segment.
use mypkecode.Base.{
  ℕ, ◌+◌, ◌*◌, ◌/◌, ◌%◌, ◌^◌, ◌≤◌, ◌<◌, ◌≡◌, ◌≢◌, refl, ◌∙◌, Bool, true, false, [], ◌∷◌, length,
  ◌==◌, arith, ok,
}
use mypkecode.Base.Words.{has_bit}
use mypkecode.Phys.{pgsize, Memory, Phys, write}
use mypkecode.Phys.Laws.{load-ok, store-ok, write_ne}
use mypkecode.Pmm.{rounddown}
use mypkecode.Vmm.{pte_v, maxva, user_vm_map}
use mypkecode.Vmm.Lookup.{pa_of}
use mypkecode.Vmm.Spared.{with_memory}
use mypkecode.Vmm.Built.{mapped_over, mapped_here, changed-Built, mapped-Built, lookup_pa-entry}
use mypkecode.Kernel.{Process, Kernel, update}
use mypkecode.Proc.{code_segment}
use mypkecode.Proc.Fork.{fork_code}
use mypkecode.Proc.Fork.State.{Forking, Ready, Step, table_page}
use mypkecode.Proc.Fork.Pages.{Shared, code_perm}

module _ (roots : ℕ → Bool) (p c ppt pinfo pt info : ℕ) (parent_root : roots ppt ≡ true)
    (child_root : roots pt ≡ true) (infos_apart : pinfo ≢ info) (s : Forking) (total i va n : ℕ)
    (r : Ready roots p c ppt pinfo pt info s total) (small : total < 256) (i_small : i < 256)
    (noted_va : s.k.phys.mem (pinfo + 16 * i) ≡ va)
    (noted_word : s.k.phys.mem (pinfo + 16 * i + 8) ≡ n + code_segment * 2 ^ 32)
    (n_small : n < 2 ^ 32) (low : va + pgsize ≤ maxva) (source : pa_of (s.f ppt va) < 2 ^ 61)
    (fresh : has_bit (s.f pt (va / pgsize * pgsize)) pte_v ≡ false) (enough : 2 ≤ length s.xs) where
  abbrev page : ℕ
  page = va / pgsize * pgsize

  abbrev from : ℕ
  from = pa_of (s.f ppt va)

  -- The assignments to the child's region.
  abbrev listed : Memory → Memory
  listed m =
      write (write m (info + 16 * total) va) (info + 16 * total + 8) (n + code_segment * 2 ^ 32)

  abbrev one_more : Process
  one_more = record (s.k.procs c) {
    pagetable = pt;
    mapped_info = info;
    total_mapped_region = total + 1;
  }

  abbrev after : Phys → Kernel
  after s' = record s.k {
    phys = with_memory s' (listed s'.mem);
    procs = update s.k.procs c one_more;
  }

  tables_fit : (pinfo % pgsize ≡ 0) × (pgsize ≤ pinfo) × (info % pgsize ≡ 0) × (pgsize ≤ info)
  tables_fit =
      let o = r.built.owned pinfo r.theirs in
      let o' = r.built.owned info r.mine in (o.2, o.3, o'.2, o'.3)

  word_page : (pinfo + 16 * i + 8) / pgsize * pgsize ≡ pinfo
  word_page = omega (arith, tables_fit, i_small)

  listed_apart : (m : Memory) (a : ℕ) → a / pgsize * pgsize ≢ info → listed m a ≡ m a
  listed_apart m a h =
      let fit = tables_fit in
      write_ne (write m (info + 16 * total) va) (info + 16 * total + 8) (n + code_segment * 2 ^ 32)
        a (λ e. h (omega (arith, e, fit.2, small)))
      ∙ write_ne m (info + 16 * total) va a (λ e. h (omega (arith, e, fit.2, small)))

  listed_words :
      (m : Memory)
      → (listed m (info + 16 * total) ≡ va)
        × (listed m (info + 16 * total + 8) ≡ n + code_segment * 2 ^ 32)
  unfolding write
  listed_words m = (ground arith, ground arith)

  listed_earlier : (m : Memory) (a : ℕ) → a < info + 16 * total → listed m a ≡ m a
  unfolding write
  listed_earlier m a lt = ground (arith, lt)

  fork_code_run :
      (s' : Phys)
      → user_vm_map pt page pgsize from code_perm s.k.phys ≡ ok tt s'
      → s'.mem (pinfo + 16 * i + 8) ≡ s.k.phys.mem (pinfo + 16 * i + 8)
      → fork_code p c i s.k ≡ ok tt (after s')
  unfolding fork_code rounddown
  fork_code_run s' run kept =
      let fit = tables_fit in
      let first = load-ok (pinfo + 16 * i) s.k.phys (omega (arith, fit.1)) in
      let found = lookup_pa-entry r.built ppt va parent_root (omega (arith, low)) in
      let second = load-ok (pinfo + 16 * i + 8) s' (omega (arith, fit.1)) in
      let npages : (n + code_segment * 2 ^ 32) % 2 ^ 32 ≡ n = omega (arith, n_small) in
      let third = store-ok (info + 16 * total) va s' (omega (arith, fit.3)) in
      let fourth =
        store-ok (info + 16 * total + 8) (n + code_segment * 2 ^ 32)
          (with_memory s' (write s'.mem (info + 16 * total) va)) (omega (arith, fit.3)) in
      rw (r.parent_info, first, noted_va, r.parent_pagetable, found, r.child_pagetable, run)
        (rw
          (
            second, kept, noted_word, npages, r.child_info, r.child_total, third, fourth,
            r.child_pagetable, r.child_info, r.child_total,
          )
          refl)

  -- The child has the parent's page of code, and its table the region.
  pub fork_code-Step :
      (t : Forking) × (fork_code p c i s.k ≡ ok tt t.k)
      × Step roots p c ppt pinfo pt info s t
          (λ v. v == va / pgsize)
          ((va, n, code_segment) ∷ [])
          total
          2
      × Shared roots p c ppt pinfo pt info s t va
  unfolding update
  fork_code-Step =
      let fit = tables_fit in
      let (s', lab', xs', run, d, u, same, bounds) =
        mapped-Built pt page from code_perm r.built child_root (omega arith) (omega (arith, low))
          source enough fresh in
      let here : (c == c) ≡ true = ground arith in
      let words = listed_words s'.mem in
      let floor : page / pgsize ≡ va / pgsize = omega arith in
      (
        record {
          k = after s';
          lab = lab';
          xs = xs';
          own = s.own;
          f = mapped_over s.f pt page from code_perm;
        },
        fork_code_run s' run (same (pinfo + 16 * i + 8) (rw word_page r.theirs)),
        record {
          built = changed-Built (listed s'.mem) info d r.mine (listed_apart s'.mem);
          grows = λ q h. h;
          kept = λ a h out. listed_apart s'.mem a out ∙ same a h;
          earlier = λ a ge lt.
              listed_earlier s'.mem a lt
              ∙ same a (table_page roots p c ppt pinfo pt info r (omega (arith, small)) a ge lt);
          table = (words.0, words.1, tt);
          entries = λ r' va' h. ground (arith, h, floor);
          child = rw (here, r.child_pagetable, r.child_info, r.child_total) refl;
          others = λ q h. ground (arith, h);
          rest = refl;
          bounds = bounds;
          enough = u;
        },
        mapped_here s.f pt page from code_perm va (omega arith),
      )
