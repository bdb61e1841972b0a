-- ===== src/Proc/Fork/Cases.antt =====
-- Each case of the `switch` of `do_fork` (kernel/process.c) for a loaded segment.
use mypkecode.Base.{
  ℕ, ◌+◌, ◌*◌, ◌/◌, ◌%◌, ◌^◌, ◌≤◌, ◌<◌, ◌≡◌, ◌≢◌, refl, ◌∙◌, Bool, true, false, [], length, ◌==◌,
  arith, ok, pure, if◌then◌else◌,
}
use mypkecode.Phys.{pgsize, write}
use mypkecode.Phys.Laws.{load-ok, store-ok, write_ne}
use mypkecode.Vmm.Spared.{with_memory}
use mypkecode.Vmm.Built.{changed-Built}
use mypkecode.Kernel.{Kernel, KernelCmd}
use mypkecode.Proc.{code_segment, data_segment, stack_segment, context_segment}
use mypkecode.Proc.Fork.{copy_data, fork_code, fork_context, fork_stack, fork_data, fork_region}
use mypkecode.Proc.Fork.State.{Forking, Ready, Step, Step-widen, silent-Ready, silent-Step}
use mypkecode.Proc.Fork.Segment.{copy_data-Step}
use mypkecode.Proc.Fork.Code.{fork_code-Step}
use mypkecode.Proc.Fork.Regions.{
  code_at, data_at, noted_of, covers, Forkable, Forked, Forkable-later, Forked-before,
}

-- The case of a region of the parent.
abbrev pub case_of : (seg p c i : ℕ) → KernelCmd (Unit {0})
case_of seg p c i =
    if seg == context_segment
    then fork_context p c
    else if seg == stack_segment
    then fork_stack p c i
    else if seg == data_segment
    then fork_data p c i
    else if seg == code_segment
    then fork_code p c i
    else pure tt

pub fork_region-case_of :
    (k : Kernel) (p c i pinfo n seg : ℕ)
    → (k.procs p).mapped_info ≡ pinfo
    → pgsize ≤ pinfo
    → n < 2 ^ 32
    → k.phys.mem (pinfo + 16 * i + 8) ≡ n + seg * 2 ^ 32
    → fork_region p c i k ≡ case_of seg p c i k
unfolding fork_region
fork_region-case_of k p c i pinfo n seg there low small word =
    let first = load-ok (pinfo + 16 * i + 8) k.phys (omega (arith, low)) in
    let kind : (n + seg * 2 ^ 32) / 2 ^ 32 ≡ seg = omega (arith, small) in
    rw (there, first, word, kind) refl

module _ (roots : ℕ → Bool) (p c ppt pinfo pt info : ℕ) (parent_root : roots ppt ≡ true)
    (child_root : roots pt ≡ true) (apart : p ≢ c) (roots_apart : ppt ≢ pt)
    (infos_apart : pinfo ≢ info) (s : Forking) (total i : ℕ)
    (r : Ready roots p c ppt pinfo pt info s total) (small : total < 256) (i_small : i < 256)
    (behind : total ≤ i) (va n : ℕ) where
  fits : (pinfo % pgsize ≡ 0) × (pgsize ≤ pinfo) × (info % pgsize ≡ 0) × (pgsize ≤ info)
  fits =
      let o = r.built.owned pinfo r.theirs in
      let o' = r.built.owned info r.mine in (o.2, o.3, o'.2, o'.3)

  -- The child's table with the start of a data segment.
  abbrev placed : Forking
  placed = record s {
    k = record s.k { phys = with_memory s.k.phys (write s.k.phys.mem (info + 16 * i) va) };
  }

  placed-Step : Step roots p c ppt pinfo pt info s placed (λ v. false) [] total 0
  placed-Step =
      let fit = fits in
      let spare = write_ne s.k.phys.mem (info + 16 * i) va in
      record {
        built =
            changed-Built (write s.k.phys.mem (info + 16 * i) va) info r.built r.mine
              λ a h. spare a (λ e. h (omega (arith, e, fit.2, i_small)));
        grows = λ q h. h;
        kept = λ a h out. spare a (λ e. out (omega (arith, e, fit.2, i_small)));
        earlier = λ a ge lt. spare a (λ e. absurd (omega (arith, e, lt, behind)));
        table = tt;
        entries = λ q v h. refl;
        child =
            let e : (s.k.procs c).total_mapped_region + 0 ≡ (s.k.procs c).total_mapped_region =
              omega arith in
            rw e refl;
        others = λ q h. refl;
        rest = refl;
        bounds = (refl, refl);
        enough = omega arith;
      }

  -- A word of the parent's table.
  word_kept : (a : ℕ) → a / pgsize * pgsize ≡ pinfo → placed.k.phys.mem a ≡ s.k.phys.mem a
  word_kept a page = placed-Step.kept a (rw page r.theirs) (rw page infos_apart)

  module _ (seg : ℕ) (seg_small : n < 2 ^ 32) (noted_va : s.k.phys.mem (pinfo + 16 * i) ≡ va)
      (noted_word : s.k.phys.mem (pinfo + 16 * i + 8) ≡ n + seg * 2 ^ 32) where
    fork_data_run : fork_data p c i s.k ≡ copy_data n 0 p c i placed.k
    unfolding fork_data
    fork_data_run =
        let fit = fits in
        let first = load-ok (pinfo + 16 * i) s.k.phys (omega (arith, fit.1)) in
        let second = store-ok (info + 16 * i) va s.k.phys (omega (arith, fit.3)) in
        let third = load-ok (pinfo + 16 * i + 8) placed.k.phys (omega (arith, fit.1)) in
        let same = word_kept (pinfo + 16 * i + 8) (omega (arith, fit.0, i_small)) in
        let npages : (n + seg * 2 ^ 32) % 2 ^ 32 ≡ n = omega (arith, seg_small) in
        rw (r.parent_info, first, noted_va, r.child_info, second, third, same, noted_word, npages)
          refl

  pub fork_region-code :
      Forkable roots p c ppt pinfo pt info s (code_at va n)
      → s.k.phys.mem (pinfo + 16 * i) ≡ va
      → s.k.phys.mem (pinfo + 16 * i + 8) ≡ n + code_segment * 2 ^ 32
      → 2 ≤ length s.xs
      → (t : Forking) × (fork_region p c i s.k ≡ ok tt t.k)
        × Step roots p c ppt pinfo pt info s t
            (covers (code_at va n))
            (noted_of (code_at va n))
            total
            2
        × Forked roots p c ppt pinfo pt info s t (code_at va n)
  fork_region-code can noted_va noted_word enough =
      let case =
        fork_region-case_of s.k p c i pinfo n code_segment r.parent_info fits.1 can.0 noted_word in
      let (t, run, st, done) =
        fork_code-Step roots p c ppt pinfo pt info parent_root child_root infos_apart s total i va n
          r small i_small noted_va noted_word can.0 can.1 can.2 can.3 enough in
      (t, case ∙ run, st, done)

  pub fork_region-data :
      Forkable roots p c ppt pinfo pt info s (data_at va n)
      → s.k.phys.mem (pinfo + 16 * i) ≡ va
      → s.k.phys.mem (pinfo + 16 * i + 8) ≡ n + data_segment * 2 ^ 32
      → 3 * n ≤ length s.xs
      → (t : Forking) × (fork_region p c i s.k ≡ ok tt t.k)
        × Step roots p c ppt pinfo pt info s t
            (covers (data_at va n))
            (noted_of (data_at va n))
            total
            (3 * n)
        × Forked roots p c ppt pinfo pt info s t (data_at va n)
  fork_region-data can noted_va noted_word enough =
      let n_small : n < 2 ^ 32 = omega (arith, can.1) in
      let case =
        fork_region-case_of s.k p c i pinfo n data_segment r.parent_info fits.1 n_small
          noted_word in
      let st = placed-Step in
      let can' =
        Forkable-later roots p c ppt pinfo pt info st roots_apart (data_at va n) (λ v e. refl)
          can in
      let page : (pinfo + 16 * i) / pgsize * pgsize ≡ pinfo = omega (arith, fits.0, i_small) in
      let (t, run, st', done) =
        copy_data-Step roots p c ppt pinfo pt info parent_root child_root apart roots_apart
          infos_apart total i va (omega (arith, small)) i_small can.0 n 0 placed
          (silent-Ready roots p c ppt pinfo pt info apart r st)
          (word_kept (pinfo + 16 * i) page ∙ noted_va) (omega (arith, can.1))
          (λ x ge lt. can'.2 x (omega (arith, lt))) enough in
      (
        t,
        case ∙ fork_data_run data_segment n_small noted_va noted_word ∙ run,
        Step-widen roots p c ppt pinfo pt info (silent-Step roots p c ppt pinfo pt info st st')
            (λ v h. ground (arith, h)) (omega arith),
        Forked-before roots p c ppt pinfo pt info st roots_apart t (data_at va n)
            (λ q h. (r.built.owned q h).2) can (λ x lt. done x (omega arith) (omega (arith, lt))),
      )
