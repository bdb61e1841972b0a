-- ===== src/Proc/Fork/Start.antt =====
-- `do_fork` (kernel/process.c) up to the loaded segments: the stack and the trapframe are copied.
use mypkecode.Base.{
  ℕ, suc, ◌+◌, ◌-◌, ◌*◌, ◌/◌, ◌%◌, ◌^◌, ◌≤◌, ◌<◌, ◌≡◌, ◌≢◌, refl, ◌∙◌, ap, Bool, true, List, [],
  ◌∷◌, has, arith, ok,
}
use mypkecode.Phys.{pgsize, Memory, copy}
use mypkecode.Phys.Laws.{load-ok, memcpy-ok, copy_in, copy_apart}
use mypkecode.Trapframe.{trapframe_size}
use mypkecode.Vmm.Lookup.{pa_of}
use mypkecode.Vmm.Space.{Labels}
use mypkecode.Vmm.Spared.{with_memory}
use mypkecode.Vmm.Built.{Built, add_root, changed-Built, lookup_pa-entry}
use mypkecode.Kernel.{Kernel}
use mypkecode.Proc.{user_stack_top, stack_segment, context_segment, system_segment}
use mypkecode.Proc.Mappings.{new_space, add_root_here}
use mypkecode.Proc.Created.{HoldsRegions, HoldsRegions-same, Created}
use mypkecode.Proc.Fork.{fork_context, fork_stack, fork_regions}
use mypkecode.Proc.Fork.State.{Forking, Ready}
use mypkecode.Proc.Fork.Loop.{length-regions_of}
use mypkecode.Proc.Fork.Cases.{fork_region-case_of}
use mypkecode.Proc.Fork.Regions.{Segment, code_at, data_at, regions_of, Forkable, AllForkable}
use mypkecode.Proc.Fork.Parent.{
  IsParent, Loaded, AllLoaded, pa_of-leaf_pte, new_space-low, new_space-stack, new_space-other,
}

-- The kernel after the child's stack and trapframe are copied from the parent's.
abbrev pub with_copies : Kernel → (us ps tf ptf : ℕ) → Kernel
with_copies k us ps tf ptf = record k {
  phys = with_memory k.phys (copy (copy k.phys.mem us ps pgsize) tf ptf trapframe_size);
}

module _ (k k1 : Kernel) (p c : ℕ) {lab lab1 : Labels} {own : List ℕ} {roots : ℕ → Bool}
    {f : ℕ → ℕ → ℕ} (tf pt ks us info : ℕ) (xs xs1 : List ℕ) (gs : List Segment)
    (b : Built k.phys lab (tf ∷ pt ∷ ks ∷ us ∷ info ∷ xs) own roots f)
    (b1 : Built k1.phys lab1 xs1
      (info ∷ us ∷ ks ∷ tf ∷ own)
      (add_root roots pt)
      (new_space f pt us tf k.trap_sec_start))
    (cr : Created k k1 c tf pt ks info own) (par : IsParent k p own roots f gs) (apart : p ≢ c)
    (tf_ge : user_stack_top ≤ tf) (trap_ge : user_stack_top ≤ k.trap_sec_start)
    (low : k.phys.free_mem_end_addr ≤ 2 ^ 61) where
  abbrev ppt : ℕ
  ppt = (k.procs p).pagetable

  abbrev pinfo : ℕ
  pinfo = (k.procs p).mapped_info

  abbrev ptf : ℕ
  ptf = (k.procs p).trapframe

  abbrev ps : ℕ
  ps = pa_of (f ppt (user_stack_top - pgsize))

  abbrev new_f : ℕ → ℕ → ℕ
  new_f = new_space f pt us tf k.trap_sec_start

  abbrev new_own : List ℕ
  new_own = info ∷ us ∷ ks ∷ tf ∷ own

  -- The new pages and those of the parent are different.
  pub old_pages : (q : ℕ) → has q own ≡ true → (q ≢ tf) × (q ≢ us) × (q ≢ info)
  old_pages q h =
      let o = (b.owned q h).1 in (ground (arith, o), ground (arith, o), ground (arith, o))

  pub pages_differ : (tf ≢ us) × (tf ≢ info) × (us ≢ info)
  pages_differ =
      let d = b.space.pool.chain.4 in
      let e = b.space.pool.chain.5.5.5.4 in
      (ground (arith, d), ground (arith, d), ground (arith, e))

  pub directories_differ : ppt ≢ pt
  directories_differ e =
      let at = b.rooted ppt par.rooted in
      let unlabelled = b.space.free pt (ground arith) in absurd (cc (at, unlabelled, ap lab e))

  aligned : (q : ℕ) → has q new_own ≡ true → (q % pgsize ≡ 0) × (pgsize ≤ q)
  aligned q h = let o = b1.owned q h in (o.2, o.3)

  info_fits : (info % pgsize ≡ 0) × (pgsize ≤ info)
  info_fits = aligned info (ground arith)

  us_fits : (us % pgsize ≡ 0) × (pgsize ≤ us)
  us_fits = aligned us (ground arith)

  tf_fits : (tf % pgsize ≡ 0) × (pgsize ≤ tf)
  tf_fits = aligned tf (ground arith)

  old_fits : (q : ℕ) → has q own ≡ true → (q % pgsize ≡ 0) × (pgsize ≤ q)
  old_fits q h = let o = b.owned q h in (o.2, o.3)

  old_own : (q : ℕ) → has q own ≡ true → has q new_own ≡ true
  old_own q h = ground (arith, h)

  -- Memory after the two copies.
  abbrev stack_copied : Memory
  stack_copied = copy k1.phys.mem us ps pgsize

  abbrev both_copied : Memory
  both_copied = copy stack_copied tf ptf trapframe_size

  abbrev pub started : Kernel
  started = with_copies k1 us ps tf ptf

  same_parent : k1.procs p ≡ k.procs p
  same_parent = cr.others p apart

  -- A word of a page of the parent.
  pub word_before : (a : ℕ) → has (a / pgsize * pgsize) own ≡ true → both_copied a ≡ k.phys.mem a
  word_before a h =
      let (x, y, z) = old_pages (a / pgsize * pgsize) h in
      copy_apart stack_copied tf ptf trapframe_size a tf_fits.0 (omega arith) x
      ∙ copy_apart k1.phys.mem us ps pgsize a us_fits.0 (omega arith) y
      ∙ cr.spared a h

  stack_word_before : (a : ℕ) → has (a / pgsize * pgsize) own ≡ true → stack_copied a ≡ k.phys.mem a
  stack_word_before a h =
      let (x, y, z) = old_pages (a / pgsize * pgsize) h in
      copy_apart k1.phys.mem us ps pgsize a us_fits.0 (omega arith) y ∙ cr.spared a h

  pub info_word : (a : ℕ) → a / pgsize * pgsize ≡ info → both_copied a ≡ k1.phys.mem a
  info_word a e =
      let (x, y, z) = pages_differ in
      copy_apart stack_copied tf ptf trapframe_size a tf_fits.0 (omega arith)
        (λ g. y (omega (arith, e, g)))
      ∙ copy_apart k1.phys.mem us ps pgsize a us_fits.0 (omega arith) (λ g. z (omega (arith, e, g)))

  pub stack_word : (o : ℕ) → o < pgsize → both_copied (us + o) ≡ k.phys.mem (ps + o)
  stack_word o lt =
      let (x, y, z) = pages_differ in
      let fit = old_fits ps par.own_stack in
      let page : (ps + o) / pgsize * pgsize ≡ ps = omega (arith, fit.0, lt) in
      copy_apart stack_copied tf ptf trapframe_size (us + o) tf_fits.0 (omega arith)
        (λ e. x (omega (arith, e, us_fits.0, lt)))
      ∙ copy_in k1.phys.mem us ps pgsize (us + o) (omega arith) (omega (arith, lt))
      ∙ ap (λ (n : ℕ). k1.phys.mem (ps + n)) (omega arith)
      ∙ cr.spared (ps + o) (rw page par.own_stack)

  pub frame_word : (o : ℕ) → o < trapframe_size → both_copied (tf + o) ≡ k.phys.mem (ptf + o)
  frame_word o lt =
      let fit = old_fits ptf par.own_frame in
      let page : (ptf + o) / pgsize * pgsize ≡ ptf = omega (arith, fit.0, lt) in
      copy_in stack_copied tf ptf trapframe_size (tf + o) (omega arith) (omega (arith, lt))
      ∙ ap (λ (n : ℕ). stack_copied (ptf + n)) (omega arith)
      ∙ stack_word_before (ptf + o) (rw page par.own_frame)

  pub started-Built : Built started.phys lab1 xs1 new_own (add_root roots pt) new_f
  started-Built =
      let once =
        changed-Built stack_copied us b1 (ground arith)
          λ a h. copy_apart k1.phys.mem us ps pgsize a us_fits.0 (omega arith) h in
      changed-Built both_copied tf once (ground arith)
        λ a h. copy_apart stack_copied tf ptf trapframe_size a tf_fits.0 (omega arith) h

  pub parent_root : add_root roots pt ppt ≡ true
  parent_root = ground (arith, par.rooted)

  pinfo_page : (a : ℕ) → pinfo ≤ a → a < pinfo + pgsize → has (a / pgsize * pgsize) own ≡ true
  pinfo_page a ge lt =
      let fit = old_fits pinfo par.own_info in
      let page : a / pgsize * pgsize ≡ pinfo = omega (arith, fit.0, ge, lt) in rw page par.own_info

  abbrev half : Kernel
  half = record k1 { phys = with_memory k1.phys stack_copied }

  fork_context_run : fork_context p c half ≡ ok tt started
  unfolding fork_context
  fork_context_run =
      let moved =
        memcpy-ok tf ptf trapframe_size half.phys tf_fits.1 (old_fits ptf par.own_frame).1 in
      rw (same_parent, cr.self, moved) refl

  fork_stack_run : fork_stack p c 0 k1 ≡ ok tt half
  unfolding fork_stack
  fork_stack_run =
      let tp = par.table in
      let tc = cr.table in
      let pfit = old_fits pinfo par.own_info in
      let child_va = load-ok (info + 16 * 0) k1.phys (omega (arith, info_fits)) in
      let child_pa =
        lookup_pa-entry b1 pt (user_stack_top - pgsize) (add_root_here roots pt) (omega arith) in
      let to = new_space-stack f pt us tf k.trap_sec_start tf_ge trap_ge in
      let to' = pa_of-leaf_pte us us_fits.0 (omega (arith, b.space.pool.chain.5.5.5.3, low)) in
      let parent_va = load-ok (pinfo + 16 * 0) k1.phys (omega (arith, pfit)) in
      let word =
        cr.spared (pinfo + 16 * 0) (pinfo_page (pinfo + 16 * 0) (omega arith) (omega arith))
        ∙ tp.0 in
      let parent_pa = lookup_pa-entry b1 ppt (user_stack_top - pgsize) parent_root (omega arith) in
      let from =
        new_space-other f pt us tf k.trap_sec_start ppt (user_stack_top - pgsize)
          directories_differ in
      let moved = memcpy-ok us ps pgsize k1.phys us_fits.1 (old_fits ps par.own_stack).1 in
      rw
        (
          same_parent, cr.self, child_va, tc.0, child_pa, to, to', parent_va, word, parent_pa, from,
          moved,
        )
        refl

  -- The first three rounds of the loop.
  pub start_run : (n : ℕ) → fork_regions (suc (suc (suc n))) 0 p c k1 ≡ fork_regions n 3 p c started
  unfolding fork_regions
  start_run n =
      let tp = par.table in
      let there : (k1.procs p).mapped_info ≡ pinfo = rw same_parent refl in
      let low = (old_fits pinfo par.own_info).1 in
      let first =
        cr.spared (pinfo + 16 * 0 + 8) (pinfo_page (pinfo + 16 * 0 + 8) (omega arith) (omega arith))
        ∙ tp.1 in
      let second =
        stack_word_before (pinfo + 16 * 1 + 8)
          (pinfo_page (pinfo + 16 * 1 + 8) (omega arith) (omega arith))
        ∙ tp.2.1 in
      let third =
        word_before (pinfo + 16 * 2 + 8)
          (pinfo_page (pinfo + 16 * 2 + 8) (omega arith) (omega arith))
        ∙ tp.2.2.1 in
      let stack =
        fork_region-case_of k1 p c 0 pinfo 1 stack_segment there low (omega arith) first in
      let context =
        fork_region-case_of half p c 1 pinfo 1 context_segment there low (omega arith) second in
      let system =
        fork_region-case_of started p c 2 pinfo 1 system_segment there low (omega arith) third in
      rw (stack, fork_stack_run, context, fork_context_run, system) refl

  -- The loop over the segments can begin.
  abbrev pub first_state : Forking
  first_state = record { k = started; lab = lab1; xs = xs1; own = new_own; f = new_f }

  pub started-Ready : Ready (add_root roots pt) p c ppt pinfo pt info first_state 3
  started-Ready = record {
    built = started-Built;
    parent_pagetable = rw same_parent refl;
    parent_info = rw same_parent refl;
    child_pagetable = rw cr.self refl;
    child_info = rw cr.self refl;
    child_total = rw cr.self refl;
    low = omega (arith, cr.bounds, low);
    mine = ground arith;
    theirs = ground (arith, par.own_info);
  }

  pub started_table : HoldsRegions started.phys.mem pinfo 3 (regions_of gs)
  started_table =
      HoldsRegions-same k.phys.mem started.phys.mem pinfo 3 (regions_of gs)
        (λ a ge lt.
          word_before a
            (pinfo_page a (omega (arith, ge)) (omega (arith, lt, par.room, length-regions_of gs))))
        par.table.2.2.2

  Loaded-Forkable :
      (g : Segment)
      → Loaded own (f ppt) g
      → Forkable (add_root roots pt) p c ppt pinfo pt info first_state g
  Loaded-Forkable (code_at va n) h =
      let e = new_space-other f pt us tf k.trap_sec_start ppt va directories_differ in
      let z =
        new_space-low f pt us tf k.trap_sec_start tf_ge trap_ge (va / pgsize * pgsize)
          (omega (arith, h.1)) in
      (h.0, omega (arith, h.1), rw e h.2, rw z refl)
  Loaded-Forkable (data_at va n) h = (
    h.0,
    omega (arith, h.1),
    λ x lt.
        let e =
          new_space-other f pt us tf k.trap_sec_start ppt (va + pgsize * x) directories_differ in
        let z =
          new_space-low f pt us tf k.trap_sec_start tf_ge trap_ge (va + pgsize * x)
            (omega (arith, h.0, h.1, lt)) in
        let mine = h.2 x lt in
        let far = (old_pages (pa_of (f ppt (va + pgsize * x))) mine).2 in
        (
          record {
            held =
                ap (λ (z : ℕ). has (pa_of z) new_own) e
                ∙ old_own (pa_of (f ppt (va + pgsize * x))) mine;
            not_table = rw e far;
          },
          rw z refl,
        ),
  )

  pub AllLoaded-AllForkable :
      (hs : List Segment)
      → AllLoaded own (f ppt) hs
      → AllForkable (add_root roots pt) p c ppt pinfo pt info first_state hs
  AllLoaded-AllForkable [] h = tt
  AllLoaded-AllForkable (g ∷ hs) h = (Loaded-Forkable g h.0, AllLoaded-AllForkable hs h.1)
