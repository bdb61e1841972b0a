-- ===== src/Proc/Alloc.antt =====
-- `alloc_process` (kernel/process.c): the address space that a new process gets.
use mypkecode.Base.{
  zero, suc, Bool-cases, inl, inr, ℕ, ◌+◌, ◌-◌, ◌*◌, ◌/◌, ◌%◌, ◌^◌, ◌≤◌, ◌<◌, ◌≡◌, ◌≢◌, refl, ◌∙◌,
  ap, Bool, true, false, Option, none, some, stop, List, ◌∷◌, length, has, ◌==◌, arith, ok, ltb,
  le→ltb,
}
use mypkecode.Base.Words.{u64}
use mypkecode.Phys.{pgsize, Memory, Phys, store, memset_zero}
use mypkecode.Pmm.Pages.{alloc_page-cons}
use mypkecode.Vmm.{maxva, user_vm_map}
use mypkecode.Vmm.Space.{Labels, SameBounds}
use mypkecode.Vmm.Spared.{with_memory}
use mypkecode.Vmm.Built.{Built, empty_over, add_root, add_dir, taken-Built}
use mypkecode.Kernel.{nproc, Status, Process, Kernel, KernelCmd, update}
use mypkecode.Kernel.Status.{free, ready, running, blocked, zombie}
use mypkecode.Trapframe.{off_sp}
use mypkecode.Proc.{user_stack_top, is_free, first_free, init_vm_space, alloc_process}
use mypkecode.Proc.Created.{Created, table_set, table_set-HoldsRegions, table_set-apart}
use mypkecode.Proc.Stages.{
  pages_apart, frames_apart, table_cleared-own, table_cleared-frame, table_cleared, frame-Built,
  dir-Built, stack-Built, table-Built,
}
use mypkecode.Proc.Mappings.{
  region_set, region_set-same, stack_perm, frame_perm, trap_perm, new_space, given, empty_here,
  has_head, add_root_here, map_noted, two_mappings,
}

free_status : (s : Status) → is_free s ≡ true → s ≡ free
free_status free h = refl
free_status ready h = absurd (cc)
free_status running h = absurd (cc)
free_status blocked h = absurd (cc)
free_status zombie h = absurd (cc)

-- `first_free` finds a FREE process in its range.
pub first_free-is_free :
    (n i : ℕ) (procs : ℕ → Process) (j : ℕ)
    → first_free n i procs ≡ some j
    → ((procs j).status ≡ free) × (j < i + n)
unfolding first_free
first_free-is_free zero i procs j h = absurd (cc)
first_free-is_free (suc n) i procs j h = elim (Bool-cases (is_free (procs i).status)) [
  | inl y ↦
      let h' : some i ≡ some j = rw y at h in
      let e : i ≡ j = cc in (rw (← e) (free_status (procs i).status y), omega (arith, e))
  | inr n' ↦
      let (st, lt) = first_free-is_free n (suc i) procs j (rw n' at h) in (st, omega (arith, lt))
]

module _ (k : Kernel) (i : ℕ) {lab : Labels} {own : List ℕ} {roots : ℕ → Bool} {f : ℕ → ℕ → ℕ}
    (tf pt ks us info : ℕ) (xs : List ℕ)
    (b : Built k.phys lab (tf ∷ pt ∷ ks ∷ us ∷ info ∷ xs) own roots f) (enough : 6 ≤ length xs)
    (apart : user_stack_top + pgsize ≤ k.phys.free_mem_start_addr)
    (low : k.phys.free_mem_end_addr ≤ maxva) (trap_al : k.trap_sec_start % pgsize ≡ 0)
    (trap_ge : user_stack_top ≤ k.trap_sec_start)
    (trap_lt : k.trap_sec_start + pgsize ≤ k.phys.free_mem_start_addr)
    (found : first_free nproc 0 k.procs ≡ some i) where
  abbrev pool_end : ℕ
  pool_end = k.phys.free_mem_end_addr

  -- The five pages lie in the pool.
  tf_fits :
      (tf % pgsize ≡ 0)
      × (user_stack_top + pgsize ≤ tf)
      × (tf + pgsize ≤ maxva)
      × (k.trap_sec_start + pgsize ≤ tf)
  tf_fits =
      let c = b.space.pool.chain in
      (c.1, omega (arith, apart, c.2), omega (arith, low, c.3, c.1), omega (arith, trap_lt, c.2))

  us_low : us < 2 ^ 61
  us_low = let c = b.space.pool.chain.5.5.5 in omega (arith, c.3, low)

  abbrev before : Phys
  before = table_cleared k i tf pt ks us info xs b

  ready_space :
      Built before
        (add_dir lab pt)
        xs
        (info ∷ us ∷ ks ∷ tf ∷ own)
        (add_root roots pt)
        (empty_over f pt)
  ready_space = table-Built k i tf pt ks us info xs b

  -- The pool after the five assignments to the process.
  abbrev with_frame : ℕ → Process
  with_frame = update k.procs i (record (k.procs i) { trapframe = tf })

  abbrev with_dir : ℕ → Process
  with_dir = update with_frame i (record (with_frame i) { pagetable = pt })

  abbrev with_stack : ℕ → Process
  with_stack = update with_dir i (record (with_dir i) { kstack = u64 (ks + pgsize) })

  abbrev with_table : ℕ → Process
  with_table = update with_stack i (record (with_stack i) { mapped_info = info })

  abbrev with_regions : ℕ → Process
  with_regions = update with_table i (record (with_table i) { total_mapped_region = 3 })

  regions_here : with_regions i ≡ given (k.procs i) tf pt ks info
  unfolding update
  regions_here = let here : (i == i) ≡ true = ground arith in rw here refl

  regions_else : (q : ℕ) → q ≢ i → with_regions q ≡ k.procs q
  unfolding update
  regions_else q h = let other : (i == q) ≡ false = ground (arith, h) in rw other refl

  pages_above : (pgsize ≤ tf) × (pgsize ≤ pt) × (pgsize ≤ info)
  pages_above =
      let c = b.space.pool.chain in
      let above = b.space.pool.above_null in
      (omega (arith, c.2, above), omega (arith, c.5.2, above), omega (arith, c.5.5.5.5.2, above))

  init_vm_space_run :
      (s1 s2 s3 : Phys)
      → user_vm_map pt (user_stack_top - pgsize) pgsize us stack_perm before ≡ ok tt s1
      → user_vm_map pt tf pgsize tf frame_perm
          (with_memory s1 (region_set s1.mem info 0 (user_stack_top - pgsize) 2))
        ≡ ok tt s2
      → user_vm_map pt k.trap_sec_start pgsize k.trap_sec_start trap_perm
          (with_memory s2 (region_set s2.mem info 1 tf 3))
        ≡ ok tt s3
      → init_vm_space i k
        ≡ ok i (record k {
          phys = with_memory s3 (region_set s3.mem info 2 k.trap_sec_start 4);
          procs = with_regions;
        })
  unfolding init_vm_space memset_zero store
  init_vm_space_run s1 s2 s3 run1 run2 run3 =
      let a1 = (alloc_page-cons b.space.pool).0 in
      let a2 = (alloc_page-cons (frame-Built k i tf pt ks us info xs b).space.pool).0 in
      let a3 = (alloc_page-cons (dir-Built k i tf pt ks us info xs b).space.pool).0 in
      let a4 = (alloc_page-cons (taken-Built (dir-Built k i tf pt ks us info xs b)).space.pool).0 in
      let a5 = (alloc_page-cons (stack-Built k i tf pt ks us info xs b).space.pool).0 in
      let above = pages_above in
      let frame_ok = le→ltb tf pgsize above.0 in
      let sp_ok = le→ltb (tf + off_sp) pgsize (omega (arith, above.0)) in
      let dir_ok = le→ltb pt pgsize above.1 in
      let info_ok = le→ltb info pgsize above.2 in
      let word_ok : (n : ℕ) → ltb (info + n) pgsize ≡ false =
        λ n. le→ltb (info + n) pgsize (omega (arith, above.2)) in
      let half_ok : (n : ℕ) → ltb (info + n + 8) pgsize ≡ false =
        λ n. le→ltb (info + n + 8) pgsize (omega (arith, above.2)) in
      rw (a1, frame_ok, a2, dir_ok, a3, a4, sp_ok, a5, info_ok, run1)
        (rw (word_ok 0, half_ok 0, run2, word_ok 16, half_ok 16, run3, word_ok 32, half_ok 32) refl)

  -- The memory behind the three mappings, in the pages that hold no tables.
  abbrev pub noted : Memory
  noted = table_set before.mem info tf k.trap_sec_start

  created :
      (s' : Phys)
      → ((a : ℕ)
          → has (a / pgsize * pgsize) (info ∷ us ∷ ks ∷ tf ∷ own) ≡ true
          → s'.mem a ≡ noted a)
      → SameBounds k.phys s'
      → Created k (record k { phys = s'; procs = with_regions }) i tf pt ks info own
  created s' same bounds =
      let (x, y, al, al', al'') = frames_apart k i tf pt ks us info xs b in
      let apart_info = table_set-apart before.mem info tf k.trap_sec_start in
      record {
        self = regions_here;
        others = regions_else;
        rest = refl;
        frame = λ a ge lt.
            let page : a / pgsize * pgsize ≡ tf = omega (arith, al) in
            same a (ground (arith, page))
            ∙ apart_info a al'' (λ e. y (omega (arith, page, e)))
            ∙ table_cleared-frame k i tf pt ks us info xs b a ge lt;
        table =
            table_set-HoldsRegions before.mem s'.mem info tf k.trap_sec_start al''
              λ a page. same a (ground (arith, page));
        spared = λ a h.
            same a (ground (arith, h))
            ∙ apart_info a al'' (pages_apart k i tf pt ks us info xs b (a / pgsize * pgsize) h).2
            ∙ table_cleared-own k i tf pt ks us info xs b a h;
        bounds = bounds;
      }

  -- Let the spaces be well formed with five pages tf, pt, ks, us, info at the head of the free list and at
  -- least six more, the pool lie above the user stack's top page and the trap section's first page and
  -- below the highest address, the trap section be aligned and not below the user stack, and process i be
  -- the first free one. Then alloc_process returns i; the spaces are well formed, and the space of the new
  -- directory pt maps the page below the stack's top to us (user, writable), tf to itself (kernel,
  -- writable), the trap section's first page to itself (kernel, executable) and nothing else; the entries
  -- of the spaces that roots names are as before. Process i is given pt, tf, info, the stack's end ks + 4096
  -- and three regions and is otherwise as before; its trapframe is zero but for the stack pointer, and its
  -- table holds the stack, the context and the system region. The other processes, the rest of the kernel's
  -- state and the memory of the pages of own are as before, and at most six more pages are taken.
  pub alloc_process-Built :
      (k' : Kernel) × (lab' : Labels) × (xs' : List ℕ) × (alloc_process k ≡ ok i k')
      × Built k'.phys lab' xs'
          (info ∷ us ∷ ks ∷ tf ∷ own)
          (add_root roots pt)
          (new_space f pt us tf k.trap_sec_start)
      × Created k k' i tf pt ks info own
      × (length xs ≤ length xs' + 6)
  unfolding alloc_process
  alloc_process-Built =
      let fit = tf_fits in
      let choose : Option ℕ → KernelCmd ℕ =
        λ o. elim o [ none ↦ stop | some j ↦ init_vm_space j ] in
      let (s1, lab1, xs1, run1, d1, u1, same1, bounds1) =
        map_noted pt (user_stack_top - pgsize) us stack_perm info 0 2 ready_space
          (add_root_here roots pt) (has_head info (us ∷ ks ∷ tf ∷ own)) (omega arith) (omega arith)
          (omega arith) us_low (omega (arith, enough))
          (empty_here f pt (user_stack_top - pgsize)) in
      let (s2, s3, lab3, xs3, run2, run3, d3, u3, same3, bounds3) =
        two_mappings roots f pt tf us ks info k.trap_sec_start d1 (omega (arith, enough, u1)) fit.0
          fit.1 fit.2 trap_al trap_ge fit.3 in
      let trap = k.trap_sec_start in
      let first = region_set s1.mem info 0 (user_stack_top - pgsize) 2 in
      let first' = region_set before.mem info 0 (user_stack_top - pgsize) 2 in
      let k' = record k {
        phys = with_memory s3 (region_set s3.mem info 2 trap 4);
        procs = with_regions;
      } in
      (
        k',
        lab3,
        xs3,
        ap (λ o. choose o k) found ∙ init_vm_space_run s1 s2 s3 run1 run2 run3,
        d3,
        created (with_memory s3 (region_set s3.mem info 2 trap 4))
            (λ a h.
              same3 a h
              ∙ region_set-same info 2 trap 4 (region_set first info 1 tf 3)
                  (region_set first' info 1 tf 3) a
                  (region_set-same info 1 tf 3 first first' a (same1 a h)))
            (bounds3.0 ∙ bounds1.0, bounds3.1 ∙ bounds1.1),
        omega (arith, u1, u3),
      )
