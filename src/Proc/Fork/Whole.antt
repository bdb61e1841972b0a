-- ===== src/Proc/Fork/Whole.antt =====
-- `do_fork` (kernel/process.c) from its call to its return.
use mypkecode.Proc.Fork.{as_int}
use mypkecode.Base.{
  ℕ, suc, ◌+◌, ◌-◌, ◌%◌, ◌^◌, ◌≤◌, ◌<◌, ◌≡◌, ◌≢◌, ◌∙◌, ap, Bool, true, false, some, List, [], ◌∷◌,
  has, length, ◌==◌, arith, ok, Bool-cases, inl, inr,
}
use mypkecode.Phys.{pgsize}
use mypkecode.Vmm.{maxva}
use mypkecode.Vmm.Lookup.{pa_of}
use mypkecode.Vmm.Space.{Labels}
use mypkecode.Vmm.Built.{Built, add_root}
use mypkecode.Kernel.{nproc, ProcPtr, Process, Kernel}
use mypkecode.Kernel.Status.{free, ready}
use mypkecode.Sched.Queue.{IsLinked, IsLinked-frame, IsQueue}
use mypkecode.Proc.{user_stack_top, first_free}
use mypkecode.Proc.Mappings.{new_space, add_root_here}
use mypkecode.Proc.Created.{Created}
use mypkecode.Proc.Alloc.{first_free-is_free, alloc_process-Built}
use mypkecode.Proc.Fork.{do_fork}
use mypkecode.Proc.Fork.State.{Forking}
use mypkecode.Proc.Fork.Regions.{Segment, pages_for_all, AllForked}
use mypkecode.Proc.Fork.Loop.{fork_regions-Step}
use mypkecode.Proc.Fork.Parent.{IsParent}
use mypkecode.Proc.Fork.Start.{
  with_copies, old_pages, directories_differ, started-Ready, started_table, AllLoaded-AllForkable,
  start_run, parent_root,
}
use mypkecode.Proc.Fork.Child.{Child}
use mypkecode.Proc.Fork.Finish.{marked, make_ready-Inserts, named-Built}
use mypkecode.Proc.Fork.Outcome.{left_frame, at_end-Child, end_AllForked}

-- A process of the queue is READY.
queued-ready :
    (procs : ℕ → Process) (h : ProcPtr) (xs : List ℕ) (x : ℕ)
    → IsLinked procs h xs
    → has x xs ≡ true
    → (procs x).status ≡ ready
queued-ready procs h [] x l i = absurd (cc)
queued-ready procs h (y ∷ ys) x l i = elim (Bool-cases (y == x)) [
  | inl e ↦ let here : y ≡ x = ground (arith, e) in rw (← here) (l.1)
  | inr e ↦ queued-ready procs (procs y).queue_next ys x l.2 (rw e at i)
]

module _ (k : Kernel) (p c : ℕ) {lab : Labels} {own : List ℕ} {roots : ℕ → Bool} {f : ℕ → ℕ → ℕ}
    (tf pt ks us info : ℕ) (xs queue : List ℕ) (gs : List Segment)
    (b : Built k.phys lab (tf ∷ pt ∷ ks ∷ us ∷ info ∷ xs) own roots f)
    (par : IsParent k p own roots f gs) (alive : (k.procs p).status ≢ free)
    (waiting : IsQueue k queue) (found : first_free nproc 0 k.procs ≡ some c)
    (enough : 6 + pages_for_all gs ≤ length xs)
    (apart : user_stack_top + pgsize ≤ k.phys.free_mem_start_addr)
    (low : k.phys.free_mem_end_addr ≤ maxva) (trap_al : k.trap_sec_start % pgsize ≡ 0)
    (trap_ge : user_stack_top ≤ k.trap_sec_start)
    (trap_lt : k.trap_sec_start + pgsize ≤ k.phys.free_mem_start_addr) where
  child_free : ((k.procs c).status ≡ free) × (c < nproc)
  child_free = let (s, lt) = first_free-is_free nproc 0 k.procs c found in (s, omega (arith, lt))

  differ : p ≢ c
  differ e = alive (ap (λ (i : ℕ). (k.procs i).status) e ∙ child_free.0)

  unqueued : has c queue ≡ false
  unqueued = elim (Bool-cases (has c queue)) [
    | inl y ↦
        absurd (cc (queued-ready k.procs k.ready_queue_head queue c waiting.linked y, child_free.0))
    | inr n ↦ n
  ]

  -- The queue does not change before the child is put into it.
  module _ (k1 t : Kernel) (cr : Created k k1 c tf pt ks info own)
      (head : t.ready_queue_head ≡ k1.ready_queue_head)
      (others : (q : ℕ) → q ≢ c → t.procs q ≡ k1.procs q) where
    still_waiting : IsQueue t queue
    still_waiting = record {
      linked =
          let same : t.ready_queue_head ≡ k.ready_queue_head =
            head ∙ ap (λ (x : Kernel). x.ready_queue_head) cr.rest in
          rw same (
            IsLinked-frame k.procs t.procs k.ready_queue_head queue waiting.linked λ x i.
              let other : x ≢ c = λ e. absurd (cc (ap (λ y. has y queue) e, i, unqueued)) in
              others x other ∙ cr.others x other);
      distinct = waiting.distinct;
      in_pool = waiting.in_pool;
    }

  -- Let the spaces be well formed, with five pages tf, pt, ks, us, info at the head of the free
  -- list, six more, and two more for each region of code and three for each page of data; let the
  -- pool of pages lie above the user's stack and one page more, and end at MAXVA at most, the trap
  -- section begin a page and lie between that stack and the pool, c be the first FREE process, and
  -- the ready queue hold the processes queue. Let the parent p be not FREE, have a space, own the
  -- pages of its table of regions, its trapframe and its stack, and let its table hold the stack,
  -- the context, the system region and then at most 253 regions of code and data, which share no
  -- page. A region of data begins at the beginning of a page, lies below the stack's page, and has
  -- its pages owned by the parent; a region of code has fewer than 2^32 pages, its first page below
  -- the stack's page, and a physical address below 2^61. Then do_fork returns the pid of c as an
  -- int. The spaces are well formed; the child's space has the stack, the trapframe and the trap
  -- section, in each page of data a new page with the parent's contents, writable, at the first page
  -- of each region of code the parent's page itself, executable, and is otherwise empty; the entries
  -- of the other spaces are as before. The child is READY at the end of the queue with p as its
  -- parent, its stack's page and its trapframe are copies but for a0, which is 0, and its table has
  -- the first three regions and those of code, not those of data. The pages of own, the other
  -- processes but for their links, and the rest of the kernel's state are as before.
  pub do_fork-Child :
      (t : Forking) × (do_fork p k ≡ ok (as_int (k.procs c).pid) t.k)
      × Built t.k.phys t.lab t.xs t.own (add_root roots pt) t.f
      × Child k t.k p c tf pt ks us info own f t.f gs queue
      × AllForked
          (add_root roots pt)
          p
          c
          (k.procs p).pagetable
          (k.procs p).mapped_info
          pt
          info
          (record { k = k; lab = lab; xs = tf ∷ pt ∷ ks ∷ us ∷ info ∷ xs; own = own; f = f })
          t
          gs
  unfolding do_fork
  do_fork-Child =
      let chain = b.space.pool.chain in
      let tf_ge : user_stack_top ≤ tf = omega (arith, apart, chain.2) in
      let small : k.phys.free_mem_end_addr ≤ 2 ^ 61 = omega (arith, low) in
      let (k1, lab1, xs1, run1, b1, cr, u1) =
        alloc_process-Built k c tf pt ks us info xs b (omega (arith, enough)) apart low trap_al
          trap_ge trap_lt found in
      let far =
        directories_differ k k1 p c tf pt ks us info xs xs1 gs b b1 cr par differ tf_ge trap_ge
          small in
      let old =
        old_pages k k1 p c tf pt ks us info xs xs1 gs b b1 cr par differ tf_ge trap_ge small
          (k.procs p).mapped_info par.own_info in
      let s0 : Forking = record {
        k =
            with_copies k1 us (pa_of (f (k.procs p).pagetable (user_stack_top - pgsize))) tf
              (k.procs p).trapframe;
        lab = lab1;
        xs = xs1;
        own = info ∷ us ∷ ks ∷ tf ∷ own;
        f = new_space f pt us tf k.trap_sec_start;
      } in
      let (t, run2, st, done) =
        fork_regions-Step (add_root roots pt) p c (k.procs p).pagetable (k.procs p).mapped_info pt
          info
          (parent_root k k1 p c tf pt ks us info xs xs1 gs b b1 cr par differ tf_ge trap_ge small)
          (add_root_here roots pt) differ far old.2 gs s0 3 3
          (started-Ready k k1 p c tf pt ks us info xs xs1 gs b b1 cr par differ tf_ge trap_ge small)
          (omega arith) (omega (arith, par.room))
          (AllLoaded-AllForkable k k1 p c tf pt ks us info xs xs1 gs b b1 cr par differ tf_ge
            trap_ge small gs par.loaded)
          par.apart
          (started_table k k1 p c tf pt ks us info xs xs1 gs b b1 cr par differ tf_ge trap_ge small)
          (omega (arith, enough, u1)) in
      let frame =
        left_frame k k1 p c tf pt ks us info xs xs1 gs b b1 cr par differ tf_ge trap_ge small t
          (pages_for_all gs) st in
      let own_frame : has (t.k.procs c).trapframe t.own ≡ true =
        ap (λ (n : ℕ). has n t.own) frame ∙ st.grows tf (ground arith) in
      let (k2, run3, queued, ins) =
        make_ready-Inserts t p c own_frame st.built queue
          (still_waiting k1 t.k cr (ap (λ (x : Kernel). x.ready_queue_head) st.rest) st.others)
          unqueued child_free.1 in
      let child =
        at_end-Child k k1 p c tf pt ks us info xs xs1 gs b b1 cr par differ tf_ge trap_ge small t
          (pages_for_all gs) st k2 queue queued ins in
      let regions : (k1.procs p).total_mapped_region ≡ suc (suc (suc (length gs))) =
        ap (λ (q : Process). q.total_mapped_region) (cr.others p differ)
        ∙ par.total
        ∙ omega arith in
      let begin =
        start_run k k1 p c tf pt ks us info xs xs1 gs b b1 cr par differ tf_ge trap_ge small
          (length gs) in
      let phys : k2.phys ≡ (marked t.k p c).phys = ap (λ (x : Kernel). x.phys) ins.rest in
      let built =
        named-Built t p c own_frame st.built queue
          (still_waiting k1 t.k cr (ap (λ (x : Kernel). x.ready_queue_head) st.rest) st.others)
          unqueued child_free.1 in
      (
        record t { k = k2 },
        rw (run1, regions, begin, run2) run3
            ∙ ap (λ (q : Process). ok (as_int q.pid) k2) child.self,
        rw phys built,
        child,
        end_AllForked k k1 p c tf pt ks us info xs xs1 gs b b1 cr par differ tf_ge trap_ge small t
            (pages_for_all gs) st k2 queue queued ins gs par.loaded done,
      )
