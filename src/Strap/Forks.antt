-- ===== src/Strap/Forks.antt =====
-- The system call `fork` from the trap to the return to user mode: `smode_trap_handler` (kernel/strap.c) with
-- `do_fork` (kernel/process.c).
use mypkecode.Proc.Fork.{as_int}
use mypkecode.Base.{
  ℕ, ◌+◌, ◌*◌, ◌/◌, ◌%◌, ◌≤◌, ◌<◌, ◌≡◌, ◌≢◌, refl, ap, ◌∙◌, sym, Bool, false, some, List, [], ◌∷◌,
  ◌++◌, length, ◌==◌, arith, user, and_then, if◌then◌else◌,
}
use mypkecode.Base.Words.{u64, has_bit}
use mypkecode.Phys.{pgsize, write}
use mypkecode.Phys.Laws.{write_self, write_ne}
use mypkecode.Vmm.{maxva}
use mypkecode.Vmm.Space.{Labels}
use mypkecode.Vmm.Built.{Built, changed-Built}
use mypkecode.Kernel.{nproc, ProcPtr, Process, Kernel}
use mypkecode.Kernel.Status.{free}
use mypkecode.Trapframe.{
  off_a0, off_epc, off_kernel_sp, off_kernel_satp, off_kernel_trap, trapframe_size, sstatus_spp,
}
use mypkecode.Sched.Queue.{IsQueue}
use mypkecode.Sched.Schedule.{resumed, resumed_mem}
use mypkecode.Proc.{user_stack_top, first_free}
use mypkecode.Proc.Created.{HoldsRegions-same, first_regions}
use mypkecode.Proc.Alloc.{first_free-is_free}
use mypkecode.Proc.Wait.{deref}
use mypkecode.Proc.Fork.{do_fork}
use mypkecode.Proc.Fork.Regions.{Segment, regions_of, pages_for_all}
use mypkecode.Proc.Fork.Loop.{length-regions_of}
use mypkecode.Proc.Fork.Parent.{IsParent}
use mypkecode.Proc.Fork.Child.{Child}
use mypkecode.Proc.Fork.Whole.{do_fork-Child}
use mypkecode.Syscall.{do_syscall, sys_user_fork}
use mypkecode.Strap.{cause_user_ecall, smode_trap_handler}
use mypkecode.Strap.Calls.{saved, smode_trap_handler-return}

-- Three words of the trapframe are set for the next trap, and no other word.
resumed_mem-apart :
    (k : Kernel) (x tf a : ℕ)
    → (k.procs x).trapframe ≡ tf
    → a ≢ tf + off_kernel_sp
    → a ≢ tf + off_kernel_satp
    → a ≢ tf + off_kernel_trap
    → resumed_mem k x a ≡ k.phys.mem a
unfolding write
resumed_mem-apart k x tf a e h h' h'' = ground (arith, e, h, h', h'')

module _ (k : Kernel) (p c : ℕ) {lab : Labels} {own : List ℕ} {roots : ℕ → Bool} {f : ℕ → ℕ → ℕ}
    (tf pt ks us info : ℕ) (xs queue : List ℕ) (gs : List Segment)
    (b : Built k.phys lab (tf ∷ pt ∷ ks ∷ us ∷ info ∷ xs) own roots f)
    (par : IsParent k p own roots f gs) (alive : (k.procs p).status ≢ free)
    (waiting : IsQueue k queue) (found : first_free nproc 0 k.procs ≡ some c)
    (enough : 6 + pages_for_all gs ≤ length xs)
    (apart : user_stack_top + pgsize ≤ k.phys.free_mem_start_addr)
    (low : k.phys.free_mem_end_addr ≤ maxva) (trap_al : k.trap_sec_start % pgsize ≡ 0)
    (trap_ge : user_stack_top ≤ k.trap_sec_start)
    (trap_lt : k.trap_sec_start + pgsize ≤ k.phys.free_mem_start_addr)
    (running : k.current ≡ some p) (ecall : k.scause ≡ cause_user_ecall)
    (umode : has_bit k.sstatus sstatus_spp ≡ false)
    (number : k.phys.mem ((k.procs p).trapframe + off_a0) ≡ 68)
    (pages_apart : (k.procs p).mapped_info ≢ (k.procs p).trapframe) where
  abbrev ptf : ℕ
  ptf = (k.procs p).trapframe

  abbrev k0 : Kernel
  k0 = saved k ptf

  frame_fits : (ptf % pgsize ≡ 0) × (pgsize ≤ ptf)
  frame_fits = let o = b.owned ptf par.own_frame in (o.2, o.3)

  saved_apart : (a : ℕ) → a ≢ ptf + off_epc → k0.phys.mem a ≡ k.phys.mem a
  saved_apart a h =
      write_ne (write k.phys.mem (ptf + off_epc) k.sepc) (ptf + off_epc) (u64 (k.sepc + 4)) a
        (λ e. h (sym e))
      ∙ write_ne k.phys.mem (ptf + off_epc) k.sepc a (λ e. h (sym e))

  saved-Built : Built k0.phys lab (tf ∷ pt ∷ ks ∷ us ∷ info ∷ xs) own roots f
  saved-Built =
      changed-Built k0.phys.mem ptf b par.own_frame
        λ a h. saved_apart a (λ e. h (omega (arith, e, frame_fits.0)))

  saved-IsParent : IsParent k0 p own roots f gs
  saved-IsParent =
      let o = b.owned (k.procs p).mapped_info par.own_info in
      record {
        rooted = par.rooted;
        own_info = par.own_info;
        own_frame = par.own_frame;
        own_stack = par.own_stack;
        total = par.total;
        room = par.room;
        table =
            HoldsRegions-same k.phys.mem k0.phys.mem (k.procs p).mapped_info 0
              (first_regions ptf k.trap_sec_start ++ regions_of gs)
              (λ a ge lt. saved_apart a (λ e.
                pages_apart
                  (omega (arith, e, ge, lt, o.2, frame_fits.0, par.room, length-regions_of gs))))
              par.table;
        loaded = par.loaded;
        apart = par.apart;
      }

  differ : p ≢ c
  differ e =
      alive (ap (λ (i : ℕ). (k.procs i).status) e ∙ (first_free-is_free nproc 0 k.procs c found).0)

  fork_call : sys_user_fork k0 ≡ do_fork p k0
  unfolding sys_user_fork
  fork_call = ap (λ (o : ProcPtr). and_then {B = ℕ} (deref o k0) (λ i. do_fork i)) running

  new_frame : (tf % pgsize ≡ 0) × (ptf ≢ tf)
  new_frame = let o = (b.owned ptf par.own_frame).1 in (b.space.pool.chain.1, ground (arith, o))

  -- The words of the two trapframes when the parent goes on.
  module _ (t : Kernel) (g : ℕ → ℕ → ℕ)
      (child : Child k0 t p c tf pt ks us info own f g gs queue) where
    abbrev pid : ℕ
    pid = as_int (k.procs c).pid

    abbrev answered : Kernel
    answered = record t { phys = record t.phys { mem = write t.phys.mem (ptf + off_a0) pid } }

    same_frame : (t.procs p).trapframe ≡ ptf
    same_frame = ap (λ (q : Process). q.trapframe) (child.others p differ)

    parent_a0 : resumed_mem answered p (ptf + off_a0) ≡ pid
    parent_a0 =
        resumed_mem-apart answered p ptf (ptf + off_a0) same_frame (λ e. omega (arith, e))
          (λ e. omega (arith, e)) (λ e. omega (arith, e))
        ∙ write_self t.phys.mem (ptf + off_a0) pid

    parent_epc : answered.phys.mem ((t.procs p).trapframe + off_epc) ≡ u64 (k.sepc + 4)
    parent_epc =
        let page : (ptf + off_epc) / pgsize * pgsize ≡ ptf = omega (arith, frame_fits.0) in
        ap (λ (n : ℕ). answered.phys.mem (n + off_epc)) same_frame
        ∙ write_ne t.phys.mem (ptf + off_a0) pid (ptf + off_epc) (λ e. omega (arith, e))
        ∙ child.spared (ptf + off_epc) (rw page par.own_frame)
        ∙ write_self (write k.phys.mem (ptf + off_epc) k.sepc) (ptf + off_epc) (u64 (k.sepc + 4))

    child_word :
        (o : ℕ)
        → o < trapframe_size
        → resumed_mem answered p (tf + o) ≡ (if o == off_a0 then 0 else k0.phys.mem (ptf + o))
    child_word o lt =
        let (al, far) = new_frame in
        let other : (n : ℕ) → n < pgsize → tf + o ≢ ptf + n =
          λ n small e. far (omega (arith, e, al, frame_fits.0, lt, small)) in
        resumed_mem-apart answered p ptf (tf + o) same_frame (other off_kernel_sp (omega arith))
          (other off_kernel_satp (omega arith)) (other off_kernel_trap (omega arith))
        ∙ write_ne t.phys.mem (ptf + off_a0) pid (tf + o) (λ e. other off_a0 (omega arith) (sym e))
        ∙ child.frame o lt

    child_register :
        (o : ℕ)
        → o < trapframe_size
        → o ≢ off_a0
        → o ≢ off_epc
        → resumed_mem answered p (tf + o) ≡ k.phys.mem (ptf + o)
    child_register o lt h h' =
        let not_a0 : (o == off_a0) ≡ false = ground (arith, h) in
        child_word o lt ∙ (rw not_a0 (saved_apart (ptf + o) (λ e. h' (omega (arith, e)))))

    child_epc : resumed_mem answered p (tf + off_epc) ≡ u64 (k.sepc + 4)
    child_epc =
        child_word off_epc (omega arith)
        ∙ write_self (write k.phys.mem (ptf + off_epc) k.sepc) (ptf + off_epc) (u64 (k.sepc + 4))

  -- Let a process p that can fork, as do_fork-Child has it, trap by `ecall` from user mode with 68, the number
  -- of fork, in its a0, and let its trapframe and its table of regions be different pages. Then the
  -- handler resumes p behind the `ecall` with the pid of the new process c, as an int, in a0; c has p as its parent and
  -- is at the end of the ready queue, and its trapframe says that it goes on behind the same `ecall`, with
  -- 0 in a0 and what p had at the trap in all other words.
  pub smode_trap_handler-fork :
      (k' : Kernel) × (smode_trap_handler k ≡ user k')
      × (k'.current ≡ some p)
      × (k'.sepc ≡ u64 (k.sepc + 4))
      × (k'.phys.mem (ptf + off_a0) ≡ as_int (k.procs c).pid)
      × (k'.phys.mem (tf + off_a0) ≡ 0)
      × (k'.phys.mem (tf + off_epc) ≡ u64 (k.sepc + 4))
      × ((o : ℕ)
          → o < trapframe_size
          → o ≢ off_a0
          → o ≢ off_epc
          → k'.phys.mem (tf + o) ≡ k.phys.mem (ptf + o))
      × IsQueue k' (queue ++ c ∷ [])
      × ((k'.procs c).parent ≡ some p)
  unfolding do_syscall
  smode_trap_handler-fork =
      let (t, run, bt, child, forked) =
        do_fork-Child k0 p c tf pt ks us info xs queue gs saved-Built saved-IsParent alive
          (record {
            linked = waiting.linked;
            distinct = waiting.distinct;
            in_pool = waiting.in_pool;
          })
          found enough apart low trap_al trap_ge trap_lt in
      let pid = as_int (k.procs c).pid in
      let same : (t.k.procs p).trapframe ≡ ptf =
        ap (λ (q : Process). q.trapframe) (child.others p differ) in
      let current : t.k.current ≡ some p = ap (λ (x : Kernel). x.current) child.rest ∙ running in
      let back =
        smode_trap_handler-return k t.k p pid running ecall umode frame_fits.1
          (rw number (fork_call ∙ run)) current same in
      let g = t.f in
      (
        resumed (answered t.k g child) p,
        back,
        refl,
        parent_epc t.k g child,
        parent_a0 t.k g child,
        child_word t.k g child off_a0 (omega arith),
        child_epc t.k g child,
        child_register t.k g child,
        record {
          linked = child.queued.linked;
          distinct = child.queued.distinct;
          in_pool = child.queued.in_pool;
        },
        ap (λ (q : Process). q.parent) child.self,
      )
