-- ===== src/Proc/Fork/Child.antt =====
-- What `do_fork` (kernel/process.c) leaves besides the new address space.
use mypkecode.Base.{
  ℕ, ◌+◌, ◌-◌, ◌*◌, ◌/◌, ◌<◌, ◌≡◌, ◌≢◌, true, false, none, some, ◌&&◌, List, [], ◌∷◌, ◌++◌, has,
  length, ◌==◌, if◌then◌else◌,
}
use mypkecode.Phys.{pgsize}
use mypkecode.Trapframe.{trapframe_size, off_a0}
use mypkecode.Vmm.Lookup.{pa_of}
use mypkecode.Kernel.{Kernel}
use mypkecode.Kernel.Status.{ready}
use mypkecode.Sched.Queue.{IsQueue}
use mypkecode.Proc.{user_stack_top}
use mypkecode.Proc.Mappings.{new_space, given}
use mypkecode.Proc.Created.{HoldsRegions, first_regions}
use mypkecode.Proc.Fork.Regions.{Segment, noted_of_all, covers_any}

-- Process `c` is a child of `p`, READY at the end of the queue, with a copy of the stack's page and of
-- the trapframe, where only `a0` is zero; its table holds the first regions and those of code. The
-- pages of `own`, the other processes but for their links, and all other state are as before. `g` are
-- the entries behind: those of the other spaces, and of the child where no segment is, are known.
pub record Child (k k' : Kernel) (p c tf pt ks us info : ℕ) (own : List ℕ) (f g : ℕ → ℕ → ℕ)
    (gs : List Segment) (queue : List ℕ) : Type 0 where
  pub self : k'.procs c ≡ record (given (k.procs c) tf pt ks info) {
    total_mapped_region = 3 + length (noted_of_all gs);
    status = ready;
    parent = some p;
    queue_next = none;
  }
  pub others :
      (q : ℕ) → q ≢ c → k'.procs q ≡ record (k.procs q) { queue_next = (k'.procs q).queue_next }
  pub rest :
      k' ≡ record k { phys = k'.phys; procs = k'.procs; ready_queue_head = k'.ready_queue_head }
  pub queued : IsQueue k' (queue ++ c ∷ [])
  pub stack :
      (o : ℕ)
      → o < pgsize
      → k'.phys.mem (us + o)
        ≡ k.phys.mem (pa_of (f (k.procs p).pagetable (user_stack_top - pgsize)) + o)
  pub frame :
      (o : ℕ)
      → o < trapframe_size
      → k'.phys.mem (tf + o) ≡ (if o == off_a0 then 0 else k.phys.mem ((k.procs p).trapframe + o))
  pub table : HoldsRegions k'.phys.mem info 0 (first_regions tf k.trap_sec_start ++ noted_of_all gs)
  pub spared : (a : ℕ) → has (a / pgsize * pgsize) own ≡ true → k'.phys.mem a ≡ k.phys.mem a
  pub entries :
      (r va : ℕ)
      → ((r == pt) && covers_any gs (va / pgsize)) ≡ false
      → g r va ≡ new_space f pt us tf k.trap_sec_start r va
