-- ===== src/Sched/Schedule.antt =====
-- `schedule` and `switch_to` (kernel/sched.c, kernel/process.c): which process runs next, in what
-- state it is resumed, and when the machine stops.
use mypkecode.Base.{
  ℕ, zero, suc, ◌+◌, ◌≤◌, ◌<◌, ◌≡◌, refl, true, false, some, List, [], ◌∷◌, ◌^◌, ◌==◌, arith, user,
  halt, panic, Bool-cases, inl, inr, bit_or, ◌⊎◌, ltb,
}
use mypkecode.Phys.{pgsize, Memory, write, load, store}
use mypkecode.Kernel.{nproc, Process, Kernel}
use mypkecode.Kernel.Status.{ready}
use mypkecode.Trapframe.{
  off_kernel_sp, off_kernel_trap, off_epc, off_kernel_satp, make_satp, clear_bit, sstatus_spp,
  sstatus_spie, return_to_user,
}
use mypkecode.Sched.{is_free_or_zombie, should_shutdown, schedule, switch_to}
use mypkecode.Sched.Queue.{IsQueue}

-- The memory that a process is resumed with: three slots of its trapframe are set.
abbrev pub resumed_mem : Kernel → ℕ → Memory
resumed_mem k proc =
    let p = k.procs proc in
    let m = write k.phys.mem (p.trapframe + off_kernel_sp) p.kstack in
    let m' = write m (p.trapframe + off_kernel_satp) k.satp in
    write m' (p.trapframe + off_kernel_trap) k.smode_trap_handler

-- The machine goes on in process `proc`: at the user's own program counter and page table, the
-- trapframe at hand for the next trap, user mode and interrupts on for the `sret`.
abbrev pub resumed : Kernel → ℕ → Kernel
resumed k proc =
    let p = k.procs proc in
    record k {
      current = some proc;
      stvec = k.smode_trap_vector;
      phys = record k.phys { mem = resumed_mem k proc };
      sstatus = bit_or (clear_bit k.sstatus sstatus_spp) (2 ^ sstatus_spie);
      sepc = k.phys.mem (p.trapframe + off_epc);
      satp = make_satp p.pagetable;
      sscratch = p.trapframe;
    }

resumed-epc :
    (k : Kernel) (proc : ℕ)
    → resumed_mem k proc ((k.procs proc).trapframe + off_epc)
      ≡ k.phys.mem ((k.procs proc).trapframe + off_epc)
unfolding write
resumed-epc k proc = ground arith

-- A process with a trapframe is resumed with the user's registers: `switch_to` does not return to
-- its caller.
pub switch_to-resumed :
    (k : Kernel) (proc : ℕ)
    → pgsize ≤ (k.procs proc).trapframe
    → switch_to proc k ≡ user (resumed k proc)
unfolding switch_to load store return_to_user
switch_to-resumed k proc h =
    let t = (k.procs proc).trapframe in
    let in_page : (n : ℕ) → ltb (t + n) pgsize ≡ false = λ n. ground arith in
    rw
      (
        in_page off_kernel_sp,
        in_page off_kernel_satp,
        in_page off_kernel_trap,
        in_page off_epc,
        resumed-epc k proc,
      )
      refl

pub schedule-resumed :
    (k : Kernel) (x : ℕ) (xs : List ℕ)
    → IsQueue k (x ∷ xs)
    → pgsize ≤ (k.procs x).trapframe
    → schedule k ≡ user (resumed (record k { ready_queue_head = (k.procs x).queue_next }) x)
unfolding schedule
schedule-resumed k x xs q h =
    let k' = record k { ready_queue_head = (k.procs x).queue_next; current = some x } in
    rw (q.linked.0) (rw (q.linked.1) (switch_to-resumed k' x h))

pub IsQueue-tail :
    (k : Kernel) (x : ℕ) (xs : List ℕ)
    → IsQueue k (x ∷ xs)
    → IsQueue (resumed (record k { ready_queue_head = (k.procs x).queue_next }) x) xs
IsQueue-tail k x xs q = record {
  linked = q.linked.2;
  distinct = q.distinct.1;
  in_pool = q.in_pool.1;
}

-- With a queue that is not empty and whose head has a trapframe above page 0, `schedule` resumes
-- the head in user mode and takes it off the queue. Its status stays READY.
pub schedule-head :
    (k : Kernel) (x : ℕ) (xs : List ℕ)
    → IsQueue k (x ∷ xs)
    → pgsize ≤ (k.procs x).trapframe
    → (k' : Kernel) × (schedule k ≡ user k')
      × IsQueue k' xs
      × (k' ≡ resumed (record k { ready_queue_head = k'.ready_queue_head }) x)
      × ((k'.procs x).status ≡ ready)
schedule-head k x xs q h = (
  resumed (record k { ready_queue_head = (k.procs x).queue_next }) x,
  schedule-resumed k x xs q h,
  IsQueue-tail k x xs q,
  refl,
  q.linked.1,
)

should_shutdown-all :
    (n : ℕ) (procs : ℕ → Process)
    → should_shutdown n procs ≡ true
    → (i : ℕ) → i < n
    → is_free_or_zombie (procs i).status ≡ true
unfolding should_shutdown
should_shutdown-all zero procs h i b = absurd (omega arith)
should_shutdown-all (suc n) procs h i b = elim (Bool-cases (i == n)) [
  | inl e ↦ ground arith
  | inr e ↦ should_shutdown-all n procs (ground arith) i (ground arith)
]

should_shutdown-some :
    (n : ℕ) (procs : ℕ → Process)
    → should_shutdown n procs ≡ false
    → (i : ℕ) × (i < n) × (is_free_or_zombie (procs i).status ≡ false)
unfolding should_shutdown
should_shutdown-some zero procs h = absurd (ground arith)
should_shutdown-some (suc n) procs h = elim (Bool-cases (should_shutdown n procs)) [
  | inl e ↦ (n, omega arith, ground arith)
  | inr e ↦ let r = should_shutdown-some n procs e in (r.0, omega (arith, r.1), r.2)
]

-- With an empty queue `schedule` shuts the machine down and every process of the pool is FREE or
-- ZOMBIE, or it panics and some process of the pool is neither.
pub schedule-empty :
    (k : Kernel)
    → IsQueue k []
    → ((schedule k ≡ halt) × ((i : ℕ) → i < nproc → is_free_or_zombie (k.procs i).status ≡ true))
      ⊎ ((schedule k ≡ panic)
          × ((i : ℕ) × (i < nproc) × (is_free_or_zombie (k.procs i).status ≡ false)))
unfolding schedule
schedule-empty k q = elim (Bool-cases (should_shutdown nproc k.procs)) [
  | inl e ↦ inl (rw (q.linked, e) refl, should_shutdown-all nproc k.procs e)
  | inr e ↦ inr (rw (q.linked, e) refl, should_shutdown-some nproc k.procs e)
]
