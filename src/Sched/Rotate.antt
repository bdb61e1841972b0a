-- ===== src/Sched/Rotate.antt =====
-- The three statements `p->status = READY; insert_to_ready_queue(p); schedule();` on the running
-- process, which `sys_user_yield`, `rrsched` and `wait` share.
use mypkecode.Base.{
  ℕ, ◌≤◌, ◌<◌, ◌≡◌, ◌≢◌, refl, ap, ◌∙◌, true, false, none, List, [], ◌∷◌, ◌++◌, has, ◌==◌, arith,
  user, Bool-cases, inl, inr, ◌>>◌, subst, sym,
}
use mypkecode.Phys.{pgsize}
use mypkecode.Kernel.{nproc, ProcPtr, Process, Kernel, KernelCmd, set_proc, update}
use mypkecode.Kernel.Status.{ready}
use mypkecode.Sched.{insert_to_ready_queue, schedule}
use mypkecode.Sched.Queue.{IsQueue, IsLinked-update}
use mypkecode.Sched.Insert.{Inserts, insert_to_ready_queue-append}
use mypkecode.Sched.Schedule.{resumed, schedule-resumed, IsQueue-tail}

abbrev pub give_up : ℕ → (Process → Process) → KernelCmd (Unit {0})
give_up c f = set_proc c f >> insert_to_ready_queue c >> schedule

-- The machine after a process gave up the processor: process `x` runs, the queue holds `rest`, and
-- the pool is as it was but for the links and the caller, which is READY.
pub record Rotated (k k' : Kernel) (c : ℕ) (f : Process → Process) (x : ℕ) (rest : List ℕ)
    : Type 0 where
  pub queue : IsQueue k' rest
  pub resumes :
      k' ≡ resumed (record k { procs = k'.procs; ready_queue_head = k'.ready_queue_head }) x
  pub others :
      (q : ℕ) → q ≢ c → k'.procs q ≡ record (k.procs q) { queue_next = (k'.procs q).queue_next }
  pub self :
      k'.procs c ≡ record (f (k.procs c)) { status = ready; queue_next = (k'.procs c).queue_next }
  pub next_ready : (k'.procs x).status ≡ ready

module _ (k : Kernel) {k2 : Kernel} {c : ℕ} (f : Process → Process)
    (i : Inserts (record k { procs = update k.procs c (f (k.procs c)) }) k2 c) where
  pub inserted_others :
      (y : ℕ) → y ≢ c → k2.procs y ≡ record (k.procs y) { queue_next = (k2.procs y).queue_next }
  unfolding update
  inserted_others y n = let e : (c == y) ≡ false = ground arith in i.others y n ∙ rw e refl

  pub inserted_self :
      k2.procs c ≡ record (f (k.procs c)) { status = ready; queue_next = (k2.procs c).queue_next }
  unfolding update
  inserted_self =
      let e : (c == c) ≡ true = ground arith in
      let whole : k2.procs c ≡ record (f (k.procs c)) { status = ready; queue_next = none } =
        i.self ∙ rw e refl in
      whole
      ∙ ap (λ n. record (f (k.procs c)) { status = ready; queue_next = n })
          (sym (ap (λ (p : Process). p.queue_next) whole))

  pub inserted_trapframe :
      (f (k.procs c)).trapframe ≡ (k.procs c).trapframe
      → (x : ℕ) → (k2.procs x).trapframe ≡ (k.procs x).trapframe
  inserted_trapframe same x = elim (Bool-cases (x == c)) [
    | inl h ↦
        let e : x ≡ c = ground arith in
        rw e (ap (λ (p : Process). p.trapframe) inserted_self ∙ same)
    | inr h ↦ ap (λ (p : Process). p.trapframe) (inserted_others x (ground arith))
  ]

pub give_up-Rotated :
    (k : Kernel) (c : ℕ) (f : Process → Process) (xs : List ℕ) (x : ℕ) (rest : List ℕ)
    → IsQueue k xs
    → has c xs ≡ false
    → c < nproc
    → (f (k.procs c)).trapframe ≡ (k.procs c).trapframe
    → xs ++ c ∷ [] ≡ x ∷ rest
    → pgsize ≤ (k.procs x).trapframe
    → (k' : Kernel) × (give_up c f k ≡ user k') × Rotated k k' c f x rest
give_up-Rotated k c f xs x rest q out b same line page =
    let k1 = record k { procs = update k.procs c (f (k.procs c)) } in
    let q1 : IsQueue k1 xs = record {
      linked = IsLinked-update k.procs k.ready_queue_head xs c (f (k.procs c)) q.linked out;
      distinct = q.distinct;
      in_pool = q.in_pool;
    } in
    let (k2, run, q2, i) = insert_to_ready_queue-append k1 xs c q1 out b in
    let q2' : IsQueue k2 (x ∷ rest) = subst (IsQueue k2) line q2 in
    let h : ProcPtr = (k2.procs x).queue_next in
    let at : pgsize ≤ (k2.procs x).trapframe = rw (inserted_trapframe k f i same x) page in
    (
      resumed (record k2 { ready_queue_head = h }) x,
      rw run (schedule-resumed k2 x rest q2' at),
      record {
        queue = IsQueue-tail k2 x rest q2';
        resumes =
            ap (λ (kk : Kernel). resumed (record kk { procs = k2.procs; ready_queue_head = h }) x)
              i.rest;
        others = inserted_others k f i;
        self = inserted_self k f i;
        next_ready = q2'.linked.1;
      },
    )
