-- ===== src/Syscall/Turns.antt =====
-- The calls that give up the processor: `sys_user_yield`, `sys_user_exit` and `sys_user_wait`
-- (kernel/syscall.c, kernel/process.c).
use mypkecode.Base.{
  ℕ, ◌≤◌, ◌<◌, ◌≡◌, ◌≢◌, refl, false, none, some, List, [], ◌∷◌, ◌++◌, has, ◌==◌, arith, user, pure,
  and_then-user,
}
use mypkecode.Phys.{pgsize}
use mypkecode.Kernel.{nproc, Process, Kernel, update}
use mypkecode.Kernel.Status.{ready, zombie}
use mypkecode.Sched.{insert_to_ready_queue, schedule, free_process}
use mypkecode.Sched.Queue.{IsQueue, IsLinked-update}
use mypkecode.Sched.Schedule.{resumed, schedule-resumed, IsQueue-tail}
use mypkecode.Sched.Rotate.{Rotated, give_up-Rotated}
use mypkecode.Proc.Fork.{as_int}
use mypkecode.Proc.Wait.{wait_flag, wait_loop, wait}
use mypkecode.Syscall.{sys_user_yield, sys_user_exit, sys_user_wait}

abbrev pub to_ready : Process → Process
to_ready p = record p { status = ready }

-- `sys_user_yield` of a running process that is not queued puts it at the end of the ready queue,
-- READY, and resumes the process that is then at the head, which is the caller itself where the
-- queue was empty, provided that this process has a trapframe above page 0. No other process
-- changes but in its link, and the call does not return to its own caller.
pub sys_user_yield-Rotated :
    (k : Kernel) (c : ℕ) (xs : List ℕ) (x : ℕ) (rest : List ℕ)
    → k.current ≡ some c
    → IsQueue k xs
    → has c xs ≡ false
    → c < nproc
    → xs ++ c ∷ [] ≡ x ∷ rest
    → pgsize ≤ (k.procs x).trapframe
    → (k' : Kernel) × (sys_user_yield k ≡ user k') × Rotated k k' c to_ready x rest
unfolding sys_user_yield
sys_user_yield-Rotated k c xs x rest cur q out b line page =
    let k1 = record k { current = some c } in
    let q1 : IsQueue k1 xs = record {
      linked = q.linked;
      distinct = q.distinct;
      in_pool = q.in_pool;
    } in
    let (k', run, r) = give_up-Rotated k1 c to_ready xs x rest q1 out b refl line page in
    rw cur (
      k',
      and_then-user
          (insert_to_ready_queue c (record k1 { procs = update k.procs c (to_ready (k.procs c)) }))
          schedule (pure 0) k' run,
      r,
    )

-- `sys_user_wait` of a running process that is not queued and has a child, whatever the child's
-- state and whatever pid is asked for, puts the caller at the end of the ready queue and resumes
-- the process that is then at the head, provided that this has a trapframe above page 0. It does
-- not return to its own caller, so the loop that looks for a ZOMBIE is not reached.
pub sys_user_wait-Rotated :
    (k : Kernel) (c pid flag : ℕ) (xs : List ℕ) (x : ℕ) (rest : List ℕ)
    → k.current ≡ some c
    → wait_flag nproc 0 (as_int pid) (some c) k.procs none ≡ some flag
    → IsQueue k xs
    → has c xs ≡ false
    → c < nproc
    → xs ++ c ∷ [] ≡ x ∷ rest
    → pgsize ≤ (k.procs x).trapframe
    → (k' : Kernel) × (sys_user_wait pid k ≡ user k') × Rotated k k' c to_ready x rest
unfolding sys_user_wait wait
sys_user_wait-Rotated k c pid flag xs x rest cur child q out b line page =
    let k1 = record k { current = some c } in
    let q1 : IsQueue k1 xs = record {
      linked = q.linked;
      distinct = q.distinct;
      in_pool = q.in_pool;
    } in
    let (k', run, r) = give_up-Rotated k1 c to_ready xs x rest q1 out b refl line page in
    rw (cur, child)
      (
        k',
        and_then-user
            (insert_to_ready_queue c
              (record k1 { procs = update k.procs c (to_ready (k.procs c)) }))
            schedule (wait_loop (as_int pid) (some flag)) k' run,
        r,
      )

-- `sys_user_exit` of a running process that is not queued, with a queue that is not empty and
-- whose head has a trapframe above page 0, makes the caller a ZOMBIE and resumes the head of the
-- queue, which leaves the queue. No other process changes.
pub sys_user_exit-resumed :
    (k : Kernel) (c code x : ℕ) (rest : List ℕ)
    → k.current ≡ some c
    → IsQueue k (x ∷ rest)
    → has c (x ∷ rest) ≡ false
    → pgsize ≤ (k.procs x).trapframe
    → (k' : Kernel) × (sys_user_exit code k ≡ user k')
      × IsQueue k' rest
      × (k' ≡ resumed (record k { procs = k'.procs; ready_queue_head = k'.ready_queue_head }) x)
      × ((k'.procs c).status ≡ zombie)
      × ((q : ℕ) → q ≢ c → k'.procs q ≡ k.procs q)
unfolding sys_user_exit free_process update
sys_user_exit-resumed k c code x rest cur q out page =
    let k1 = record k {
      current = some c;
      procs = update k.procs c (record (k.procs c) { status = zombie });
    } in
    let q1 : IsQueue k1 (x ∷ rest) = record {
      linked = IsLinked-update k.procs k.ready_queue_head (x ∷ rest) c _ q.linked out;
      distinct = q.distinct;
      in_pool = q.in_pool;
    } in
    let other : (c == x) ≡ false = ground arith in
    let at : pgsize ≤ (k1.procs x).trapframe = rw other page in
    rw cur (
      resumed (record k1 { ready_queue_head = (k1.procs x).queue_next }) x,
      rw (schedule-resumed k1 x rest q1 at) refl,
      IsQueue-tail k1 x rest q1,
      refl,
      ground arith,
      λ p n. ground arith,
    )
