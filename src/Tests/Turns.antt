-- ===== src/Tests/Turns.antt =====
-- Runs of the scheduler and of the calls that give up the processor: process 0 runs, processes 1
-- and 2 are queued, process 3 is blocked.
use mypkecode.Base.{
  ℕ, ◌+◌, ◌*◌, ◌≡◌, ◌≢◌, refl, true, false, none, some, [], ◌∷◌, ◌⊎◌, arith, ok, user, halt, panic,
  ◌==◌, if◌then◌else◌, ◌<◌,
}
use mypkecode.Phys.{pgsize}
use mypkecode.Kernel.{nproc, Status, ProcPtr, Process, Kernel}
use mypkecode.Kernel.Status.{free, ready, blocked, zombie}
use mypkecode.Sched.{insert_to_ready_queue, schedule, is_free_or_zombie}
use mypkecode.Sched.Queue.{IsQueue}
use mypkecode.Sched.Insert.{Inserts, insert_to_ready_queue-append}
use mypkecode.Sched.Schedule.{resumed, schedule-head, schedule-empty}
use mypkecode.Sched.Rotate.{Rotated}
use mypkecode.Syscall.{sys_user_yield, sys_user_exit, sys_user_wait}
use mypkecode.Syscall.Turns.{
  to_ready, sys_user_yield-Rotated, sys_user_exit-resumed, sys_user_wait-Rotated,
}
use mypkecode.Proc.Wait.{wait_flag}
use mypkecode.Strap.{rrsched}
use mypkecode.Strap.Slice.{rested, rrsched-Rotated}
use mypkecode.Tests.{root, machine}

abbrev pub process : (i : ℕ) → Status → (parent next : ProcPtr) → (ticks : ℕ) → Process
process i status parent next ticks = record {
  kstack = root + (8 + i) * pgsize;
  pagetable = root;
  trapframe = root + (16 + i) * pgsize;
  mapped_info = root + (24 + i) * pgsize;
  total_mapped_region = 3;
  pid = i;
  status = status;
  parent = parent;
  queue_next = next;
  tick_count = ticks;
}

abbrev pub pool : ℕ → Process
pool i =
    if i == 0
    then process 0 ready none none 2
    else if i == 1
    then process 1 ready (some 0) (some 2) 0
    else if i == 2
    then process 2 ready none none 0
    else if i == 3
    then process 3 blocked none none 1
    else record (process i free none none 0) { trapframe = 0 }

abbrev pub kernel : ProcPtr → (running : ℕ) → Kernel
kernel head running = record {
  phys = machine;
  procs = pool;
  current = some running;
  ready_queue_head = head;
  g_ufree_page = 0x40_0000;
  g_ticks = 0;
  satp = 0;
  stvec = 0;
  sstatus = 0;
  sepc = 0;
  scause = 8;
  stval = 0;
  sip = 0;
  sscratch = 0;
  smode_trap_vector = 0x8000_4000;
  smode_trap_handler = 0x8000_2000;
  trap_sec_start = 0x8000_4000;
}

pub queue : IsQueue (kernel (some 1) 0) (1 ∷ 2 ∷ [])
queue = record {
  linked = (refl, refl, (refl, refl, refl));
  distinct = (refl, (refl, tt));
  in_pool = (omega arith, (omega arith, tt));
}

no-IsQueue : IsQueue (kernel none 0) []
no-IsQueue = record { linked = refl; distinct = tt; in_pool = tt }

insert_to_ready_queue-append_example :
    (k' : Kernel) × (insert_to_ready_queue 3 (kernel (some 1) 0) ≡ ok tt k')
    × IsQueue k' (1 ∷ 2 ∷ 3 ∷ [])
    × Inserts (kernel (some 1) 0) k' 3
insert_to_ready_queue-append_example =
    insert_to_ready_queue-append (kernel (some 1) 0) (1 ∷ 2 ∷ []) 3 queue refl (omega arith)

schedule-head_example :
    (k' : Kernel) × (schedule (kernel (some 1) 0) ≡ user k')
    × IsQueue k' (2 ∷ [])
    × (k' ≡ resumed (record (kernel (some 1) 0) { ready_queue_head = k'.ready_queue_head }) 1)
    × ((k'.procs 1).status ≡ ready)
schedule-head_example = schedule-head (kernel (some 1) 0) 1 (2 ∷ []) queue (omega arith)

schedule-empty_example :
    ((schedule (kernel none 0) ≡ halt)
      × ((i : ℕ) → i < nproc → is_free_or_zombie (pool i).status ≡ true))
    ⊎ ((schedule (kernel none 0) ≡ panic)
        × ((i : ℕ) × (i < nproc) × (is_free_or_zombie (pool i).status ≡ false)))
schedule-empty_example = schedule-empty (kernel none 0) no-IsQueue

sys_user_yield-Rotated_example :
    (k' : Kernel) × (sys_user_yield (kernel (some 1) 0) ≡ user k')
    × Rotated (kernel (some 1) 0) k' 0 to_ready 1 (2 ∷ 0 ∷ [])
sys_user_yield-Rotated_example =
    sys_user_yield-Rotated (kernel (some 1) 0) 0 (1 ∷ 2 ∷ []) 1 (2 ∷ 0 ∷ []) refl queue refl
      (omega arith) refl (omega arith)

-- Process 1, which is no zombie, is a child of process 0.
sys_user_wait-Rotated_example :
    (k' : Kernel) × (sys_user_wait 1 (kernel (some 1) 0) ≡ user k')
    × Rotated (kernel (some 1) 0) k' 0 to_ready 1 (2 ∷ 0 ∷ [])
unfolding wait_flag
sys_user_wait-Rotated_example =
    sys_user_wait-Rotated (kernel (some 1) 0) 0 1 1 (1 ∷ 2 ∷ []) 1 (2 ∷ 0 ∷ []) refl refl queue refl
      (omega arith) refl (omega arith)

sys_user_exit-resumed_example :
    (k' : Kernel) × (sys_user_exit 0 (kernel (some 1) 0) ≡ user k')
    × IsQueue k' (2 ∷ [])
    × (k'
        ≡ resumed
            (record (kernel (some 1) 0) {
              procs = k'.procs;
              ready_queue_head = k'.ready_queue_head;
            })
            1)
    × ((k'.procs 0).status ≡ zombie)
    × ((q : ℕ) → q ≢ 0 → k'.procs q ≡ pool q)
sys_user_exit-resumed_example =
    sys_user_exit-resumed (kernel (some 1) 0) 0 0 1 (2 ∷ []) refl queue refl (omega arith)

rrsched-Rotated_example :
    (k' : Kernel) × (rrsched (kernel (some 1) 0) ≡ user k')
    × Rotated (kernel (some 1) 0) k' 0 rested 1 (2 ∷ 0 ∷ [])
rrsched-Rotated_example =
    rrsched-Rotated (kernel (some 1) 0) 0 (1 ∷ 2 ∷ []) 1 (2 ∷ 0 ∷ []) refl (omega arith) queue refl
      (omega arith) refl (omega arith)
