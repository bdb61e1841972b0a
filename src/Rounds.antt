-- ===== src/Rounds.antt =====
-- Sequences of what can happen to the running process: the calls `sys_user_yield`, `sys_user_wait` and
-- `sys_user_exit` (kernel/syscall.c) and the ticks of the timer (kernel/strap.c), those within a time
-- slice and those at its end, with the user's code and the entry into the kernel in between.
pub mod Safety
pub mod Fairness
use mypkecode.Base.{
  ℕ, zero, suc, ◌+◌, ◌≤◌, ◌<◌, ◌≡◌, refl, true, false, none, some, List, [], ◌∷◌, ◌++◌, has, ok,
  user,
}
use mypkecode.Phys.{pgsize}
use mypkecode.Kernel.{nproc, Kernel}
use mypkecode.Sched.{time_slice_len}
use mypkecode.Sched.Queue.{IsQueue}
use mypkecode.Proc.Fork.{as_int}
use mypkecode.Proc.Wait.{wait_flag}
use mypkecode.Syscall.{sys_user_yield, sys_user_wait, sys_user_exit}
use mypkecode.Strap.{rrsched}

-- Process `c` runs and the processes `xs` wait in the ready queue, in this order: all are different
-- and READY, the running one is not among them, and each has a trapframe above page 0.
pub record Scheduled (k : Kernel) (c : ℕ) (xs : List ℕ) : Type 0 where
  pub running : k.current ≡ some c
  pub queue : IsQueue k xs
  pub apart : has c xs ≡ false
  pub in_pool : c < nproc
  pub paged : (p : ℕ) → has p (c ∷ xs) ≡ true → pgsize ≤ (k.procs p).trapframe

-- User code runs and traps: registers and memory change, the pool and the queue do not.
pub record SameTasks (k k' : Kernel) : Type 0 where
  pub same_procs : k'.procs ≡ k.procs
  pub same_current : k'.current ≡ k.current
  pub same_head : k'.ready_queue_head ≡ k.ready_queue_head

-- The running process keeps the processor: it runs, and ticks of the timer within its time slice return
-- to it.
pub data Stays : Kernel → Kernel → Type 0 where
  runs : {k k' : Kernel} → SameTasks k k' → Stays k k'
  ticks : {k k1 k2 k' : Kernel} → SameTasks k k1 → rrsched k1 ≡ ok tt k2 → Stays k2 k' → Stays k k'

-- The running process gives up the processor and stays READY.
pub data GivesUp : Kernel → Kernel → Type 0 where
  yields : {k k' : Kernel} → sys_user_yield k ≡ user k' → GivesUp k k'
  slice_ends : {k k' : Kernel} → rrsched k ≡ user k' → GivesUp k k'
  waits :
      {k k' : Kernel} (c pid flag : ℕ)
      → k.current ≡ some c
      → wait_flag nproc 0 (as_int pid) (some c) k.procs none ≡ some flag
      → sys_user_wait pid k ≡ user k'
      → GivesUp k k'

pub data Step : Kernel → Kernel → Type 0 where
  enters : {k k' : Kernel} → SameTasks k k' → Step k k'
  ticked_on : {k k' : Kernel} → rrsched k ≡ ok tt k' → Step k k'
  gives_up : {k k' : Kernel} → GivesUp k k' → Step k k'
  exits : {k k' : Kernel} (code : ℕ) → sys_user_exit code k ≡ user k' → Step k k'

pub data Reach : Kernel → Kernel → Type 0 where
  here : {k : Kernel} → Reach k k
  there : {k k' k'' : Kernel} → Step k k' → Reach k' k'' → Reach k k''

-- Exactly `n` times a process gives up the processor.
pub data Turns : ℕ → Kernel → Kernel → Type 0 where
  no_turn : {k k' : Kernel} → Stays k k' → Turns 0 k k'
  turn :
      {n : ℕ} {k k1 k2 k' : Kernel}
      → Stays k k1
      → GivesUp k1 k2
      → Turns n k2 k'
      → Turns (suc n) k k'

-- Exactly `n` time slices end by the timer, each after the ticks that it has left.
pub data Slices : ℕ → Kernel → Kernel → Type 0 where
  no_slice : {k k' : Kernel} → Stays k k' → Slices 0 k k'
  slice :
      {n : ℕ} {k k1 k2 k' : Kernel}
      → Stays k k1
      → rrsched k1 ≡ user k2
      → Slices n k2 k'
      → Slices (suc n) k k'

-- Who runs after one turn, and who waits.
abbrev pub next_running : ℕ → List ℕ → ℕ
next_running c [] = c
next_running c (x ∷ xs) = x

abbrev pub next_waiting : ℕ → List ℕ → List ℕ
next_waiting c [] = []
next_waiting c (x ∷ xs) = xs ++ c ∷ []
