-- ===== src/Tests/Rounds.antt =====
-- Runs of several turns: process 0 runs, processes 1 and 2 are queued.
use mypkecode.Base.{ℕ, ◌≡◌, refl, some, List, [], ◌∷◌, arith}
use mypkecode.Kernel.{Kernel}
use mypkecode.Syscall.Turns.{sys_user_yield-Rotated}
use mypkecode.Rounds.{Scheduled, Reach, Turns, Slices, gives_up, yields, here, there}
use mypkecode.Rounds.Safety.{Reach-Scheduled}
use mypkecode.Rounds.Fairness.{Turns-running}
use mypkecode.Tests.Turns.{kernel, queue}

abbrev pub start : Kernel
start = kernel (some 1) 0

pub start-Scheduled : Scheduled start 0 (1 ∷ 2 ∷ [])
start-Scheduled = record {
  running = refl;
  queue = queue;
  apart = refl;
  in_pool = omega arith;
  paged = λ p h. ground arith;
}

-- Process 0 yields.
after_yield : (k' : Kernel) × Reach start k'
after_yield =
    let (k', run, r) =
      sys_user_yield-Rotated start 0 (1 ∷ 2 ∷ []) 1 (2 ∷ 0 ∷ []) refl queue refl (omega arith) refl
        (omega arith) in
    (k', there (gives_up (yields run)) here)

Reach-Scheduled_example : (c' : ℕ) × (xs' : List ℕ) × Scheduled after_yield.0 c' xs'
Reach-Scheduled_example = Reach-Scheduled 0 (1 ∷ 2 ∷ []) after_yield.1 start-Scheduled

-- Process 2 runs after two turns.
Turns-running_example :
    ((k' : Kernel) × Slices 2 start k' × Turns 2 start k')
    × ((k' : Kernel) → Turns 2 start k' → k'.current ≡ some 2)
Turns-running_example = Turns-running start 0 2 (1 ∷ []) [] start-Scheduled
