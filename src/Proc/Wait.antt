-- ===== src/Proc/Wait.antt =====
-- `wait` of kernel/process.c.
use mypkecode.Base.{
  ℕ, zero, suc, ◌-◌, ◌^◌, Bool, true, false, ◌&&◌, ◌||◌, Option, none, some, ltb, ◌==◌,
  if◌then◌else◌,
}
use mypkecode.Base.{Run, ok, hang, pure, fault, ◌>>=◌, ◌>>◌}
use mypkecode.Kernel.{nproc, Status, ProcPtr, Process, Kernel, KernelCmd, gets, set_proc}
use mypkecode.Kernel.Status.{ready, zombie}
use mypkecode.Proc.Fork.{as_int}
use mypkecode.Sched.{insert_to_ready_queue, schedule}

-- An access through a process pointer.
abbrev pub deref : ProcPtr → KernelCmd ℕ
deref none k = fault
deref (some i) k = ok i k

-- -1 as a word.
abbrev pub minus_one : ℕ
minus_one = 2 ^ 64 - 1

abbrev pub is_zombie : Status → Bool
is_zombie zombie = true
is_zombie _ = false

-- `np->parent != NULL && np->parent == current`
abbrev pub is_child : (current : ProcPtr) → Process → Bool
is_child none p = false
is_child (some c) p = elim p.parent [ none ↦ false | some i ↦ i == c ]

-- The loop that sets `flag`, over the last `n` processes that are left: 1 for a child with the pid
-- asked for, 0 for another child, `none` for -1. The last child found decides.
unfoldable pub wait_flag :
    (n i pid : ℕ) (current : ProcPtr) (procs : ℕ → Process) → Option ℕ → Option ℕ
wait_flag zero i pid current procs flag = flag
wait_flag (suc n) i pid current procs flag =
    let np = procs i in
    wait_flag n (suc i) pid current procs (
      if is_child current np && (np.pid == pid)
      then some 1
      else if is_child current np
      then some 0
      else flag)

-- One pass of the loop for a zombie: with `any` for any child, else for the child `pid`.
unfoldable pub zombie_child :
    (n i : ℕ) (any : Bool) (pid : ℕ) (current : ProcPtr) (procs : ℕ → Process) → Option ℕ
zombie_child zero i any pid current procs = none
zombie_child (suc n) i any pid current procs =
    let np = procs i in
    let rest = zombie_child n (suc i) any pid current procs in
    if is_child current np && (any || (np.pid == pid)) && is_zombie np.status
    then some np.pid
    else rest

-- The endless loop behind the call of `schedule`. A pass that finds nothing changes nothing.
unfoldable pub wait_loop : (pid : ℕ) (flag : Option ℕ) → KernelCmd ℕ
wait_loop pid flag k =
    let search : Bool → Run Kernel ℕ = λ any.
      elim (zombie_child nproc 0 any pid k.current k.procs) [
        | none ↦ hang
        | some p ↦ ok (as_int p) k
      ] in
    let asked : Bool = elim flag [ none ↦ false | some f ↦ f == 1 ] in
    if pid == minus_one
    then search true
    else if ltb 0 pid && ltb pid (2 ^ 63) && asked
    then search false
    else ok minus_one k

unfoldable pub wait : (pid : ℕ) → KernelCmd ℕ
wait pid = do
  flag ← gets (λ k. wait_flag nproc 0 pid k.current k.procs none)
  elim flag [
    | none ↦ pure minus_one
    | some f ↦ do
      current ← gets (λ k. k.current)
      c ← deref current
      set_proc c (λ p. record p { status = ready })
      insert_to_ready_queue c
      schedule
      wait_loop pid (some f)
  ]
