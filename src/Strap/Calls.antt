-- ===== src/Strap/Calls.antt =====
-- A system call from the trap to the return to user mode: `smode_trap_handler` and `handle_syscall` of
-- kernel/strap.c.
use mypkecode.Base.{
  ℕ, ◌+◌, ◌≤◌, ◌<◌, ◌≡◌, ◌%◌, ap, ◌∙◌, sym, false, none, some, List, [], ◌∷◌, ◌++◌, has, ◌==◌,
  arith, ok, user, Run, ltb, and_then, and_then-and_then, Bool-cases, inl, inr, ◌⊎◌, ◌>>=◌, ◌>>◌,
}
use mypkecode.Base.Words.{u64, has_bit}
use mypkecode.Phys.{pgsize, Memory, write, load, store}
use mypkecode.Phys.Laws.{write_self}
use mypkecode.Kernel.{nproc, Process, Kernel, KernelCmd, lift, gets}
use mypkecode.Trapframe.{off_a0, off_epc, sstatus_spp}
use mypkecode.Sched.{switch_to}
use mypkecode.Sched.Queue.{IsQueue}
use mypkecode.Sched.Schedule.{resumed_mem, resumed, switch_to-resumed}
use mypkecode.Sched.Rotate.{Rotated}
use mypkecode.Proc.Wait.{deref, wait_flag}
use mypkecode.Proc.Fork.{as_int}
use mypkecode.Syscall.{do_syscall}
use mypkecode.Syscall.Turns.{to_ready, sys_user_wait-Rotated}
use mypkecode.Strap.{cause_user_ecall, handle_syscall, handle_cause, smode_trap_handler}

-- The kernel once the counter of the user is saved behind the `ecall`, which has four bytes.
abbrev pub saved : Kernel → ℕ → Kernel
saved k tf =
    let m = write k.phys.mem (tf + off_epc) k.sepc in
    record k { phys = record k.phys { mem = write m (tf + off_epc) (u64 (k.sepc + 4)) } }

-- What follows the call in the handler.
abbrev return_from_call : (tf result : ℕ) → KernelCmd (Unit {0})
return_from_call tf result = do
  lift (store (tf + off_a0) result)
  current ← gets (λ k. k.current)
  c ← deref current
  switch_to c

saved-register :
    (m : Memory) (tf v w a : ℕ)
    → (a < tf + off_epc) ⊎ (tf + off_epc < a)
    → write (write m (tf + off_epc) v) (tf + off_epc) w a ≡ m a
unfolding write
saved-register m tf v w a h = ground arith

-- A trap that an `ecall` of process `c` makes.
abbrev trapped : Kernel → ℕ → Kernel
trapped k c = record k { current = some c; scause = cause_user_ecall }

trap-call :
    (k : Kernel) (c : ℕ) (result : Run Kernel ℕ)
    → has_bit k.sstatus sstatus_spp ≡ false
    → pgsize ≤ (k.procs c).trapframe
    → (let tf = (k.procs c).trapframe in
        do_syscall
          (k.phys.mem (tf + off_a0))
          (k.phys.mem (tf + off_a0 + 8))
          (k.phys.mem (tf + off_a0 + 16))
          (saved (trapped k c) tf)
        ≡ result)
    → smode_trap_handler (trapped k c) ≡ and_then result (return_from_call (k.procs c).trapframe)
unfolding smode_trap_handler handle_cause handle_syscall load store
trap-call k c result umode page run =
    let tf = (k.procs c).trapframe in
    let in_page : (n : ℕ) → ltb (tf + n) pgsize ≡ false = λ n. ground arith in
    let epc : write k.phys.mem (tf + off_epc) k.sepc (tf + off_epc) ≡ k.sepc =
      write_self k.phys.mem (tf + off_epc) k.sepc in
    let second : ltb (tf + off_a0 + 8) pgsize ≡ false = ground arith in
    let third : ltb (tf + off_a0 + 16) pgsize ≡ false = ground arith in
    let e = saved-register k.phys.mem tf k.sepc (u64 (k.sepc + 4)) in
    rw
      (
        umode,
        in_page off_epc,
        in_page off_epc,
        in_page off_epc,
        in_page off_a0,
        second,
        third,
        epc,
        e (tf + off_a0) (inl (omega arith)),
        e (tf + off_a0 + 8) (inl (omega arith)),
        e (tf + off_a0 + 16) (inl (omega arith)),
        run,
      )
      (and_then-and_then result (λ r. lift (store (tf + off_a0) r)) _)

trap-run :
    (k : Kernel) (c : ℕ) (result : Run Kernel ℕ)
    → k.current ≡ some c
    → k.scause ≡ cause_user_ecall
    → has_bit k.sstatus sstatus_spp ≡ false
    → pgsize ≤ (k.procs c).trapframe
    → (let tf = (k.procs c).trapframe in
        do_syscall
          (k.phys.mem (tf + off_a0))
          (k.phys.mem (tf + off_a0 + 8))
          (k.phys.mem (tf + off_a0 + 16))
          (saved k tf)
        ≡ result)
    → smode_trap_handler k ≡ and_then result (return_from_call (k.procs c).trapframe)
trap-run k c result cur ecall umode page run =
    let tf = (k.procs c).trapframe in
    let e : k ≡ trapped k c =
      ap (λ o. record k { current = o }) cur
      ∙ ap (λ (z : ℕ). record k { current = some c; scause = z }) ecall in
    let call : Kernel → Run Kernel ℕ = λ k'.
      do_syscall (k.phys.mem (tf + off_a0)) (k.phys.mem (tf + off_a0 + 8))
        (k.phys.mem (tf + off_a0 + 16)) (saved k' tf) in
    ap smode_trap_handler e ∙ trap-call k c result umode page (sym (ap call e) ∙ run)

-- Let a process trap by `ecall` from user mode with a trapframe above page 0. Where `do_syscall`, run
-- on the registers `a0`, `a1` and `a2` of the trapframe and with the program counter behind the
-- `ecall`, returns a value with the same process running, the handler stores the value into `a0` of the
-- trapframe and resumes the process.
pub smode_trap_handler-return :
    (k k1 : Kernel) (c v : ℕ)
    → k.current ≡ some c
    → k.scause ≡ cause_user_ecall
    → has_bit k.sstatus sstatus_spp ≡ false
    → pgsize ≤ (k.procs c).trapframe
    → (let tf = (k.procs c).trapframe in
        do_syscall
          (k.phys.mem (tf + off_a0))
          (k.phys.mem (tf + off_a0 + 8))
          (k.phys.mem (tf + off_a0 + 16))
          (saved k tf)
        ≡ ok v k1)
    → k1.current ≡ some c
    → (k1.procs c).trapframe ≡ (k.procs c).trapframe
    → smode_trap_handler k
      ≡ user (
          resumed
            (record k1 {
              phys = record k1.phys { mem = write k1.phys.mem ((k.procs c).trapframe + off_a0) v };
            })
            c)
unfolding store
smode_trap_handler-return k k1 c v cur ecall umode page run cur1 same =
    let tf = (k.procs c).trapframe in
    let in_page : ltb (tf + off_a0) pgsize ≡ false = ground arith in
    let k2 = record k1 { phys = record k1.phys { mem = write k1.phys.mem (tf + off_a0) v } } in
    trap-run k c (ok v k1) cur ecall umode page run
    ∙ rw (in_page, cur1) (switch_to-resumed (record k2 { current = some c }) c (rw same page))

Rotated-trapframe :
    (k k' : Kernel) (c x : ℕ) (rest : List ℕ)
    → Rotated k k' c to_ready x rest
    → (k'.procs x).trapframe ≡ (k.procs x).trapframe
Rotated-trapframe k k' c x rest r = elim (Bool-cases (x == c)) [
  | inl h ↦ let e : x ≡ c = ground arith in rw e (ap (λ (p : Process). p.trapframe) r.self)
  | inr h ↦ ap (λ (p : Process). p.trapframe) (r.others x (ground arith))
]

resumed-a0 :
    (k : Kernel) (x tf : ℕ)
    → tf % pgsize ≡ 0
    → (k.procs x).trapframe % pgsize ≡ 0
    → resumed_mem k x (tf + off_a0) ≡ k.phys.mem (tf + off_a0)
unfolding write
resumed-a0 k x tf al alx = ground arith

-- A process that gave up the processor in a call finds `a0` as it was at the trap.
Rotated-register :
    (k k' : Kernel) (c x : ℕ) (rest : List ℕ)
    → Rotated (saved k (k.procs c).trapframe) k' c to_ready x rest
    → (k.procs c).trapframe % pgsize ≡ 0
    → (k.procs x).trapframe % pgsize ≡ 0
    → k'.phys.mem ((k.procs c).trapframe + off_a0) ≡ k.phys.mem ((k.procs c).trapframe + off_a0)
Rotated-register k k' c x rest r al alx =
    let tf = (k.procs c).trapframe in
    let k1 = saved k tf in
    let there = Rotated-trapframe k1 k' c x rest r in
    ap (λ (kk : Kernel). kk.phys.mem (tf + off_a0)) r.resumes
    ∙ resumed-a0 (record k1 { procs = k'.procs; ready_queue_head = k'.ready_queue_head }) x tf al
        (rw there alx)
    ∙ saved-register k.phys.mem tf k.sepc (u64 (k.sepc + 4)) (tf + off_a0) (inl (omega arith))

-- Let a process that is not queued and has a child trap by `ecall` from user mode for `wait`, with 70, the
-- number of the call, in `a0`, and let its own trapframe and that of the process that is then at the
-- head of the queue be page-aligned and above page 0. The handler puts the caller at the end of the
-- ready queue and resumes the process at the head, and `a0` in the caller's trapframe is still 70.
pub smode_trap_handler-wait :
    (k : Kernel) (c flag : ℕ) (xs : List ℕ) (x : ℕ) (rest : List ℕ)
    → k.current ≡ some c
    → k.scause ≡ cause_user_ecall
    → has_bit k.sstatus sstatus_spp ≡ false
    → (k.procs c).trapframe % pgsize ≡ 0
    → pgsize ≤ (k.procs c).trapframe
    → (k.procs x).trapframe % pgsize ≡ 0
    → pgsize ≤ (k.procs x).trapframe
    → k.phys.mem ((k.procs c).trapframe + off_a0) ≡ 70
    → wait_flag nproc 0
        (as_int (k.phys.mem ((k.procs c).trapframe + off_a0 + 8)))
        (some c)
        k.procs
        none
      ≡ some flag
    → IsQueue k xs
    → has c xs ≡ false
    → c < nproc
    → xs ++ c ∷ [] ≡ x ∷ rest
    → (k' : Kernel) × (smode_trap_handler k ≡ user k')
      × Rotated (saved k (k.procs c).trapframe) k' c to_ready x rest
      × (k'.phys.mem ((k.procs c).trapframe + off_a0) ≡ 70)
unfolding do_syscall
smode_trap_handler-wait k c flag xs x rest cur ecall umode frame page next_frame next_page number
      child q out b line =
    let tf = (k.procs c).trapframe in
    let k1 = saved k tf in
    let q1 : IsQueue k1 xs = record {
      linked = q.linked;
      distinct = q.distinct;
      in_pool = q.in_pool;
    } in
    let a1 = k.phys.mem (tf + off_a0 + 8) in
    let (k', run, r) =
      sys_user_wait-Rotated k1 c a1 flag xs x rest cur child q1 out b line next_page in
    (
      k',
      trap-run k c (user k') cur ecall umode page (rw number run),
      r,
      Rotated-register k k' c x rest r frame next_frame ∙ number,
    )
