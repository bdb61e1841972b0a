-- ===== src/Machine/Timer.antt =====
-- The timer: kernel/machine/mtrap.c together with the handler of kernel/strap.c.
use mypkecode.Base.{
  ℕ, ◌+◌, ◌≤◌, ◌<◌, ◌≡◌, ◌⊎◌, refl, ap, ◌∙◌, sym, ◌==◌, Bool, true, false, some, List, Run, ok,
  panic, poweroff, halt, fault, user, hang, arith, ◌&&◌, ltb, if◌then◌else◌, Bool-cases, inl, inr,
  and_then, ◌>>=◌, ◌>>◌,
}
use mypkecode.Base.Words.{u64, has_bit}
use mypkecode.Phys.{pgsize, write, store}
use mypkecode.Phys.Laws.{write_self}
use mypkecode.Kernel.{Kernel, KernelCmd, gets, update}
use mypkecode.Proc.Wait.{deref}
use mypkecode.Sched.{switch_to}
use mypkecode.Trapframe.{off_epc, sstatus_spp}
use mypkecode.Sched.{time_slice_len}
use mypkecode.Sched.Queue.{IsQueue}
use mypkecode.Sched.Rotate.{Rotated}
use mypkecode.Sched.Schedule.{resumed, switch_to-resumed}
use mypkecode.Strap.{
  cause_mtimer_s_trap, handle_mtimer_trap, handle_cause, rrsched, smode_trap_handler,
}
use mypkecode.Strap.Slice.{ticked, rested, rrsched-within, rrsched-Rotated}
use mypkecode.Rounds.{Scheduled, next_running, next_waiting}
use mypkecode.Rounds.Safety.{next_line, next_paged}
use mypkecode.Machine.{
  Machine, MachineCmd, change, cause_mtimer, timer_interval, irq_s_soft, set_alarm, handle_timer,
  handle_mtrap,
}

abbrev with_kernel : {A : Type 0} → Machine → Run Kernel A → Run Machine A
with_kernel m (ok a k) = ok a (record m { kernel = k })
with_kernel m panic = panic
with_kernel m poweroff = poweroff
with_kernel m halt = halt
with_kernel m fault = fault
with_kernel m (user k) = user (record m { kernel = k })
with_kernel m hang = hang

-- The software interrupt of the supervisor mode is pending, enabled and delegated.
abbrev soft_pending : Machine → Bool
soft_pending m =
    has_bit m.kernel.sip irq_s_soft && has_bit m.sie irq_s_soft && has_bit m.mideleg irq_s_soft

-- The kernel at the entry of its handler: the cause, and where the user was.
abbrev interrupted : (pc : ℕ) → Kernel → Kernel
interrupted pc k = record k { scause = cause_mtimer_s_trap; sepc = pc }

-- The timer fires in user mode at `pc`: the trap of the machine mode, and then the kernel's handler if
-- an interrupt is pending for it.
unfoldable pub timer_fires : (pc : ℕ) → MachineCmd (Unit {0})
timer_fires pc = do
  change (λ m. record m { mcause = cause_mtimer })
  handle_mtrap
  (λ m.
      if soft_pending m
      then with_kernel m (smode_trap_handler (interrupted pc m.kernel))
      else ok tt m)

-- The machine once the alarm of hart 0 is moved on, with the kernel `k`.
abbrev pub moved_on : Machine → Kernel → Machine
moved_on m k = record (set_alarm 0 (m.mtimecmp 0 + timer_interval) m) {
  mcause = cause_mtimer;
  kernel = k;
}

-- The kernel with the tick counted, no interrupt pending, and `pc` saved in the trapframe of `c`.
abbrev pub counted_tick : (pc c : ℕ) → Kernel → Kernel
counted_tick pc c k = record (interrupted pc k) {
  phys = record k.phys { mem = write k.phys.mem ((k.procs c).trapframe + off_epc) pc };
  g_ticks = u64 (k.g_ticks + 1);
  sip = 0;
}

-- What follows the handling of the cause.
abbrev resume_current : KernelCmd (Unit {0})
resume_current = do current ← gets (λ k. k.current); c ← deref current; switch_to c

-- A kernel in which process `c` runs.
abbrev running : (c : ℕ) → Kernel → Kernel
running c k = record k { current = some c }

handler_run :
    (k : Kernel) (pc c : ℕ)
    → has_bit k.sstatus sstatus_spp ≡ false
    → pgsize ≤ (k.procs c).trapframe
    → smode_trap_handler (interrupted pc (running c k))
      ≡ and_then (rrsched (counted_tick pc c (running c k))) (λ _. resume_current)
unfolding smode_trap_handler handle_cause handle_mtimer_trap store
handler_run k pc c umode page =
    let in_page : ltb ((k.procs c).trapframe + off_epc) pgsize ≡ false = ground arith in
    rw (umode, in_page) refl

handler-rrsched :
    (k : Kernel) (pc c : ℕ) (r : Run Kernel (Unit {0}))
    → k.current ≡ some c
    → has_bit k.sstatus sstatus_spp ≡ false
    → pgsize ≤ (k.procs c).trapframe
    → rrsched (counted_tick pc c k) ≡ r
    → smode_trap_handler (interrupted pc k) ≡ and_then r (λ _. resume_current)
handler-rrsched k pc c r cur umode page run =
    let e : k ≡ running c k = ap (λ o. record k { current = o }) cur in
    ap (λ kk. smode_trap_handler (interrupted pc kk)) e
    ∙ handler_run k pc c umode page
    ∙ ap (λ kk. and_then (rrsched (counted_tick pc c kk)) (λ _. resume_current)) (sym e)
    ∙ ap (λ q. and_then q (λ _. resume_current)) run

-- The kernel with a tick of process `c` counted for it.
abbrev pub ticked_in : (c : ℕ) → Kernel → Kernel
ticked_in c k = record k { procs = update k.procs c (ticked (k.procs c)) }

resume_ticked :
    (k : Kernel) (c : ℕ)
    → k.current ≡ some c
    → pgsize ≤ (k.procs c).trapframe
    → resume_current (ticked_in c k) ≡ user (resumed (ticked_in c k) c)
unfolding update
resume_ticked k c cur page =
    let self : (c == c) ≡ true = ground arith in
    let frame : pgsize ≤ (update k.procs c (ticked (k.procs c)) c).trapframe = rw self page in
    rw cur (switch_to-resumed (ticked_in c (running c k)) c frame)

-- The user goes on where it was.
resumed-pc : (k : Kernel) (pc c : ℕ) → (resumed (ticked_in c (counted_tick pc c k)) c).sepc ≡ pc
unfolding update
resumed-pc k pc c =
    let self : (c == c) ≡ true = ground arith in
    rw self (write_self k.phys.mem ((k.procs c).trapframe + off_epc) pc)

timer_fires-handler :
    (m : Machine) (pc : ℕ) (k' : Kernel)
    → has_bit m.sie irq_s_soft ≡ true
    → has_bit m.mideleg irq_s_soft ≡ true
    → smode_trap_handler (interrupted pc (record m.kernel { sip = 2 })) ≡ user k'
    → timer_fires pc m ≡ user (moved_on m k')
unfolding timer_fires handle_mtrap handle_timer
timer_fires-handler m pc k' enabled delegated run = rw (enabled, delegated, run) refl

-- Let process `c` run in user mode at `pc` and `xs` wait, let the software interrupt of the supervisor
-- mode be enabled and delegated, and let the timer fire. Then the machine mode's handler moves the alarm
-- of hart 0 on by one interval and makes that interrupt pending, and the kernel's handler, which this
-- starts, counts the tick in `g_ticks`, clears the interrupt and saves `pc`. Where `c` has used less than
-- its time slice, it is resumed at `pc` with one tick more; else it goes to the end of the ready queue
-- with its count at 0, and the process at the head is resumed.
pub timer_fires-counted :
    (m : Machine) (pc c : ℕ) (xs : List ℕ)
    → Scheduled m.kernel c xs
    → has_bit m.kernel.sstatus sstatus_spp ≡ false
    → has_bit m.sie irq_s_soft ≡ true
    → has_bit m.mideleg irq_s_soft ≡ true
    → (k' : Kernel) × (timer_fires pc m ≡ user (moved_on m k'))
      × ((((m.kernel.procs c).tick_count < time_slice_len)
            × (k' ≡ resumed (ticked_in c (counted_tick pc c m.kernel)) c)
            × (k'.sepc ≡ pc))
          ⊎ ((time_slice_len ≤ (m.kernel.procs c).tick_count)
              × Rotated
                  (counted_tick pc c m.kernel)
                  k'
                  c
                  rested
                  (next_running c xs)
                  (next_waiting c xs)))
timer_fires-counted m pc c xs s umode enabled delegated =
    let k = record m.kernel { sip = 2 } in
    let k1 = counted_tick pc c m.kernel in
    let page = s.paged c (ground arith) in
    let q1 : IsQueue k1 xs = record {
      linked = s.queue.linked;
      distinct = s.queue.distinct;
      in_pool = s.queue.in_pool;
    } in
    elim (Bool-cases (ltb (m.kernel.procs c).tick_count time_slice_len)) [
      | inl small ↦
          let within : (m.kernel.procs c).tick_count < time_slice_len = ground (arith, small) in
          let k' = resumed (ticked_in c k1) c in
          let run = rrsched-within k1 c s.running within in
          (
            k',
            timer_fires-handler m pc k' enabled delegated (
                handler-rrsched k pc c (ok tt (ticked_in c k1)) s.running umode page run
                ∙ resume_ticked k1 c s.running page),
            inl (within, refl, resumed-pc m.kernel pc c),
          )
      | inr large ↦
          let over : time_slice_len ≤ (m.kernel.procs c).tick_count = ground (arith, large) in
          let (k', run, r) =
            rrsched-Rotated k1 c xs (next_running c xs) (next_waiting c xs) s.running over q1
              s.apart s.in_pool (next_line c xs) (next_paged c xs s) in
          (
            k',
            timer_fires-handler m pc k' enabled delegated
                (handler-rrsched k pc c (user k') s.running umode page run),
            inr (over, r),
          )
    ]
