-- ===== src/Strap/Slice.antt =====
-- Time slices: `rrsched` of kernel/strap.c.
use mypkecode.Base.{
  ℕ, ◌+◌, ◌≤◌, ◌<◌, ◌≡◌, refl, true, false, some, List, [], ◌∷◌, ◌++◌, has, arith, ok, user, ltb,
  fun_ext,
}
use mypkecode.Phys.{pgsize}
use mypkecode.Kernel.{nproc, Process, Kernel, update}
use mypkecode.Kernel.Status.{ready}
use mypkecode.Sched.{time_slice_len}
use mypkecode.Sched.Queue.{IsQueue}
use mypkecode.Sched.Rotate.{Rotated, give_up-Rotated}
use mypkecode.Strap.{rrsched}

-- The process after one more tick, and at the start of a new time slice.
abbrev pub ticked : Process → Process
ticked p = record p { tick_count = p.tick_count + 1 }

abbrev pub rested : Process → Process
rested p = record p { tick_count = 0; status = ready }

tick-rest :
    (procs : ℕ → Process) (c : ℕ)
    → update (update procs c (ticked (procs c))) c (rested (update procs c (ticked (procs c)) c))
      ≡ update procs c (rested (procs c))
unfolding update
tick-rest procs c = fun_ext λ i. ground arith

update_self : (procs : ℕ → Process) (c : ℕ) (p : Process) → update procs c p c ≡ p
unfolding update
update_self procs c p = ground arith

-- A tick within the time slice of the running process adds one to its count and changes nothing
-- else: the handler goes on in the same process.
pub rrsched-within :
    (k : Kernel) (c : ℕ)
    → k.current ≡ some c
    → (k.procs c).tick_count < time_slice_len
    → rrsched k ≡ ok tt (record k { procs = update k.procs c (ticked (k.procs c)) })
unfolding rrsched
rrsched-within k c cur h = rw cur (
    rw (update_self k.procs c (ticked (k.procs c)))
      (let t : ltb time_slice_len ((k.procs c).tick_count + 1) ≡ false = ground arith in rw t refl))

-- The tick that ends the time slice of a running process that is not queued puts it at the end of
-- the ready queue, with its count back at 0, and resumes the process that is then at the head,
-- provided that this has a trapframe above page 0.
pub rrsched-Rotated :
    (k : Kernel) (c : ℕ) (xs : List ℕ) (x : ℕ) (rest : List ℕ)
    → k.current ≡ some c
    → time_slice_len ≤ (k.procs c).tick_count
    → IsQueue k xs
    → has c xs ≡ false
    → c < nproc
    → xs ++ c ∷ [] ≡ x ∷ rest
    → pgsize ≤ (k.procs x).trapframe
    → (k' : Kernel) × (rrsched k ≡ user k') × Rotated k k' c rested x rest
unfolding rrsched
rrsched-Rotated k c xs x rest cur h q out b line page =
    let k1 = record k { current = some c } in
    let q1 : IsQueue k1 xs = record {
      linked = q.linked;
      distinct = q.distinct;
      in_pool = q.in_pool;
    } in
    let (k', run, r) = give_up-Rotated k1 c rested xs x rest q1 out b refl line page in
    let t : ltb time_slice_len ((k.procs c).tick_count + 1) ≡ true = ground arith in
    rw cur (
      rw (update_self k.procs c (ticked (k.procs c)))
        (rw t (rw (tick-rest k.procs c) (k', run, r))))
