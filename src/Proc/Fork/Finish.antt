-- ===== src/Proc/Fork/Finish.antt =====
-- `do_fork` (kernel/process.c) behind its loop: the child becomes READY.
use mypkecode.Proc.Fork.{as_int}
use mypkecode.Base.{
  ℕ, ◌+◌, ◌%◌, ◌≤◌, ◌<◌, ◌≡◌, ◌≢◌, refl, ◌∙◌, ap, Bool, true, false, some, List, [], ◌∷◌, ◌++◌, has,
  ◌==◌, arith, ok, and_then, ◌>>=◌, ◌>>◌,
}
use mypkecode.Phys.{pgsize, Memory, write, store}
use mypkecode.Phys.Laws.{store-ok, write_ne}
use mypkecode.Trapframe.{off_a0}
use mypkecode.Vmm.Spared.{with_memory}
use mypkecode.Vmm.Built.{Built, changed-Built}
use mypkecode.Kernel.{nproc, Process, Kernel, KernelCmd, lift, gets, set_proc, update}
use mypkecode.Kernel.Status.{ready}
use mypkecode.Sched.{insert_to_ready_queue}
use mypkecode.Sched.Queue.{IsQueue, IsLinked-frame}
use mypkecode.Sched.Insert.{Inserts, insert_to_ready_queue-append}
use mypkecode.Proc.Fork.State.{Forking}

-- The tail of `do_fork`.
abbrev pub make_ready : (p c : ℕ) → KernelCmd ℕ
make_ready p c = do
  set_proc c (λ q. record q { status = ready })
  q ← gets (λ k. k.procs c)
  lift (store (q.trapframe + off_a0) 0)
  set_proc c (λ q. record q { parent = some p })
  insert_to_ready_queue c
  gets (λ k. as_int (k.procs c).pid)

update_self : (procs : ℕ → Process) (i : ℕ) (q : Process) → update procs i q i ≡ q
unfolding update
update_self procs i q = let here : (i == i) ≡ true = ground arith in rw here refl

-- The kernel with the child READY, its `a0` zero and its parent set.
abbrev pub marked : Kernel → (p c : ℕ) → Kernel
marked k p c = record k {
  phys = with_memory k.phys (write k.phys.mem ((k.procs c).trapframe + off_a0) 0);
  procs =
      update (update k.procs c (record (k.procs c) { status = ready })) c
        (record (k.procs c) { status = ready; parent = some p });
}

pub marked_self :
    (k : Kernel) (p c : ℕ)
    → (marked k p c).procs c ≡ record (k.procs c) { status = ready; parent = some p }
unfolding update
marked_self k p c = let here : (c == c) ≡ true = ground arith in rw here refl

pub marked_other : (k : Kernel) (p c x : ℕ) → x ≢ c → (marked k p c).procs x ≡ k.procs x
unfolding update
marked_other k p c x h = let other : (c == x) ≡ false = ground (arith, h) in rw other refl

module _ (t : Forking) (p c : ℕ) (own_frame : has (t.k.procs c).trapframe t.own ≡ true)
    {roots : ℕ → Bool} (b : Built t.k.phys t.lab t.xs t.own roots t.f) (queue : List ℕ)
    (q : IsQueue t.k queue) (out : has c queue ≡ false) (small : c < nproc) where
  abbrev tf : ℕ
  tf = (t.k.procs c).trapframe

  abbrev zeroed : Memory
  zeroed = write t.k.phys.mem (tf + off_a0) 0

  abbrev named : Kernel
  named = marked t.k p c

  named-IsQueue : IsQueue named queue
  named-IsQueue = record {
    linked =
        IsLinked-frame t.k.procs named.procs t.k.ready_queue_head queue q.linked
          λ x h. marked_other t.k p c x (λ e. absurd (cc (ap (λ y. has y queue) e, h, out)));
    distinct = q.distinct;
    in_pool = q.in_pool;
  }

  frame_fits : (tf % pgsize ≡ 0) × (pgsize ≤ tf)
  frame_fits = let o = b.owned tf own_frame in (o.2, o.3)

  named_run :
      make_ready p c t.k
      ≡ and_then (insert_to_ready_queue c named) (λ _. gets (λ k. as_int (k.procs c).pid))
  named_run =
      let again = update_self t.k.procs c (record (t.k.procs c) { status = ready }) in
      let stored = store-ok (tf + off_a0) 0 (t.k.phys) (omega (arith, frame_fits.1)) in
      rw (again, stored, again) refl

  pub make_ready-Inserts :
      (k' : Kernel) × (make_ready p c t.k ≡ ok (as_int (k'.procs c).pid) k')
      × IsQueue k' (queue ++ c ∷ [])
      × Inserts (marked t.k p c) k' c
  make_ready-Inserts =
      let (k', run, queued, ins) =
        insert_to_ready_queue-append named queue c named-IsQueue out small in
      (
        k',
        named_run ∙ ap (λ r. and_then r (λ _. gets (λ k. as_int (k.procs c).pid))) run,
        queued,
        ins,
      )

  pub named-Built : Built (marked t.k p c).phys t.lab t.xs t.own roots t.f
  named-Built =
      changed-Built zeroed tf b own_frame
        λ a h. write_ne t.k.phys.mem (tf + off_a0) 0 a (λ e. h (omega (arith, e, frame_fits.0)))
