-- ===== src/Rounds/Safety.antt =====
-- The scheduler's invariant holds in every state that the running processes can reach.
use mypkecode.Base.{
  ℕ, ◌≤◌, ◌≡◌, ◌≢◌, refl, ap, ◌∙◌, sym, subst, Bool, true, false, none, some, List, [], ◌∷◌, ◌++◌,
  has, has-append, ◌==◌, arith, ltb, ok, user, halt, panic, inl, inr, Bool-cases, pure, and_then,
  Run,
}
use mypkecode.Base.Distinct.{Distinct, AllBelow}
use mypkecode.Phys.{pgsize}
use mypkecode.Kernel.{nproc, Process, Kernel, update}
use mypkecode.Kernel.Status.{zombie}
use mypkecode.Proc.Fork.{as_int}
use mypkecode.Proc.Wait.{wait_flag}
use mypkecode.Sched.{time_slice_len, free_process, schedule}
use mypkecode.Sched.Queue.{IsQueue, IsLinked-frame, Distinct-append_one, AllBelow-append_one}
use mypkecode.Sched.Rotate.{Rotated}
use mypkecode.Sched.Schedule.{schedule-empty}
use mypkecode.Syscall.{sys_user_exit}
use mypkecode.Syscall.Turns.{
  to_ready, sys_user_yield-Rotated, sys_user_wait-Rotated, sys_user_exit-resumed,
}
use mypkecode.Strap.Slice.{ticked, rested, rrsched-within, rrsched-Rotated}
use mypkecode.Strap.{rrsched}
use mypkecode.Rounds.{
  Scheduled, SameTasks, GivesUp, Step, Reach, yields, Stays, runs, ticks, ticked_on, slice_ends,
  waits, enters, gives_up, exits, here, there, next_running, next_waiting,
}

pub SameTasks-Scheduled :
    {k k' : Kernel} (c : ℕ) (xs : List ℕ) → SameTasks k k' → Scheduled k c xs → Scheduled k' c xs
SameTasks-Scheduled c xs same s = record {
  running = same.same_current ∙ s.running;
  queue = record {
    linked = rw (same.same_procs, same.same_head) s.queue.linked;
    distinct = s.queue.distinct;
    in_pool = s.queue.in_pool;
  };
  apart = s.apart;
  in_pool = s.in_pool;
  paged = λ p h. rw same.same_procs (s.paged p h);
}

pub next_line : (c : ℕ) (xs : List ℕ) → xs ++ c ∷ [] ≡ next_running c xs ∷ next_waiting c xs
next_line c [] = refl
next_line c (x ∷ xs) = refl

module _ {k k' : Kernel} (c : ℕ) (f : Process → Process) (xs : List ℕ)
    (same : (p : Process) → (f p).trapframe ≡ p.trapframe) (s : Scheduled k c xs) where
  same_trapframe :
      (x : ℕ) (rest : List ℕ)
      → Rotated k k' c f x rest
      → (p : ℕ) → (k'.procs p).trapframe ≡ (k.procs p).trapframe
  same_trapframe x rest r p = elim (Bool-cases (p == c)) [
    | inl e ↦
        let e' : p ≡ c = ground (arith, e) in
        rw e' (ap (λ (q : Process). q.trapframe) r.self ∙ same (k.procs c))
    | inr e ↦ ap (λ (q : Process). q.trapframe) (r.others p (ground (arith, e)))
  ]

  Rotated-Scheduled :
      Rotated k k' c f (next_running c xs) (next_waiting c xs)
      → Scheduled k' (next_running c xs) (next_waiting c xs)
  Rotated-Scheduled r =
      let x = next_running c xs in
      let rest = next_waiting c xs in
      let line = next_line c xs in
      let d : Distinct (x ∷ rest) =
        subst Distinct line (Distinct-append_one xs c s.queue.distinct s.apart) in
      let b : AllBelow nproc (x ∷ rest) =
        subst (AllBelow nproc) line (AllBelow-append_one nproc xs c s.queue.in_pool s.in_pool) in
      record {
        running = ap (λ (kk : Kernel). kk.current) r.resumes;
        queue = r.queue;
        apart = d.0;
        in_pool = b.0;
        paged = λ p h.
            let there_before : has p (xs ++ c ∷ []) ≡ true = ap (has p) line ∙ h in
            rw (same_trapframe x rest r p)
              (s.paged p (ground (arith, has-append p xs (c ∷ []), there_before)));
      }

abbrev left : {A : Type 0} → Kernel → Run Kernel A → Kernel
left k (user k') = k'
left k _ = k

-- A command has one outcome.
same_user :
    {A : Type 0} {r : Run Kernel A} (k : Kernel) {a b : Kernel} → r ≡ user a → r ≡ user b → a ≡ b
same_user k h h' = ap (left k) (sym h ∙ h')

pub next_paged :
    {k : Kernel} (c : ℕ) (xs : List ℕ)
    → Scheduled k c xs
    → pgsize ≤ (k.procs (next_running c xs)).trapframe
next_paged c [] s = s.paged c (ground arith)
next_paged c (x ∷ xs) s = s.paged x (ground arith)

same_running : (k : Kernel) {c c' : ℕ} → k.current ≡ some c → k.current ≡ some c' → c' ≡ c
same_running k {c} {c'} e e' = let both : some c ≡ some c' = sym e ∙ e' in cc

abbrev leaves : {A : Type 0} → Run Kernel A → Bool
leaves (user k) = true
leaves _ = false

not_left : {A : Type 0} (r : Run Kernel A) (k : Kernel) → leaves r ≡ false → ¬ (r ≡ user k)
not_left {A} r k stays h = let yes : leaves r ≡ true = ap leaves h in absurd (cc)

-- A tick within a time slice is counted, and nothing else of the tasks changes.
pub ticked-Scheduled :
    {k : Kernel} (c : ℕ) (xs : List ℕ)
    → Scheduled k c xs
    → Scheduled (record k { procs = update k.procs c (ticked (k.procs c)) }) c xs
unfolding update
ticked-Scheduled {k} c xs s =
    let procs = update k.procs c (ticked (k.procs c)) in
    let kept : (q : ℕ) → q ≢ c → procs q ≡ k.procs q =
      λ q n. let e : (c == q) ≡ false = ground (arith, n) in rw e refl in
    let frame : (q : ℕ) → (procs q).trapframe ≡ (k.procs q).trapframe = λ q.
      elim (Bool-cases (c == q)) [
        | inl e ↦ let e' : c ≡ q = ground (arith, e) in rw e (ap (λ i. (k.procs i).trapframe) e')
        | inr e ↦ rw e refl
      ] in
    record {
      running = s.running;
      queue = record {
        linked =
            IsLinked-frame k.procs procs k.ready_queue_head xs s.queue.linked
              λ q i. kept q (λ e. absurd (cc (ap (λ y. has y xs) e, i, s.apart)));
        distinct = s.queue.distinct;
        in_pool = s.queue.in_pool;
      };
      apart = s.apart;
      in_pool = s.in_pool;
      paged = λ p h. rw (frame p) (s.paged p h);
    }

abbrev stayed : Kernel → Run Kernel (Unit {0}) → Kernel
stayed k (ok a k') = k'
stayed k _ = k

-- Where `rrsched` returns, the tick was one within the time slice.
pub rrsched-Scheduled :
    {k k' : Kernel} (c : ℕ) (xs : List ℕ)
    → rrsched k ≡ ok tt k'
    → Scheduled k c xs
    → Scheduled k' c xs
rrsched-Scheduled {k} {k'} c xs h s =
    elim (Bool-cases (ltb (k.procs c).tick_count time_slice_len)) [
      | inl within ↦
          let run = rrsched-within k c s.running (ground (arith, within)) in
          subst (λ kk. Scheduled kk c xs) (ap (stayed k) (sym run ∙ h)) (ticked-Scheduled c xs s)
      | inr over ↦
          let (k2, run, r) =
            rrsched-Rotated k c xs (next_running c xs) (next_waiting c xs) s.running
              (ground (arith, over)) s.queue s.apart s.in_pool (next_line c xs)
              (next_paged c xs s) in
          absurd (not_left (rrsched k) k2 (ap leaves h) run)
    ]

pub Stays-Scheduled :
    {k k' : Kernel} (c : ℕ) (xs : List ℕ) → Stays k k' → Scheduled k c xs → Scheduled k' c xs
Stays-Scheduled c xs (runs same) s = SameTasks-Scheduled c xs same s
Stays-Scheduled c xs (ticks same h more) s =
    Stays-Scheduled c xs more (rrsched-Scheduled c xs h (SameTasks-Scheduled c xs same s))

pub GivesUp-Scheduled :
    {k k' : Kernel} (c : ℕ) (xs : List ℕ)
    → GivesUp k k'
    → Scheduled k c xs
    → Scheduled k' (next_running c xs) (next_waiting c xs)
GivesUp-Scheduled {k} {k'} c xs (yields h) s =
    let (k2, run, r) =
      sys_user_yield-Rotated k c xs (next_running c xs) (next_waiting c xs) s.running s.queue
        s.apart s.in_pool (next_line c xs) (next_paged c xs s) in
    subst (λ kk. Scheduled kk (next_running c xs) (next_waiting c xs)) (same_user k run h)
      (Rotated-Scheduled c to_ready xs (λ p. refl) s r)
GivesUp-Scheduled {k} {k'} c xs (slice_ends h) s =
    elim (Bool-cases (ltb (k.procs c).tick_count time_slice_len)) [
      | inl within ↦
          let run = rrsched-within k c s.running (ground (arith, within)) in
          absurd (not_left (rrsched k) k' (ap leaves run) h)
      | inr over ↦
          let (k2, run, r) =
            rrsched-Rotated k c xs (next_running c xs) (next_waiting c xs) s.running
              (ground (arith, over)) s.queue s.apart s.in_pool (next_line c xs)
              (next_paged c xs s) in
          subst (λ kk. Scheduled kk (next_running c xs) (next_waiting c xs)) (same_user k run h)
            (Rotated-Scheduled c rested xs (λ p. refl) s r)
    ]
GivesUp-Scheduled {k} {k'} c xs (waits c' pid flag e child h) s =
    let child' =
      subst (λ i. wait_flag nproc 0 (as_int pid) (some i) k.procs none ≡ some flag)
        (same_running k s.running e) child in
    let (k2, run, r) =
      sys_user_wait-Rotated k c pid flag xs (next_running c xs) (next_waiting c xs) s.running child'
        s.queue s.apart s.in_pool (next_line c xs) (next_paged c xs s) in
    subst (λ kk. Scheduled kk (next_running c xs) (next_waiting c xs)) (same_user k run h)
      (Rotated-Scheduled c to_ready xs (λ p. refl) s r)

-- The last process that exits leaves for no other.
no_next : (k k' : Kernel) (c code : ℕ) → Scheduled k c [] → ¬ (sys_user_exit code k ≡ user k')
unfolding sys_user_exit free_process
no_next k k' c code s h =
    let k1 = record k {
      current = some c;
      procs = update k.procs c (record (k.procs c) { status = zombie });
    } in
    let q1 : IsQueue k1 [] = record { linked = s.queue.linked; distinct = tt; in_pool = tt } in
    let h1 : and_then (schedule k1) (λ _. pure 0) ≡ user k' = rw s.running at h in
    elim (schedule-empty k1 q1) [
      | inl (stops, all) ↦
          absurd (not_left halt k' refl (ap (λ r. and_then r (λ _. pure 0)) (sym stops) ∙ h1))
      | inr (stops, some_left) ↦
          absurd (not_left panic k' refl (ap (λ r. and_then r (λ _. pure 0)) (sym stops) ∙ h1))
    ]

exits-Scheduled :
    {k k' : Kernel} (c : ℕ) (xs : List ℕ) (code : ℕ)
    → sys_user_exit code k ≡ user k'
    → Scheduled k c xs
    → (c' : ℕ) × (xs' : List ℕ) × Scheduled k' c' xs'
exits-Scheduled {k} {k'} c [] code h s = absurd (no_next k k' c code s h)
exits-Scheduled {k} {k'} c (x ∷ xs) code h s =
    let (k2, run, q, r, z, others) =
      sys_user_exit-resumed k c code x xs s.running s.queue s.apart (next_paged c (x ∷ xs) s) in
    let d = s.queue.distinct in
    (
      x,
      xs,
      subst (λ kk. Scheduled kk x xs) (same_user k run h)
          (record {
            running = ap (λ (kk : Kernel). kk.current) r;
            queue = q;
            apart = d.0;
            in_pool = s.queue.in_pool.0;
            paged = λ p h'.
                let other : p ≢ c = ground (arith, h', s.apart) in
                rw (others p other) (s.paged p (ground arith));
          }),
    )

Step-Scheduled :
    {k k' : Kernel} (c : ℕ) (xs : List ℕ)
    → Step k k'
    → Scheduled k c xs
    → (c' : ℕ) × (xs' : List ℕ) × Scheduled k' c' xs'
Step-Scheduled c xs (enters same) s = (c, xs, SameTasks-Scheduled c xs same s)
Step-Scheduled c xs (ticked_on h) s = (c, xs, rrsched-Scheduled c xs h s)
Step-Scheduled c xs (gives_up g) s =
    (next_running c xs, next_waiting c xs, GivesUp-Scheduled c xs g s)
Step-Scheduled c xs (exits code h) s = exits-Scheduled c xs code h s

-- From a state in which one process runs and the others of a list wait, every state that is reached
-- by user code, by yields, waits with a child and exits, and by ticks of the timer, both those within a
-- time slice and those at its end, is such a state again: one process runs, those that wait are different and READY, the running one is not
-- among them, all are below NPROC, and each of them has its trapframe.
pub Reach-Scheduled :
    {k k' : Kernel} (c : ℕ) (xs : List ℕ)
    → Reach k k'
    → Scheduled k c xs
    → (c' : ℕ) × (xs' : List ℕ) × Scheduled k' c' xs'
Reach-Scheduled c xs here s = (c, xs, s)
Reach-Scheduled c xs (there step more) s =
    let (c', xs', s') = Step-Scheduled c xs step s in Reach-Scheduled c' xs' more s'
