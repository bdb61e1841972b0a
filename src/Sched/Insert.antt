-- ===== src/Sched/Insert.antt =====
-- `insert_to_ready_queue` of kernel/sched.c appends to the queue.
use mypkecode.Base.{
  ℕ, zero, suc, ◌+◌, ◌<◌, ◌≡◌, ◌≢◌, refl, ap, ◌∙◌, true, false, none, some, List, [], ◌∷◌, ◌++◌,
  has, length, ◌==◌, arith, ok, Bool-cases, inl, inr, subst, sym,
}
use mypkecode.Base.Distinct.{Distinct, length-le}
use mypkecode.Kernel.{nproc, Process, Kernel, update}
use mypkecode.Kernel.Status.{ready}
use mypkecode.Sched.{find_tail, insert_to_ready_queue}
use mypkecode.Sched.Queue.{IsLinked, IsQueue, Distinct-append_one, AllBelow-append_one}

-- The last element of a list that is not empty.
abbrev last_of : ℕ → List ℕ → ℕ
last_of x [] = x
last_of x (y ∷ ys) = last_of y ys

find_tail-absent :
    (fuel proc q : ℕ) (k : Kernel) (xs : List ℕ)
    → IsLinked k.procs (some q) (q ∷ xs)
    → has proc (q ∷ xs) ≡ false
    → length xs < fuel
    → find_tail fuel proc q k ≡ ok (some (last_of q xs)) k
unfolding find_tail
find_tail-absent zero proc q k xs l out f = absurd (omega arith)
find_tail-absent (suc fuel) proc q k [] l out f =
    let t : (q == proc) ≡ false = ground arith in rw (t, l.2)
find_tail-absent (suc fuel) proc q k (x ∷ xs) l out f =
    let t : (q == proc) ≡ false = ground arith in
    rw (t, l.2.0)
      (find_tail-absent fuel proc x k xs (refl, l.2.1, l.2.2) (ground arith) (omega arith))

find_tail-present :
    (fuel proc q : ℕ) (k : Kernel) (xs : List ℕ)
    → IsLinked k.procs (some q) (q ∷ xs)
    → has proc (q ∷ xs) ≡ true
    → length xs < fuel
    → find_tail fuel proc q k ≡ ok none k
unfolding find_tail
find_tail-present zero proc q k xs l h f = absurd (omega arith)
find_tail-present (suc fuel) proc q k [] l h f = let t : (q == proc) ≡ true = ground arith in rw t
find_tail-present (suc fuel) proc q k (x ∷ xs) l h f = elim (Bool-cases (q == proc)) [
  | inl t ↦ rw t
  | inr t ↦
      rw (t, l.2.0)
        (find_tail-present fuel proc x k xs (refl, l.2.1, l.2.2) (ground arith) (omega arith))
]

has-last_of : (x : ℕ) (xs : List ℕ) → has (last_of x xs) (x ∷ xs) ≡ true
has-last_of x [] = ground arith
has-last_of x (y ∷ ys) = ground (arith, has-last_of y ys)

-- The pool after `proc` is linked behind `p`.
abbrev linked : (ℕ → Process) → (p proc : ℕ) → ℕ → Process
linked procs p proc =
    let procs' = update procs p (record (procs p) { queue_next = some proc }) in
    update procs' proc (record (procs' proc) { status = ready; queue_next = none })

linked_other :
    (procs : ℕ → Process) (p proc x : ℕ) → p ≢ x → proc ≢ x → linked procs p proc x ≡ procs x
unfolding update
linked_other procs p proc x h g = ground arith

IsLinked-linked :
    (procs : ℕ → Process) (x : ℕ) (xs : List ℕ) (proc : ℕ)
    → IsLinked procs (some x) (x ∷ xs)
    → Distinct (x ∷ xs)
    → has proc (x ∷ xs) ≡ false
    → IsLinked (linked procs (last_of x xs) proc) (some x) (x ∷ (xs ++ proc ∷ []))
unfolding update
IsLinked-linked procs x [] proc l d out =
    (refl, ground arith, (ground arith, ground arith, ground arith))
IsLinked-linked procs x (y ∷ ys) proc l d out =
    let e : linked procs (last_of y ys) proc x ≡ procs x =
      linked_other procs (last_of y ys) proc x
        (λ (e : last_of y ys ≡ x). absurd (ground (arith, has-last_of y ys))) (ground arith) in
    (
      refl,
      ap (λ (p : Process). p.status) e ∙ l.1,
      subst (λ h. IsLinked (linked procs (last_of y ys) proc) h (y ∷ (ys ++ proc ∷ [])))
          (sym (ap (λ (p : Process). p.queue_next) e ∙ l.2.0))
          (IsLinked-linked procs y ys proc (refl, l.2.1, l.2.2) d.1 (ground arith)),
    )

-- Only the head of the queue, the links of other processes, and the status and link of `proc` change.
pub record Inserts (k k' : Kernel) (proc : ℕ) : Type 0 where
  pub rest : k' ≡ record k { procs = k'.procs; ready_queue_head = k'.ready_queue_head }
  pub others :
      (q : ℕ) → q ≢ proc → k'.procs q ≡ record (k.procs q) { queue_next = (k'.procs q).queue_next }
  pub self : k'.procs proc ≡ record (k.procs proc) { status = ready; queue_next = none }

linked_others :
    (procs : ℕ → Process) (p proc q : ℕ)
    → q ≢ proc
    → linked procs p proc q ≡ record (procs q) { queue_next = (linked procs p proc q).queue_next }
unfolding update
linked_others procs p proc q h = elim (Bool-cases (proc == q)) [
  | inl e ↦ absurd (ground arith)
  | inr e ↦ elim (Bool-cases (p == q)) [
    | inl f ↦ let t : p ≡ q = ground arith in let r : (q == q) ≡ true = ground arith in rw (t, e, r)
    | inr f ↦ rw (e, f)
  ]
]

linked_self :
    (procs : ℕ → Process) (p proc : ℕ)
    → p ≢ proc
    → linked procs p proc proc ≡ record (procs proc) { status = ready; queue_next = none }
unfolding update
linked_self procs p proc h = ground arith

-- Where the processes of the queue are `xs` and `proc` is a process of the pool that is not among
-- them, `insert_to_ready_queue` returns, `proc` is READY behind them, and nothing else changes but
-- links.
pub insert_to_ready_queue-append :
    (k : Kernel) (xs : List ℕ) (proc : ℕ)
    → IsQueue k xs
    → has proc xs ≡ false
    → proc < nproc
    → (k' : Kernel) × (insert_to_ready_queue proc k ≡ ok tt k')
      × IsQueue k' (xs ++ proc ∷ [])
      × Inserts k k' proc
unfolding insert_to_ready_queue update
insert_to_ready_queue-append k [] proc q out b =
    let k' = record k {
      procs = update k.procs proc (record (k.procs proc) { status = ready; queue_next = none });
      ready_queue_head = some proc;
    } in
    (
      k',
      rw q.linked refl,
      record {
        linked = (refl, ground arith, ground arith);
        distinct = (refl, tt);
        in_pool = (b, tt);
      },
      record {
        rest = refl;
        others = λ o h. let e : (proc == o) ≡ false = ground arith in rw e;
        self = ground arith;
      },
    )
insert_to_ready_queue-append k (x ∷ xs) proc q out b =
    let p = last_of x xs in
    let k' = record k { procs = linked k.procs p proc } in
    let h : p ≢ proc = λ e. absurd (ground (arith, has-last_of x xs)) in
    (
      k',
      rw (q.linked.0) (
          rw
            (find_tail-absent (nproc + 1) proc x (record k { ready_queue_head = some x }) xs
              (refl, q.linked.1, q.linked.2) out
              (omega (arith, length-le nproc (x ∷ xs) q.distinct q.in_pool)))
            refl),
      record {
        linked =
            rw q.linked.0
              (IsLinked-linked k.procs x xs proc (refl, q.linked.1, q.linked.2) q.distinct out);
        distinct = Distinct-append_one (x ∷ xs) proc q.distinct out;
        in_pool = AllBelow-append_one nproc (x ∷ xs) proc q.in_pool b;
      },
      record {
        rest = refl;
        others = linked_others k.procs p proc;
        self = linked_self k.procs p proc h;
      },
    )

-- `insert_to_ready_queue` of a process that is in the queue already returns and changes nothing.
pub insert_to_ready_queue-present :
    (k : Kernel) (xs : List ℕ) (proc : ℕ)
    → IsQueue k xs
    → has proc xs ≡ true
    → insert_to_ready_queue proc k ≡ ok tt k
unfolding insert_to_ready_queue
insert_to_ready_queue-present k [] proc q i = absurd (ground arith)
insert_to_ready_queue-present k (x ∷ xs) proc q i = rw (q.linked.0) (
    rw
      (find_tail-present (nproc + 1) proc x (record k { ready_queue_head = some x }) xs
        (refl, q.linked.1, q.linked.2) i
        (omega (arith, length-le nproc (x ∷ xs) q.distinct q.in_pool)))
      refl)
