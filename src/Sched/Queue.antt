-- ===== src/Sched/Queue.antt =====
-- The ready queue as a list of process numbers: the abstract view of `ready_queue_head` and the
-- `queue_next` links (kernel/sched.c).
use mypkecode.Base.{
  ℕ, ◌<◌, ◌≡◌, refl, ap, ◌∙◌, has-append, true, false, none, some, List, [], ◌∷◌, ◌++◌, has, arith,
}
use mypkecode.Base.Distinct.{Distinct, AllBelow}
use mypkecode.Kernel.{nproc, ProcPtr, Process, Kernel, update}
use mypkecode.Kernel.Status.{ready}

-- From `h` the links lead through the processes `xs`, which are ready, to NULL.
abbrev pub IsLinked : (ℕ → Process) → ProcPtr → List ℕ → Type 0
IsLinked procs h [] = h ≡ none
IsLinked procs h (x ∷ xs) =
    (h ≡ some x) × ((procs x).status ≡ ready) × IsLinked procs (procs x).queue_next xs

-- The ready queue holds the different processes `xs`, in this order.
pub record IsQueue (k : Kernel) (xs : List ℕ) : Type 0 where
  pub linked : IsLinked k.procs k.ready_queue_head xs
  pub distinct : Distinct xs
  pub in_pool : AllBelow nproc xs

-- A queue survives any change to processes outside it.
pub IsLinked-frame :
    (procs procs' : ℕ → Process) (h : ProcPtr) (xs : List ℕ)
    → IsLinked procs h xs
    → ((x : ℕ) → has x xs ≡ true → procs' x ≡ procs x)
    → IsLinked procs' h xs
IsLinked-frame procs procs' h [] l same = l
IsLinked-frame procs procs' h (x ∷ xs) l same =
    let e : procs' x ≡ procs x = same x (ground arith) in
    (
      l.0,
      ap (λ (p : Process). p.status) e ∙ l.1,
      IsLinked-frame procs procs' (procs' x).queue_next xs
          (rw (ap (λ (p : Process). p.queue_next) e) l.2) (λ y i. same y (ground arith)),
    )

pub IsLinked-update :
    (procs : ℕ → Process) (h : ProcPtr) (xs : List ℕ) (i : ℕ) (p : Process)
    → IsLinked procs h xs
    → has i xs ≡ false
    → IsLinked (update procs i p) h xs
unfolding update
IsLinked-update procs h xs i p l out =
    IsLinked-frame procs (update procs i p) h xs l (λ x e. ground arith)

pub Distinct-append_one :
    (xs : List ℕ) (p : ℕ) → Distinct xs → has p xs ≡ false → Distinct (xs ++ p ∷ [])
Distinct-append_one [] p d out = (refl, tt)
Distinct-append_one (x ∷ xs) p d out =
    (ground (arith, has-append x xs (p ∷ [])), Distinct-append_one xs p d.1 (ground arith))

pub AllBelow-append_one :
    (n : ℕ) (xs : List ℕ) (p : ℕ) → AllBelow n xs → p < n → AllBelow n (xs ++ p ∷ [])
AllBelow-append_one n [] p b h = (h, tt)
AllBelow-append_one n (x ∷ xs) p b h = (b.0, AllBelow-append_one n xs p b.1 h)
