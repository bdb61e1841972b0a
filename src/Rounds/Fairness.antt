-- ===== src/Rounds/Fairness.antt =====
-- Round robin: the processes run in the order of the ready queue, and each gets its turn.
use mypkecode.Base.{
  ℕ, zero, suc, ◌+◌, ◌≤◌, ◌≡◌, refl, ap, ◌∙◌, true, some, List, [], ◌∷◌, ◌++◌, length, ◌==◌, ltb,
  user, arith, Bool-cases, inl, inr,
}
use mathlib.Core.List.{append_assoc}
use mypkecode.Kernel.{Kernel, update}
use mypkecode.Sched.{time_slice_len}
use mypkecode.Strap.{rrsched}
use mypkecode.Strap.Slice.{ticked, rrsched-within, rrsched-Rotated}
use mypkecode.Rounds.{
  Scheduled, SameTasks, Stays, runs, ticks, Turns, slice_ends, no_turn, turn, Slices, no_slice,
  slice, next_running, next_waiting,
}
use mypkecode.Rounds.Safety.{
  ticked-Scheduled, Stays-Scheduled, GivesUp-Scheduled, next_paged, next_line,
}

-- Who runs after `n` turns, and who waits.
unfoldable pub running_after : ℕ → ℕ → List ℕ → ℕ
running_after zero c xs = c
running_after (suc n) c xs = running_after n (next_running c xs) (next_waiting c xs)

unfoldable pub waiting_after : ℕ → ℕ → List ℕ → List ℕ
waiting_after zero c xs = xs
waiting_after (suc n) c xs = waiting_after n (next_running c xs) (next_waiting c xs)

Turns-Scheduled :
    {k k' : Kernel} (n c : ℕ) (xs : List ℕ)
    → Turns n k k'
    → Scheduled k c xs
    → Scheduled k' (running_after n c xs) (waiting_after n c xs)
unfolding running_after waiting_after
Turns-Scheduled zero c xs (no_turn stays) s = Stays-Scheduled c xs stays s
Turns-Scheduled (suc n) c xs (turn stays g more) s =
    Turns-Scheduled n (next_running c xs) (next_waiting c xs) more
      (GivesUp-Scheduled c xs g (Stays-Scheduled c xs stays s))

same_tasks : (k : Kernel) → SameTasks k k
same_tasks k = record { same_procs = refl; same_current = refl; same_head = refl }

tick_counted :
    (k : Kernel) (c : ℕ)
    → (update k.procs c (ticked (k.procs c)) c).tick_count ≡ (k.procs c).tick_count + 1
unfolding update
tick_counted k c = let e : (c == c) ≡ true = ground arith in rw e refl

slice_over :
    (k : Kernel) (c : ℕ) (xs : List ℕ)
    → time_slice_len ≤ (k.procs c).tick_count
    → Scheduled k c xs
    → (k1 : Kernel) × (k2 : Kernel) × Stays k k1
      × (rrsched k1 ≡ user k2)
      × Scheduled k2 (next_running c xs) (next_waiting c xs)
slice_over k c xs over s =
    let (k2, run, r) =
      rrsched-Rotated k c xs (next_running c xs) (next_waiting c xs) s.running over s.queue s.apart
        s.in_pool (next_line c xs) (next_paged c xs s) in
    (k, k2, runs (same_tasks k), run, GivesUp-Scheduled c xs (slice_ends run) s)

-- The time slice of the running process ends after the ticks that are left of it.
slice_out :
    (k : Kernel) (left c : ℕ) (xs : List ℕ)
    → time_slice_len ≤ (k.procs c).tick_count + left
    → Scheduled k c xs
    → (k1 : Kernel) × (k2 : Kernel) × Stays k k1
      × (rrsched k1 ≡ user k2)
      × Scheduled k2 (next_running c xs) (next_waiting c xs)
slice_out k zero c xs enough s = slice_over k c xs (omega (arith, enough)) s
slice_out k (suc left) c xs enough s =
    elim (Bool-cases (ltb (k.procs c).tick_count time_slice_len)) [
      | inr over ↦ slice_over k c xs (ground (arith, over)) s
      | inl within ↦
          let run = rrsched-within k c s.running (ground (arith, within)) in
          let k0 = record k { procs = update k.procs c (ticked (k.procs c)) } in
          let (k1, k2, stays, ends, s2) =
            slice_out k0 left c xs (omega (arith, enough, tick_counted k c))
              (ticked-Scheduled c xs s) in
          (k1, k2, ticks (same_tasks k) run stays, ends, s2)
    ]

-- The time slices can end by the timer, one after the other.
Slices-possible :
    (k : Kernel) (n c : ℕ) (xs : List ℕ) → Scheduled k c xs → (k' : Kernel) × Slices n k k'
Slices-possible k zero c xs s = (k, no_slice (runs (same_tasks k)))
Slices-possible k (suc n) c xs s =
    let (k1, k2, stays, ends, s2) = slice_out k time_slice_len c xs (omega arith) s in
    let (k3, more) = Slices-possible k2 n (next_running c xs) (next_waiting c xs) s2 in
    (k3, slice stays ends more)

-- The end of a time slice is a turn.
Slices-Turns : {k k' : Kernel} (n : ℕ) → Slices n k k' → Turns n k k'
Slices-Turns zero (no_slice stays) = no_turn stays
Slices-Turns (suc n) (slice stays ends more) = turn stays (slice_ends ends) (Slices-Turns n more)

running_after-middle :
    (c y : ℕ) (before behind : List ℕ)
    → running_after (suc (length before)) c (before ++ y ∷ behind) ≡ y
unfolding running_after
running_after-middle c y [] behind = refl
running_after-middle c y (x ∷ before) behind =
    ap (running_after (suc (length before)) x) (append_assoc before (y ∷ behind) (c ∷ []))
    ∙ running_after-middle x y before (behind ++ c ∷ [])

-- From a state in which one process runs and others wait, a process that waits behind `before` runs
-- after exactly one turn more than `before` is long, whichever of yield, wait with a child and the end
-- of a time slice gives up the processor at each turn, with user code and ticks within the time slice
-- in between. The turns can always be taken, also by the timer alone: from any count of ticks each time
-- slice ends.
pub Turns-running :
    (k : Kernel) (c y : ℕ) (before behind : List ℕ)
    → Scheduled k c (before ++ y ∷ behind)
    → ((k' : Kernel) × Slices (suc (length before)) k k' × Turns (suc (length before)) k k')
      × ((k' : Kernel) → Turns (suc (length before)) k k' → k'.current ≡ some y)
Turns-running k c y before behind s =
    let n = suc (length before) in
    let (k1, slices) = Slices-possible k n c (before ++ y ∷ behind) s in
    (
      (k1, slices, Slices-Turns n slices),
      λ k' t.
          (Turns-Scheduled n c (before ++ y ∷ behind) t s).running
          ∙ ap some (running_after-middle c y before behind),
    )
