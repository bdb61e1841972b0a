-- ===== src/Vmm/MapPages.antt =====
-- `map_pages`, `kern_vm_map` and `user_vm_map` of kernel/vmm.c against the abstract map.
use mypkecode.Base.{
  ℕ, zero, suc, ◌+◌, ◌-◌, ◌*◌, ◌/◌, ◌%◌, ◌^◌, ◌≤◌, ◌<◌, ◌≡◌, ◌≢◌, refl, Bool, true, false, some,
  List, [], ◌==◌, length, if◌then◌else◌, arith, Run, ok, panic, pure, ◌>>=◌, Bool-cases, inl, inr,
  ltb, ltb→le,
}
use mypkecode.Base.Words.{has_bit, u64}
use mypkecode.Phys.{pgsize, Phys}
use mypkecode.Pmm.{rounddown}
use mypkecode.Vmm.{pte_v, px, entry, maxva, page_walk, leaf_pte, map_page, map_loop, map_pages}
use mypkecode.Vmm.Space.{dir, Labels, pte_at, Space, Grows, Grows-refl}
use mypkecode.Vmm.Walk.{Walked, reached, exhausted, page_walk-Walked, load-table, store-table}
use mypkecode.Vmm.Mapping.{stored}
use mypkecode.Vmm.MapLoop.{
  Remaps, one, store_one, entry_before, Mapped, done, full, clash, Grows-Remaps, Remaps-trans,
  remap_step,
}

-- One round has mapped `first`; the rest of the loop maps the rest.
Mapped-step :
    {s s' : Phys} {lab lab' : Labels} {xs xs' : List ℕ} {run : Run Phys Bool}
    (r first last pa perm : ℕ)
    → first % pgsize ≡ 0
    → last % pgsize ≡ 0
    → first ≤ last
    → last < maxva
    → lab r ≡ some (dir r)
    → Remaps s lab xs s' lab' xs' (one s.mem r first (leaf_pte pa perm))
    → length xs ≤ length xs' + 2
    → Mapped s' lab' xs' r (first + pgsize) last (pa + pgsize) perm run
    → Mapped s lab xs r first last pa perm run
Mapped-step {s} r first last pa perm al all le lt at a u (done s₂ lab₂ xs₂ e b u₂) =
    done s₂ lab₂ xs₂ e
      (Remaps-trans _ a b λ r' va hva at' h.
        remap_step s.mem _ r first (last + pgsize) pa perm r' va al (omega arith) (omega arith) h)
      (omega arith)
Mapped-step {s} r first last pa perm al all le lt at a u (full s₂ lab₂ end e ge lte ale b u₂) =
    full s₂ lab₂ end e (omega arith) lte ale
      (Remaps-trans _ a b
        λ r' va hva at' h. remap_step s.mem _ r first end pa perm r' va al (omega arith) ale h)
      (omega arith)
Mapped-step {s} {s'} r first last pa perm al all le lt at a u (clash va i v e) =
    let hva : va < maxva = ground arith in
    let old = a.entries r va hva at in
    let ne : va / pgsize ≢ first / pgsize = ground arith in
    let same : pte_at s'.mem r va ≡ pte_at s.mem r va = ground arith in
    clash va (ground arith) (rw same at v) e

-- The outcome of one round.
data Paged (s : Phys) (lab : Labels) (xs : List ℕ) (r first pa perm : ℕ) (run : Run Phys Bool)
    : Type 0 where
  done_page :
      (s' : Phys) (lab' : Labels) (xs' : List ℕ)
      → run ≡ ok true s'
      → Remaps s lab xs s' lab' xs' (one s.mem r first (leaf_pte pa perm))
      → length xs ≤ length xs' + 2
      → Paged s lab xs r first pa perm run
  full_page :
      (s' : Phys) (lab' : Labels)
      → run ≡ ok false s'
      → Grows s lab xs s' lab' []
      → length xs ≤ 1
      → Paged s lab xs r first pa perm run
  clash_page :
      has_bit (pte_at s.mem r first) pte_v ≡ true → run ≡ panic → Paged s lab xs r first pa perm run

module _ {s : Phys} {lab : Labels} {xs : List ℕ} (r first pa perm : ℕ) (sp : Space s lab xs)
    (at : lab r ≡ some (dir r)) (small : first < maxva) where
  Walked-Paged :
      Walked s lab xs r first (page_walk r first true s)
      → Paged s lab xs r first pa perm (map_page r first pa perm s)
  unfolding map_page
  Walked-Paged (exhausted s₁ lab₁ e g u) = full_page s₁ lab₁ (rw e) g u
  Walked-Paged (reached p s₁ lab₁ xs₁ e g lp lt u) =
      let a = g.space.page p _ lp in
      let k = px 0 first in
      let nz : (entry p k == 0) ≡ false = ground arith in
      let ld = load-table g.space p k _ lp in
      let before = entry_before r first at small p s₁ lab₁ xs₁ g lp lt in
      elim (Bool-cases (has_bit (s₁.mem (entry p k)) pte_v)) [
        | inl v ↦ clash_page (rw before at v) (rw (e, nz, ld, v))
        | inr v ↦
            done_page (stored s₁ (entry p k) (leaf_pte pa perm)) lab₁ xs₁
              (rw (e, nz, ld, v, store-table g.space p k _ lp (leaf_pte pa perm)))
              (store_one r first at small p s₁ lab₁ xs₁ g lp lt (leaf_pte pa perm)) u
      ]

  map_page-Paged : Paged s lab xs r first pa perm (map_page r first pa perm s)
  map_page-Paged = Walked-Paged (page_walk-Walked sp r first at small)

map_loop-Mapped :
    (fuel : ℕ) {s : Phys} {lab : Labels} {xs : List ℕ} (r first last pa perm : ℕ)
    → Space s lab xs
    → lab r ≡ some (dir r)
    → first % pgsize ≡ 0
    → last % pgsize ≡ 0
    → last < maxva
    → first ≤ last + pgsize
    → pa + (last + pgsize - first) < 2 ^ 63
    → last / pgsize + 1 < fuel + first / pgsize
    → Mapped s lab xs r first last pa perm (map_loop fuel r first last pa perm s)
unfolding map_loop
map_loop-Mapped zero r first last pa perm sp at al all lm fl pl f = absurd (omega arith)
map_loop-Mapped (suc fuel) {s} {lab} {xs} r first last pa perm sp at al all lm fl pl f =
    elim (Bool-cases (ltb last first)) [
      | inl e ↦
          rw e (
            done s lab xs refl (Grows-Remaps _ (Grows-refl sp) λ r' va. ground arith) (omega arith))
      | inr e ↦
          let le = ltb→le last first e in
          rw e (
            step le (map_page-Paged r first pa perm sp at (omega arith)) λ s' lab' xs' sp' at'.
              map_loop-Mapped fuel r (first + pgsize) last (pa + pgsize) perm sp' at' (omega arith)
                all lm (omega arith) (omega arith) (omega arith))
    ]
  where
    step :
        first ≤ last
        → Paged s lab xs r first pa perm (map_page r first pa perm s)
        → ((s' : Phys) (lab' : Labels) (xs' : List ℕ)
            → Space s' lab' xs'
            → lab' r ≡ some (dir r)
            → Mapped s' lab' xs' r
                (first + pgsize)
                last
                (pa + pgsize)
                perm
                (map_loop fuel r (first + pgsize) last (pa + pgsize) perm s'))
        → Mapped s lab xs r first last pa perm (
            (map_page r first pa perm >>= λ mapped.
            if mapped
            then map_loop fuel r (u64 (first + pgsize)) last (u64 (pa + pgsize)) perm
            else pure false)
              s)
    step le (full_page s₁ lab₁ e g u) rest =
        full s₁ lab₁ first (rw e) (omega arith) le al (Grows-Remaps _ g λ r' va. ground arith)
          (omega arith)
    step le (clash_page v e) rest = clash first (ground arith) v (rw e)
    step le (done_page s₁ lab₁ xs₁ e a u) rest =
        let w1 : u64 (first + pgsize) ≡ first + pgsize = omega arith in
        let w2 : u64 (pa + pgsize) ≡ pa + pgsize = omega arith in
        rw (e, w1, w2)
          (Mapped-step r first last pa perm al all le lm at a u
            (rest s₁ lab₁ xs₁ a.space (a.extends r _ at)))

-- `map_pages` on a range below `MAXVA` of at least one byte, for physical memory below 2^62, in a
-- well-formed set of spaces, ends in one of three ways: it returns 0 and the space has just the entries of the range anew, with every other entry of every
-- space as before; it returns -1 for want of a page, with a first part of the range mapped; or it
-- stops because an entry of the range is valid already. It never faults and never hangs.
pub map_pages-Mapped :
    {s : Phys} {lab : Labels} {xs : List ℕ} (r va size pa perm : ℕ)
    → Space s lab xs
    → lab r ≡ some (dir r)
    → 0 < size
    → va + size ≤ maxva
    → pa + size < 2 ^ 62
    → Mapped s lab xs r
        (va / pgsize * pgsize)
        ((va + size - 1) / pgsize * pgsize)
        pa
        perm
        (map_pages r va size pa perm s)
unfolding map_pages rounddown
map_pages-Mapped r va size pa perm sp at pos fits pfits =
    let wrap : u64 (va + size + 2 ^ 64 - 1) ≡ va + size - 1 = omega arith in
    rw wrap (
      map_loop-Mapped ((va + size - 1) / pgsize * pgsize / pgsize + 2) r (va / pgsize * pgsize)
        ((va + size - 1) / pgsize * pgsize) pa perm sp at (omega arith) (omega arith) (omega arith)
        (omega arith) (omega arith) (omega arith))
