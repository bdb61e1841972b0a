-- ===== src/Proc/Created.antt =====
-- What `alloc_process` (kernel/process.c) leaves besides the address space: the process, its trapframe
-- and its table of regions.
use mypkecode.Base.{
  ℕ, ◌+◌, ◌-◌, ◌*◌, ◌/◌, ◌%◌, ◌^◌, ◌≤◌, ◌<◌, ◌≡◌, ◌≢◌, ◌∙◌, true, List, [], ◌∷◌, ◌++◌, suc, length,
  ◌==◌, has, if◌then◌else◌, arith,
}
use mypkecode.Phys.{pgsize, Memory, write}
use mypkecode.Vmm.Space.{SameBounds}
use mypkecode.Kernel.{Kernel}
use mypkecode.Trapframe.{off_sp, trapframe_size}
use mypkecode.Proc.{user_stack_top, stack_segment, context_segment, system_segment}
use mypkecode.Proc.Mappings.{region_set, given}

-- The table of regions at `info` holds, from region `j` on, the given `va`, `npages` and `seg_type`.
abbrev pub HoldsRegions : Memory → (info j : ℕ) → List (ℕ × ℕ × ℕ) → Type 0
HoldsRegions m info j [] = Unit {0}
HoldsRegions m info j ((va, npages, seg) ∷ rs) =
    (m (info + 16 * j) ≡ va)
    × (m (info + 16 * j + 8) ≡ npages + seg * 2 ^ 32)
    × HoldsRegions m info (j + 1) rs

-- A table of regions survives changes elsewhere.
pub HoldsRegions-same :
    (m m' : Memory) (info j : ℕ) (rs : List (ℕ × ℕ × ℕ))
    → ((a : ℕ) → info + 16 * j ≤ a → a < info + 16 * (j + length rs) → m' a ≡ m a)
    → HoldsRegions m info j rs
    → HoldsRegions m' info j rs
HoldsRegions-same m m' info j [] same h = tt
HoldsRegions-same m m' info j ((va, n, seg) ∷ rs) same h = (
  same (info + 16 * j) (omega arith) (omega arith) ∙ h.0,
  same (info + 16 * j + 8) (omega arith) (omega arith) ∙ h.1,
  HoldsRegions-same m m' info (j + 1) rs (λ a ge lt. same a (omega (arith, ge)) (omega (arith, lt)))
      h.2,
)

pub HoldsRegions-append :
    (m : Memory) (info j : ℕ) (rs ss : List (ℕ × ℕ × ℕ))
    → HoldsRegions m info j rs
    → HoldsRegions m info (j + length rs) ss
    → HoldsRegions m info j (rs ++ ss)
HoldsRegions-append m info j [] ss h g = let e : j + 0 ≡ j = omega arith in rw e at g
HoldsRegions-append m info j ((va, n, seg) ∷ rs) ss h g =
    let e : j + suc (length rs) ≡ j + 1 + length rs = omega arith in
    (h.0, h.1, HoldsRegions-append m info (j + 1) rs ss h.2 (rw e at g))

-- The regions of a new process.
abbrev pub first_regions : (tf trap : ℕ) → List (ℕ × ℕ × ℕ)
first_regions tf trap =
    (user_stack_top - pgsize, 1, stack_segment)
    ∷ (tf, 1, context_segment)
    ∷ (trap, 1, system_segment)
    ∷ []

-- Process `i` is new, with the pages `tf`, `pt`, `ks` and `info`. The pages of `own`, the bounds of the pool and
-- all that is not memory or a process are as before.
pub record Created (k k' : Kernel) (i tf pt ks info : ℕ) (own : List ℕ) : Type 0 where
  pub self : k'.procs i ≡ given (k.procs i) tf pt ks info
  pub others : (q : ℕ) → q ≢ i → k'.procs q ≡ k.procs q
  pub rest : k' ≡ record k { phys = k'.phys; procs = k'.procs }
  pub frame :
      (a : ℕ)
      → tf ≤ a
      → a < tf + trapframe_size
      → k'.phys.mem a ≡ (if a == tf + off_sp then user_stack_top else 0)
  pub table : HoldsRegions k'.phys.mem info 0 (first_regions tf k.trap_sec_start)
  pub spared : (a : ℕ) → has (a / pgsize * pgsize) own ≡ true → k'.phys.mem a ≡ k.phys.mem a
  pub bounds : SameBounds k.phys k'.phys

-- The three regions, as they are assigned in turn.
abbrev pub table_set : Memory → (info tf trap : ℕ) → Memory
table_set m info tf trap =
    region_set (region_set (region_set m info 0 (user_stack_top - pgsize) 2) info 1 tf 3) info 2
      trap 4

pub table_set-HoldsRegions :
    (m m' : Memory) (info tf trap : ℕ)
    → info % pgsize ≡ 0
    → ((a : ℕ) → a / pgsize * pgsize ≡ info → m' a ≡ table_set m info tf trap a)
    → HoldsRegions m' info 0 (first_regions tf trap)
unfolding write
table_set-HoldsRegions m m' info tf trap al same =
    let near = λ (a : ℕ) (ge : info ≤ a) (lt : a < info + pgsize). same a (omega (arith, al)) in
    (
      near (info + 0) (omega arith) (omega arith) ∙ ground arith,
      near (info + 0 + 8) (omega arith) (omega arith) ∙ ground arith,
      (
        near (info + 16) (omega arith) (omega arith) ∙ ground arith,
        near (info + 16 + 8) (omega arith) (omega arith) ∙ ground arith,
        (
          near (info + 32) (omega arith) (omega arith) ∙ ground arith,
          near (info + 32 + 8) (omega arith) (omega arith) ∙ ground arith,
          tt,
        ),
      ),
    )

pub table_set-apart :
    (m : Memory) (info tf trap a : ℕ)
    → info % pgsize ≡ 0
    → a / pgsize * pgsize ≢ info
    → table_set m info tf trap a ≡ m a
unfolding write
table_set-apart m info tf trap a al h =
    let far = λ (n : ℕ) (small : n < pgsize) (e : info + n ≡ a). h (omega (arith, al, e)) in
    ground (
      arith,
      far (16 * 0),
      far (16 * 0 + 8),
      far (16 * 1),
      far (16 * 1 + 8),
      far (16 * 2),
      far (16 * 2 + 8),
    )
