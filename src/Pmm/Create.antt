-- ===== src/Pmm/Create.antt =====
-- `create_freepage_list` and `pmm_init` of kernel/pmm.c build the pool of free pages.
use mypkecode.Base.{ℕ, zero, suc, ◌+◌, ◌-◌, ◌/◌, ◌%◌, ◌^◌, min, ◌≤◌, ◌<◌, ◌≡◌, ◌↔◌, ◌⊎◌, refl}
use mypkecode.Base.{true, false, List, [], ◌∷◌, ltb, has, arith, Bool-cases, inl, inr}
use mypkecode.Base.{Run, ok, ltb→lt, le→ltb}
use mypkecode.Base.Words.{u64}
use mypkecode.Phys.{pgsize, Phys}
use mypkecode.Pmm.{dram_base, kern_base, pke_max_allowable_ram, pmm_init}
use mypkecode.Pmm.{rejected, create_loop, create_freepage_list, set_free_list, roundup}
use mypkecode.Pmm.Chain.{FreeList}
use mypkecode.Pmm.Pages.{freed, free_page-cons}

-- The page at `a` lies from `lo` on, and ends before `hi`.
abbrev pub InPool : ℕ → ℕ → ℕ → Type 0
InPool lo hi a = (a % pgsize ≡ 0) × (lo ≤ a) × (a + pgsize < hi)

-- The pages from `lo` up to `p`.
abbrev Upto : ℕ → ℕ → ℕ → Type 0
Upto lo p a = (a % pgsize ≡ 0) × (lo ≤ a) × (a < p)

-- A run that returns with a pool that holds just the pages of `P`.
abbrev pub Pools : (ℕ → Type 0) → Run Phys (Unit {0}) → Type 0
Pools P r =
    (s : Phys) × (xs : List ℕ) × (r ≡ ok tt s) × FreeList s xs × ((a : ℕ) → (has a xs ≡ true) ↔ P a)

module _ (lo end : ℕ) (small : end ≤ 2 ^ 63) where
  create_loop-Pools :
      (fuel p : ℕ) (s : Phys) (xs : List ℕ)
      → end / pgsize + 1 < fuel + p / pgsize
      → p % pgsize ≡ 0
      → lo ≤ p
      → p ≤ end + 4095
      → s.free_mem_start_addr ≤ lo
      → end ≤ s.free_mem_end_addr
      → FreeList s xs
      → ((a : ℕ) → (has a xs ≡ true) ↔ Upto lo p a)
      → (p ≡ lo) ⊎ (p < end)
      → Pools (InPool lo end) (create_loop fuel p end s)
  unfolding create_loop
  create_loop-Pools zero p s xs f al ge le lob hib fl mem o = absurd (omega arith)
  create_loop-Pools (suc fuel) p s xs f al ge le lob hib fl mem o =
      let wrap : u64 (p + pgsize) ≡ p + pgsize = omega arith in
      elim (Bool-cases (ltb (p + pgsize) end)) [
        | inl more ↦
            let room : p + pgsize < end = ltb→lt _ _ more in
            let ok_page : rejected s p ≡ false = ground arith in
            let fresh : has p xs ≡ false = ground (arith, (mem p).0) in
            let (run, fl') = free_page-cons fl p ok_page fresh in
            rw (wrap, more, run)
              (create_loop-Pools fuel (p + pgsize) (freed s p) (p ∷ xs) (omega arith) (omega arith)
                (omega arith) (omega arith) lob hib fl'
                (λ a. (λ i. ground (arith, (mem a).0), λ u. ground (arith, (mem a).1))) (inr room))
        | inr done ↦
            rw (wrap, done)
              (
                s,
                xs,
                refl,
                fl,
                λ a. (λ i. ground (arith, (mem a).0), λ u. ground (arith, (mem a).1)),
              )
      ]

abbrev set_up : (start end : ℕ) → Phys → Phys
set_up start end s = record s {
  free_list = 0;
  free_mem_start_addr = start;
  free_mem_end_addr = end;
}

roundup_bounds :
    (a : ℕ)
    → 0 < a
    → a ≤ 2 ^ 63
    → (roundup a pgsize % pgsize ≡ 0) × (a ≤ roundup a pgsize) × (roundup a pgsize ≤ a + 4095)
unfolding roundup
roundup_bounds a h k = omega arith

-- The free list that `create_freepage_list` builds over an aligned `start`, with a pool that spans
-- from `start` to `end`, holds every page from `start` on that ends before `end`, and no other.
pub create_freepage_list-Pools :
    (s : Phys) (start end : ℕ)
    → s.free_mem_start_addr ≡ start
    → s.free_mem_end_addr ≡ end
    → start % pgsize ≡ 0
    → pgsize ≤ start
    → start ≤ end
    → end ≤ 2 ^ 63
    → Pools (InPool start end) (create_freepage_list start end s)
unfolding create_freepage_list set_free_list
create_freepage_list-Pools s start end es ee al pos le small =
    let r = roundup_bounds start (omega arith) (omega arith) in
    let e : roundup start pgsize ≡ start = omega arith in
    rw e (
      create_loop-Pools start end small (end / pgsize + 2) start (record s { free_list = 0 }) []
        (omega arith) al (omega arith) (omega arith) (omega arith) (omega arith)
        (record { above_null = omega arith; fits = omega arith; chain = refl })
        (λ a. (λ i. cc, λ u. absurd (omega arith))) (inl refl))

-- Where the kernel ends above its base and its end rounded up lies in the managed memory,
-- `pmm_init` returns, sets `g_mem_size` to at most 128 MB, and leaves a free list of exactly the
-- pages from the kernel's rounded end on that end before the end of memory; a page that ends just
-- there is left out.
pub pmm_init-Pools :
    (s : Phys) (kernel_end g_mem_size : ℕ)
    → kern_base < kernel_end
    → kernel_end + 4095 ≤ kern_base + min pke_max_allowable_ram g_mem_size
    → (t : Phys) × (xs : List ℕ) × (pmm_init kernel_end g_mem_size s
        ≡ ok (min pke_max_allowable_ram g_mem_size) t)
      × FreeList t xs
      × ((a : ℕ)
          → (has a xs ≡ true)
            ↔ InPool
                (roundup kernel_end pgsize)
                (min pke_max_allowable_ram g_mem_size + dram_base)
                a)
unfolding pmm_init
pmm_init-Pools s kernel_end g_mem_size above fits =
    let r = roundup_bounds kernel_end (omega arith) (omega arith) in
    let (t, xs, run, fl, mem) =
      create_freepage_list-Pools
        (record s {
          free_mem_start_addr = roundup kernel_end pgsize;
          free_mem_end_addr = min pke_max_allowable_ram g_mem_size + dram_base;
        })
        (roundup kernel_end pgsize) (min pke_max_allowable_ram g_mem_size + dram_base) refl refl
        (r.0) (omega arith) (omega arith) (omega arith) in
    (
      t,
      xs,
      rw (
        le→ltb (min pke_max_allowable_ram g_mem_size) (u64 (kernel_end + 2 ^ 64 - kern_base))
            (omega arith),
        run,
      ),
      fl,
      mem,
    )
