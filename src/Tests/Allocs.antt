-- ===== src/Tests/Allocs.antt =====
-- A run of the creation of a process: eleven free pages, and process 4 the first free one.
use mypkecode.Base.{
  ℕ, ◌≤◌, length, ◌+◌, ◌*◌, ◌≡◌, refl, true, false, none, some, List, [], ◌∷◌, ◌==◌, has, arith, ok,
  if◌then◌else◌, ltb, Bool-cases, inl, inr,
}
use mypkecode.Phys.{pgsize, Memory, Phys}
use mypkecode.Pmm.Chain.{FreeList}
use mypkecode.Vmm.{entry}
use mypkecode.Vmm.Space.{Label, Labels, dir, pte_at, Space}
use mypkecode.Vmm.Built.{Built, add_root}
use mypkecode.Kernel.{nproc, Kernel}
use mypkecode.Proc.{first_free, alloc_process}
use mypkecode.Proc.Mappings.{new_space}
use mypkecode.Proc.Created.{Created}
use mypkecode.Proc.Alloc.{alloc_process-Built}
use mypkecode.Tests.{root, first_page, labels}
use mypkecode.Tests.Turns.{kernel}

-- The `n`-th page of the pool.
abbrev nth_page : ℕ → ℕ
nth_page n = first_page + n * pgsize

-- Each page leads to the next one.
abbrev linked_memory : Memory
linked_memory a = if ltb a first_page then 0 else if ltb a (nth_page 10) then a + pgsize else 0

abbrev linked_machine : Phys
linked_machine = record {
  mem = linked_memory;
  free_list = first_page;
  free_mem_start_addr = first_page;
  free_mem_end_addr = 0x8030_0000;
}

abbrev last_pages : List ℕ
last_pages = nth_page 5 ∷ nth_page 6 ∷ nth_page 7 ∷ nth_page 8 ∷ nth_page 9 ∷ nth_page 10 ∷ []

abbrev linked_pages : List ℕ
linked_pages = nth_page 0 ∷ nth_page 1 ∷ nth_page 2 ∷ nth_page 3 ∷ nth_page 4 ∷ last_pages

linked-FreeList : FreeList linked_machine linked_pages
linked-FreeList = record {
  above_null = omega arith;
  fits = omega arith;
  chain = (
    refl,
    refl,
    omega arith,
    omega arith,
    refl,
    (
      refl,
      refl,
      omega arith,
      omega arith,
      refl,
      (
        refl,
        refl,
        omega arith,
        omega arith,
        refl,
        (
          refl,
          refl,
          omega arith,
          omega arith,
          refl,
          (
            refl,
            refl,
            omega arith,
            omega arith,
            refl,
            (
              refl,
              refl,
              omega arith,
              omega arith,
              refl,
              (
                refl,
                refl,
                omega arith,
                omega arith,
                refl,
                (
                  refl,
                  refl,
                  omega arith,
                  omega arith,
                  refl,
                  (
                    refl,
                    refl,
                    omega arith,
                    omega arith,
                    refl,
                    (
                      refl,
                      refl,
                      omega arith,
                      omega arith,
                      refl,
                      (refl, refl, omega arith, omega arith, refl, refl),
                    ),
                  ),
                ),
              ),
            ),
          ),
        ),
      ),
    ),
  );
}

root-label : (p : ℕ) (l : Label) → labels p ≡ some l → (p ≡ root) × (l ≡ dir root)
root-label p l h = ground arith

below_pool : (p : ℕ) → p ≡ root → has p linked_pages ≡ false
below_pool p e = rw e refl

in_pool-none : (p : ℕ) → has p linked_pages ≡ true → labels p ≡ none
in_pool-none p h = elim (Bool-cases (p == root)) [
  | inl e ↦ let e' : p ≡ root = ground arith in absurd (cc (h, below_pool p e'))
  | inr e ↦ rw e refl
]

linked-Space : Space linked_machine labels linked_pages
linked-Space = record {
  pool = linked-FreeList;
  free = in_pool-none;
  page = λ p l h. let (e, f) = root-label p l h in rw e (refl, omega arith);
  dirs = λ p r h. ground arith;
  tables = λ p i l c h d b v.
      let (e, f) = root-label p l h in
      let zero_there : linked_memory (entry p i) ≡ 0 = ground (arith, e) in
      absurd (ground (arith, zero_there));
}

linked-Built : Built linked_machine labels linked_pages [] (λ r. r == root) (pte_at linked_memory)
linked-Built = record {
  space = linked-Space;
  owned = λ p h. absurd (cc);
  rooted = λ r h. let e : r ≡ root = ground arith in rw e refl;
  entries = λ r va h at. refl;
}

abbrev new_kernel : Kernel
new_kernel = record (kernel (some 1) 0) { phys = linked_machine }

fourth_free : first_free nproc 0 new_kernel.procs ≡ some 4
unfolding first_free
fourth_free = refl

alloc_process-Built_example :
    (k' : Kernel) × (lab' : Labels) × (xs' : List ℕ) × (alloc_process new_kernel ≡ ok 4 k')
    × Built k'.phys lab' xs'
        (nth_page 4 ∷ nth_page 3 ∷ nth_page 2 ∷ nth_page 0 ∷ [])
        (add_root (λ r. r == root) (nth_page 1))
        (new_space (pte_at linked_memory) (nth_page 1) (nth_page 3) (nth_page 0) 0x8000_4000)
    × Created new_kernel k' 4 (nth_page 0) (nth_page 1) (nth_page 2) (nth_page 4) []
    × (6 ≤ length xs' + 6)
alloc_process-Built_example =
    alloc_process-Built new_kernel 4 (nth_page 0) (nth_page 1) (nth_page 2) (nth_page 3)
      (nth_page 4) last_pages linked-Built (omega arith) (omega arith) (omega arith) refl
      (omega arith) (omega arith) fourth_free
