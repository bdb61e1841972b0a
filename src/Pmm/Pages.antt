-- ===== src/Pmm/Pages.antt =====
-- What `free_page` and `alloc_page` of kernel/pmm.c do to the list of free pages.
use mypkecode.Base.{ℕ, ◌≤◌, ◌≡◌, refl, true, false, List, [], ◌∷◌, arith}
use mypkecode.Base.{has, ap, ◌∙◌, ok, panic}
use mypkecode.Phys.{pgsize, Phys, write, load, store}
use mypkecode.Phys.Laws.{write_self}
use mypkecode.Pmm.{rejected, free_page, alloc_page, set_free_list}
use mypkecode.Pmm.Chain.{FreeList, IsChain-write}

abbrev pub freed : Phys → ℕ → Phys
freed s pa = record s { mem = write s.mem pa s.free_list; free_list = pa }

abbrev pub taken : Phys → Phys
taken s = record s { free_list = s.mem s.free_list }

module _ {s : Phys} {xs : List ℕ} (fl : FreeList s xs) where
  pub accepted-ge : (pa : ℕ) → rejected s pa ≡ false → pgsize ≤ pa
  accepted-ge pa h = ground (arith, fl.above_null)

  -- `free_page` of a page that passes its guard and is not free makes it the head of the free
  -- list; nothing else of memory changes but its first word.
  pub free_page-cons :
      (pa : ℕ)
      → rejected s pa ≡ false
      → has pa xs ≡ false
      → (free_page pa s ≡ ok tt (freed s pa)) × FreeList (freed s pa) (pa ∷ xs)
  unfolding free_page set_free_list store
  free_page-cons pa h out = (
    ground (arith, accepted-ge pa h),
    record {
      above_null = fl.above_null;
      fits = fl.fits;
      chain = (
        refl,
        ground arith,
        ground arith,
        ground arith,
        out,
        rw (write_self s.mem pa s.free_list)
            (IsChain-write s.mem _ _ s.free_list xs pa s.free_list fl.chain out),
      );
    },
  )

-- A page that passes the guard is put first, free already or not.
pub free_page-accepted :
    (s : Phys) (pa : ℕ)
    → pgsize ≤ s.free_mem_start_addr
    → rejected s pa ≡ false
    → free_page pa s ≡ ok tt (freed s pa)
unfolding free_page set_free_list store
free_page-accepted s pa above h = ground arith

-- A page that fails the guard stops the kernel.
pub free_page-panic : (s : Phys) (pa : ℕ) → rejected s pa ≡ true → free_page pa s ≡ panic
unfolding free_page
free_page-panic s pa h = rw h

pub alloc_page-nil : {s : Phys} → FreeList s [] → alloc_page s ≡ ok 0 s
unfolding alloc_page
alloc_page-nil {s} fl = let e : s.free_list ≡ 0 = fl.chain in ground arith

-- With a free list that is not empty `alloc_page` returns its first page, which leaves the list,
-- and does not write memory.
pub alloc_page-cons :
    {s : Phys} {x : ℕ} {xs : List ℕ}
    → FreeList s (x ∷ xs)
    → (alloc_page s ≡ ok x (taken s)) × FreeList (taken s) xs
unfolding alloc_page load set_free_list
alloc_page-cons {s} {x} {xs} fl = (
  ground (arith, fl.above_null, fl.chain),
  record { above_null = fl.above_null; fits = fl.fits; chain = rw fl.chain.0 fl.chain.5 },
)

-- After `free_page` of a page that passes its guard and is not free, `alloc_page` returns that
-- page, and the list starts where it started before.
pub alloc_page-free_page :
    {s : Phys} {xs : List ℕ}
    → FreeList s xs
    → (pa : ℕ) → rejected s pa ≡ false
    → has pa xs ≡ false
    → (s' : Phys) × (free_page pa s ≡ ok tt s')
      × (alloc_page s' ≡ ok pa (record s' { free_list = s.free_list }))
alloc_page-free_page {s} {xs} fl pa h out =
    let (run, fl') = free_page-cons fl pa h out in
    (
      freed s pa,
      run,
      (alloc_page-cons fl').0
          ∙ ap (λ v. ok pa (record (freed s pa) { free_list = v }))
              (write_self s.mem pa s.free_list),
    )
