-- ===== src/Pmm/Chain.antt =====
-- The list of free pages as a list: the abstract view of `g_free_mem_list` (kernel/pmm.c).
use mypkecode.Base.{ℕ, ◌%◌, ◌^◌, ◌≤◌, ◌<◌, ◌≡◌, true, false, List, [], ◌∷◌, arith, has}
use mypkecode.Phys.{pgsize, Memory, Phys, write}

-- From `h` the first words of the pages lead through the distinct pages `xs`, which are aligned and
-- lie between `lo` and `hi`, to NULL.
abbrev pub IsChain : Memory → (lo hi : ℕ) → ℕ → List ℕ → Type 0
IsChain m lo hi h [] = h ≡ 0
IsChain m lo hi h (x ∷ xs) =
    (h ≡ x) × (x % pgsize ≡ 0) × (lo ≤ x) × (x < hi) × (has x xs ≡ false) × IsChain m lo hi (m x) xs

-- The pages of `xs` are free, in this order. No page of the pool is the NULL page.
pub record FreeList (s : Phys) (xs : List ℕ) : Type 0 where
  pub above_null : pgsize ≤ s.free_mem_start_addr
  pub fits : s.free_mem_end_addr ≤ 2 ^ 63
  pub chain : IsChain s.mem s.free_mem_start_addr s.free_mem_end_addr s.free_list xs

-- A chain survives any change of memory that spares the first words of its pages.
pub IsChain-frame :
    (m m' : Memory) (lo hi h : ℕ) (xs : List ℕ)
    → IsChain m lo hi h xs
    → ((x : ℕ) → has x xs ≡ true → m' x ≡ m x)
    → IsChain m' lo hi h xs
IsChain-frame m m' lo hi h [] c same = c
IsChain-frame m m' lo hi h (x ∷ xs) c same = (
  c.0,
  c.1,
  c.2,
  c.3,
  c.4,
  IsChain-frame m m' lo hi (m' x) xs (rw (same x (ground arith)) c.5)
      (λ y i. same y (ground arith)),
)

-- A page of a chain is aligned and in range.
pub chain-range :
    (m : Memory) (lo hi h : ℕ) (xs : List ℕ)
    → IsChain m lo hi h xs
    → (x : ℕ) → has x xs ≡ true
    → (x % pgsize ≡ 0) × (lo ≤ x) × (x < hi)
chain-range m lo hi h [] c x i = cc
chain-range m lo hi h (y ∷ ys) c x i = ground (arith, chain-range m lo hi (m y) ys c.5 x)

pub IsChain-write :
    (m : Memory) (lo hi h : ℕ) (xs : List ℕ) (a v : ℕ)
    → IsChain m lo hi h xs
    → has a xs ≡ false
    → IsChain (write m a v) lo hi h xs
unfolding write
IsChain-write m lo hi h xs a v c out = IsChain-frame m _ lo hi h xs c (λ x i. ground arith)
