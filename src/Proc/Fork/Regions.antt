-- ===== src/Proc/Fork/Regions.antt =====
-- The loaded segments of a process as a list, and what `do_fork` (kernel/process.c) makes of them.
use mypkecode.Base.{
  ℕ, ◌+◌, ◌*◌, ◌/◌, ◌%◌, ◌^◌, ◌≤◌, ◌<◌, ◌≡◌, ◌≢◌, ◌∙◌, ap, Bool, true, false, ◌||◌, List, [], ◌∷◌,
  ◌++◌, has, ◌==◌, arith,
}
use mypkecode.Base.Words.{has_bit}
use mypkecode.Phys.{pgsize}
use mypkecode.Vmm.{pte_v, maxva, leaf_pte}
use mypkecode.Vmm.Lookup.{pa_of}
use mypkecode.Proc.{code_segment, data_segment}
use mypkecode.Proc.Fork.State.{Forking, Step}
use mypkecode.Proc.Fork.Pages.{
  Copied, Shared, Source, code_perm, parent_entry, child_entry, still_fresh, Source-later,
  Copied-before, Copied-later,
}
use mypkecode.Proc.Fork.Segment.{span}

-- A region of code or of data from `va` on, with its number of pages.
pub data Segment : Type 0 where
  code_at : (va n : ℕ) → Segment
  data_at : (va n : ℕ) → Segment

abbrev pub region_of : Segment → ℕ × ℕ × ℕ
region_of (code_at va n) = (va, n, code_segment)
region_of (data_at va n) = (va, n, data_segment)

abbrev pub regions_of : List Segment → List (ℕ × ℕ × ℕ)
regions_of [] = []
regions_of (g ∷ gs) = region_of g ∷ regions_of gs

-- The regions that the child's table gets: those of code.
abbrev pub noted_of : Segment → List (ℕ × ℕ × ℕ)
noted_of (code_at va n) = (va, n, code_segment) ∷ []
noted_of (data_at va n) = []

abbrev pub noted_of_all : List Segment → List (ℕ × ℕ × ℕ)
noted_of_all [] = []
noted_of_all (g ∷ gs) = noted_of g ++ noted_of_all gs

-- The pages that are mapped for a segment: the first one of code, all of data.
abbrev pub covers : Segment → ℕ → Bool
covers (code_at va n) v = v == va / pgsize
covers (data_at va n) v = span (va / pgsize) n v

abbrev pub covers_any : List Segment → ℕ → Bool
covers_any [] v = false
covers_any (g ∷ gs) v = covers g v || covers_any gs v

-- No page is mapped twice.
abbrev pub Apart : List Segment → Type 0
Apart [] = Unit {0}
Apart (g ∷ gs) = ((v : ℕ) → covers_any gs v ≡ true → covers g v ≡ false) × Apart gs

-- Free pages that are enough for a segment.
abbrev pub pages_for : Segment → ℕ
pages_for (code_at va n) = 2
pages_for (data_at va n) = 3 * n

abbrev pub pages_for_all : List Segment → ℕ
pages_for_all [] = 0
pages_for_all (g ∷ gs) = pages_for g + pages_for_all gs

module _ (roots : ℕ → Bool) (p c ppt pinfo pt info : ℕ) where
  -- The segment lies below the bounds of its kind, the parent has its pages, and the child has none there.
  abbrev pub Forkable : Forking → Segment → Type 0
  Forkable s (code_at va n) =
      (n < 2 ^ 32)
      × (va + pgsize ≤ maxva)
      × (pa_of (s.f ppt va) < 2 ^ 61)
      × (has_bit (s.f pt (va / pgsize * pgsize)) pte_v ≡ false)
  Forkable s (data_at va n) =
      (va % pgsize ≡ 0)
      × (va + pgsize * n ≤ 2 ^ 31)
      × ((x : ℕ)
          → x < n
          → Source roots p c ppt pinfo pt info s (va + pgsize * x)
            × (has_bit (s.f pt (va + pgsize * x)) pte_v ≡ false))

  abbrev pub AllForkable : Forking → List Segment → Type 0
  AllForkable s [] = Unit {0}
  AllForkable s (g ∷ gs) = Forkable s g × AllForkable s gs

  -- The child shares the code with the parent, and has a copy of each page of data.
  abbrev pub Forked : (s t : Forking) → Segment → Type 0
  Forked s t (code_at va n) = Shared roots p c ppt pinfo pt info s t va
  Forked s t (data_at va n) =
      (x : ℕ) → x < n → Copied roots p c ppt pinfo pt info s t (va + pgsize * x)

  abbrev pub AllForked : (s t : Forking) → List Segment → Type 0
  AllForked s t [] = Unit {0}
  AllForked s t (g ∷ gs) = Forked s t g × AllForked s t gs

  module _ {s t : Forking} {cov : ℕ → Bool} {rs : List (ℕ × ℕ × ℕ)} {total need : ℕ}
      (st : Step roots p c ppt pinfo pt info s t cov rs total need) (apart : ppt ≢ pt) where
    pub Forkable-later :
        (g : Segment) → ((v : ℕ) → covers g v ≡ true → cov v ≡ false) → Forkable s g → Forkable t g
    Forkable-later (code_at va n) out h =
        let e = parent_entry roots p c ppt pinfo pt info st apart va in
        (
          h.0,
          h.1,
          rw e h.2,
          still_fresh roots p c ppt pinfo pt info st (va / pgsize * pgsize)
              (out (va / pgsize * pgsize / pgsize) (ground arith)) h.3,
        )
    Forkable-later (data_at va n) out h = (
      h.0,
      h.1,
      λ x lt.
          let (src, fresh) = h.2 x lt in
          (
            Source-later roots p c ppt pinfo pt info st apart src,
            still_fresh roots p c ppt pinfo pt info st (va + pgsize * x)
                (out ((va + pgsize * x) / pgsize) (ground (arith, lt))) fresh,
          ),
    )

    pub AllForkable-later :
        (gs : List Segment)
        → ((v : ℕ) → covers_any gs v ≡ true → cov v ≡ false)
        → AllForkable s gs
        → AllForkable t gs
    AllForkable-later [] out h = tt
    AllForkable-later (g ∷ gs) out h = (
      Forkable-later g (λ v e. out v (ground (arith, e))) h.0,
      AllForkable-later gs (λ v e. out v (ground (arith, e))) h.1,
    )

    pub Forked-before :
        (u : Forking) (g : Segment)
        → ((q : ℕ) → has q s.own ≡ true → q % pgsize ≡ 0)
        → Forkable s g
        → Forked t u g
        → Forked s u g
    Forked-before u (code_at va n) al can h =
        h
        ∙ ap (λ e. leaf_pte (pa_of e) code_perm)
            (parent_entry roots p c ppt pinfo pt info st apart va)
    Forked-before u (data_at va n) al can h = λ x lt.
        let src = (can.2 x lt).0 in
        Copied-before roots p c ppt pinfo pt info st apart
          (al (pa_of (s.f ppt (va + pgsize * x))) src.held) src (h x lt)

    pub AllForked-before :
        (u : Forking) (gs : List Segment)
        → ((q : ℕ) → has q s.own ≡ true → q % pgsize ≡ 0)
        → AllForkable s gs
        → AllForked t u gs
        → AllForked s u gs
    AllForked-before u [] al can h = tt
    AllForked-before u (g ∷ gs) al can h =
        (Forked-before u g al can.0 h.0, AllForked-before u gs al can.1 h.1)

    pub Forked-later :
        (s0 : Forking) (g : Segment)
        → has info s0.own ≡ true
        → ((v : ℕ) → covers g v ≡ true → cov v ≡ false)
        → ((q : ℕ) → has q s.own ≡ true → q % pgsize ≡ 0)
        → Forked s0 s g
        → Forked s0 t g
    Forked-later s0 (code_at va n) mine out al h =
        child_entry roots p c ppt pinfo pt info st va (out (va / pgsize) (ground arith)) ∙ h
    Forked-later s0 (data_at va n) mine out al h = λ x lt.
        Copied-later roots p c ppt pinfo pt info st mine
          (out ((va + pgsize * x) / pgsize) (ground (arith, lt))) al (h x lt)
