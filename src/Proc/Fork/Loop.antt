-- ===== src/Proc/Fork/Loop.antt =====
-- The loop of `do_fork` (kernel/process.c) over the loaded segments of the parent.
use mypkecode.Base.{
  ℕ, suc, ◌+◌, ◌*◌, ◌/◌, ◌≤◌, ◌<◌, ◌≡◌, ◌≢◌, refl, ap, Bool, true, false, List, [], ◌∷◌, length,
  arith, ok, Bool-cases, inl, inr,
}
use mypkecode.Phys.{pgsize}
use mypkecode.Proc.Created.{HoldsRegions, HoldsRegions-same}
use mypkecode.Proc.Fork.{fork_region, fork_regions}
use mypkecode.Proc.Fork.State.{Forking, Ready, Step, Step-Ready, Step-Step, Step-refl}
use mypkecode.Proc.Fork.Regions.{
  Segment, code_at, data_at, region_of, regions_of, noted_of, noted_of_all, covers, covers_any,
  Apart, pages_for, pages_for_all, Forkable, AllForkable, Forked, AllForked, AllForkable-later,
  AllForked-before, Forked-later,
}
use mypkecode.Proc.Fork.Cases.{fork_region-code, fork_region-data}

noted_length : (g : Segment) → length (noted_of g) ≤ 1
noted_length (code_at va n) = omega arith
noted_length (data_at va n) = omega arith

pub length-regions_of : (gs : List Segment) → length (regions_of gs) ≡ length gs
length-regions_of [] = refl
length-regions_of (g ∷ gs) = omega (arith, length-regions_of gs)

swapped :
    (g : Segment) (gs : List Segment)
    → ((v : ℕ) → covers_any gs v ≡ true → covers g v ≡ false)
    → (v : ℕ) → covers g v ≡ true
    → covers_any gs v ≡ false
swapped g gs h v e = elim (Bool-cases (covers_any gs v)) [
  | inl y ↦ absurd (cc (h v y, e))
  | inr n ↦ n
]

module _ (roots : ℕ → Bool) (p c ppt pinfo pt info : ℕ) (parent_root : roots ppt ≡ true)
    (child_root : roots pt ≡ true) (apart : p ≢ c) (roots_apart : ppt ≢ pt)
    (infos_apart : pinfo ≢ info) where
  one :
      (g : Segment) (s : Forking) (total i : ℕ)
      → Ready roots p c ppt pinfo pt info s total
      → total ≤ i
      → i < 256
      → Forkable roots p c ppt pinfo pt info s g
      → HoldsRegions s.k.phys.mem pinfo i (region_of g ∷ [])
      → pages_for g ≤ length s.xs
      → (t : Forking) × (fork_region p c i s.k ≡ ok tt t.k)
        × Step roots p c ppt pinfo pt info s t (covers g) (noted_of g) total (pages_for g)
        × Forked roots p c ppt pinfo pt info s t g
  one (code_at va n) s total i r le lt can words enough =
      fork_region-code roots p c ppt pinfo pt info parent_root child_root apart roots_apart
        infos_apart s total i r (omega (arith, le, lt)) lt le va n can words.0 words.1 enough
  one (data_at va n) s total i r le lt can words enough =
      fork_region-data roots p c ppt pinfo pt info parent_root child_root apart roots_apart
        infos_apart s total i r (omega (arith, le, lt)) lt le va n can words.0 words.1 enough

  pub fork_regions-Step :
      (gs : List Segment) (s : Forking) (total i : ℕ)
      → Ready roots p c ppt pinfo pt info s total
      → total ≤ i
      → i + length gs ≤ 256
      → AllForkable roots p c ppt pinfo pt info s gs
      → Apart gs
      → HoldsRegions s.k.phys.mem pinfo i (regions_of gs)
      → pages_for_all gs ≤ length s.xs
      → (t : Forking) × (fork_regions (length gs) i p c s.k ≡ ok tt t.k)
        × Step roots p c ppt pinfo pt info s t
            (covers_any gs)
            (noted_of_all gs)
            total
            (pages_for_all gs)
        × AllForked roots p c ppt pinfo pt info s t gs
  unfolding fork_regions
  fork_regions-Step [] s total i r le lt can ap words enough =
      (s, refl, Step-refl roots p c ppt pinfo pt info (λ v. false) r, tt)
  fork_regions-Step (g ∷ gs) s total i r le lt can split words enough =
      let (t, run, st, done) =
        one g s total i r le (omega (arith, lt)) can.0 (words.0, words.1, tt)
          (omega (arith, enough)) in
      let o = r.built.owned pinfo r.theirs in
      let r' = Step-Ready roots p c ppt pinfo pt info apart r st in
      let words' =
        HoldsRegions-same s.k.phys.mem t.k.phys.mem pinfo (i + 1) (regions_of gs)
          (λ a ge small.
            let page : a / pgsize * pgsize ≡ pinfo =
              omega (arith, o.2, ge, small, lt, length-regions_of gs) in
            st.kept a (rw page r.theirs) (rw page infos_apart))
          words.2 in
      let next : suc i ≡ i + 1 = omega arith in
      let (u, run', st', later) =
        fork_regions-Step gs t (total + length (noted_of g)) (i + 1) r'
          (omega (arith, le, noted_length g)) (omega (arith, lt))
          (AllForkable-later roots p c ppt pinfo pt info st roots_apart gs split.0 can.1) split.1
          words' (omega (arith, enough, st.enough)) in
      (
        u,
        rw (run, next) run',
        Step-Step roots p c ppt pinfo pt info st st',
        (
          Forked-later roots p c ppt pinfo pt info st' roots_apart s g r.mine (swapped g gs split.0)
              (λ q h. (r'.built.owned q h).2) done,
          AllForked-before roots p c ppt pinfo pt info st roots_apart u gs
              (λ q h. (r.built.owned q h).2) can.1 later,
        ),
      )
