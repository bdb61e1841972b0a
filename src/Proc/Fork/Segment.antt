-- ===== src/Proc/Fork/Segment.antt =====
-- The whole loop of `do_fork` (kernel/process.c) over the pages of a data segment.
use mypkecode.Base.{
  ℕ, zero, suc, ◌+◌, ◌*◌, ◌/◌, ◌%◌, ◌^◌, ◌≤◌, ◌<◌, ◌≡◌, ◌≢◌, refl, ◌∙◌, Bool, true, false, ◌&&◌,
  ◌||◌, List, [], ◌∷◌, length, ◌==◌, arith, ok, ltb, leb, Bool-cases, inl, inr,
}
use mypkecode.Base.Words.{has_bit}
use mypkecode.Phys.{pgsize}
use mypkecode.Vmm.{pte_v}
use mypkecode.Vmm.Lookup.{pa_of}
use mypkecode.Proc.Fork.{copy_data}
use mypkecode.Proc.Fork.State.{
  Forking, Ready, Step, Step-widen, Step-refl, silent-Ready, silent-Step,
}
use mypkecode.Proc.Fork.Pages.{
  Copied, Source, still_fresh, Source-later, Copied-before, Copied-later,
}
use mypkecode.Proc.Fork.Data.{round}

-- The pages from `first` on, `n` of them.
abbrev pub span : (first n v : ℕ) → Bool
span first n v = leb first v && ltb v (first + n)

first_of : (xs : List ℕ) → 1 ≤ length xs → (x : ℕ) × (ys : List ℕ) × (xs ≡ x ∷ ys)
first_of [] h = absurd (omega arith)
first_of (x ∷ ys) h = (x, ys, refl)

module _ (roots : ℕ → Bool) (p c ppt pinfo pt info : ℕ) (parent_root : roots ppt ≡ true)
    (child_root : roots pt ≡ true) (apart : p ≢ c) (roots_apart : ppt ≢ pt)
    (infos_apart : pinfo ≢ info) (total i start : ℕ) (small : total ≤ 256) (i_small : i < 256)
    (al : start % pgsize ≡ 0) where
  other_page :
      (j x : ℕ)
      → suc j ≤ x
      → ((start + pgsize * x) / pgsize == (start + pgsize * j) / pgsize) ≡ false
  other_page j x ge = ground (arith, ge)

  wider :
      (j n v : ℕ)
      → span (start / pgsize + j) (suc n) v ≡ false
      → ((v == (start + pgsize * j) / pgsize) || span (start / pgsize + suc j) n v) ≡ false
  wider j n v h =
      let e : (start + pgsize * j) / pgsize ≡ start / pgsize + j = omega (arith, al) in
      rw e (ground (arith, h))

  past : (j n : ℕ) → span (start / pgsize + suc j) n ((start + pgsize * j) / pgsize) ≡ false
  past j n =
      let e : (start + pgsize * j) / pgsize ≡ start / pgsize + j = omega (arith, al) in
      rw e (ground arith)

  pub copy_data-Step :
      (n j : ℕ) (s : Forking)
      → Ready roots p c ppt pinfo pt info s total
      → s.k.phys.mem (pinfo + 16 * i) ≡ start
      → start + pgsize * (j + n) ≤ 2 ^ 31
      → ((x : ℕ)
          → j ≤ x
          → x < j + n
          → Source roots p c ppt pinfo pt info s (start + pgsize * x)
            × (has_bit (s.f pt (start + pgsize * x)) pte_v ≡ false))
      → 3 * n ≤ length s.xs
      → (t : Forking) × (copy_data n j p c i s.k ≡ ok tt t.k)
        × Step roots p c ppt pinfo pt info s t (span (start / pgsize + j) n) [] total (3 * n)
        × ((x : ℕ)
            → j ≤ x
            → x < j + n
            → Copied roots p c ppt pinfo pt info s t (start + pgsize * x))
  unfolding copy_data
  copy_data-Step zero j s r noted low can enough = (
    s,
    refl,
    Step-refl roots p c ppt pinfo pt info (span (start / pgsize + j) 0) r,
    λ x ge lt. absurd (omega (arith, ge, lt)),
  )
  copy_data-Step (suc n) j s r noted low can enough =
      let (pa, ys, head) = first_of s.xs (omega (arith, enough)) in
      let (src, fresh) = can j (omega arith) (omega arith) in
      let (t, run, st, done) =
        round roots p c ppt pinfo pt info parent_root child_root s total i j start pa ys r small
          i_small head noted (omega (arith, low)) al src.held fresh (omega (arith, enough)) in
      let r' = silent-Ready roots p c ppt pinfo pt info apart r st in
      let o = r.built.owned pinfo r.theirs in
      let page : (pinfo + 16 * i) / pgsize * pgsize ≡ pinfo = omega (arith, o.2, i_small) in
      let noted' = st.kept (pinfo + 16 * i) (rw page r.theirs) (rw page infos_apart) ∙ noted in
      let other = λ (x : ℕ) (ge : suc j ≤ x). other_page j x ge in
      let (u, run', st', later) =
        copy_data-Step n (suc j) t r' noted' (omega (arith, low))
          (λ x ge lt.
            let (src', fresh') = can x (omega (arith, ge)) (omega (arith, lt)) in
            (
              Source-later roots p c ppt pinfo pt info st roots_apart src',
              still_fresh roots p c ppt pinfo pt info st (start + pgsize * x) (other x ge) fresh',
            ))
          (omega (arith, enough, st.enough)) in
      (
        u,
        run n ∙ run',
        Step-widen roots p c ppt pinfo pt info (silent-Step roots p c ppt pinfo pt info st st')
            (λ v h. wider j n v h) (omega arith),
        λ x ge lt. elim (Bool-cases (x == j)) [
          | inl e ↦
              let here : x ≡ j = ground (arith, e) in
              rw here (
                Copied-later roots p c ppt pinfo pt info st' r.mine (past j n)
                  (λ q h. (r'.built.owned q h).2) done)
          | inr e ↦
              let (src', fresh') = can x ge lt in
              Copied-before roots p c ppt pinfo pt info st roots_apart
                (r.built.owned (pa_of (s.f ppt (start + pgsize * x))) src'.held).2 src'
                (later x (ground (arith, ge)) (omega (arith, lt)))
        ],
      )
