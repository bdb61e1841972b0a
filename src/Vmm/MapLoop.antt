-- ===== src/Vmm/MapLoop.antt =====
-- The loop of `map_pages` of kernel/vmm.c refines an update of the abstract map over a range.
use mypkecode.Base.{
  ℕ, ◌+◌, ◌-◌, ◌*◌, ◌/◌, ◌%◌, ◌≤◌, ◌<◌, ◌≡◌, ◌≢◌, refl, ◌∙◌, ap, sym, Bool, true, false, ◌&&◌, none,
  some, List, [], ◌==◌, has, length, if◌then◌else◌, arith, Run, ok, panic, leb, ltb,
}
use mypkecode.Base.Words.{has_bit}
use mypkecode.Phys.{pgsize, Memory, Phys}
use mypkecode.Phys.Laws.{write_ne}
use mypkecode.Vmm.{pte_v, px, entry, maxva, leaf_pte}
use mypkecode.Vmm.Space.{
  Label, dir, leaf, Labels, read, leaf_table, pte_at, Space, Grows, SameBounds,
}
use mypkecode.Vmm.Mapping.{stored, stored-Space, stored-pte_at}

-- The spaces after an operation that maps: labels are only added, pages that are neither tables nor
-- free are as before, and the entries are those of `f`.
pub record Remaps (s : Phys) (lab : Labels) (xs : List ℕ) (s' : Phys) (lab' : Labels) (xs' : List ℕ)
    (f : ℕ → ℕ → ℕ) : Type 0 where
  pub space : Space s' lab' xs'
  pub extends : (p : ℕ) (l : Label) → lab p ≡ some l → lab' p ≡ some l
  pub apart : (p : ℕ) → lab p ≡ none → has p xs ≡ false → (lab' p ≡ none) × (has p xs' ≡ false)
  pub frame :
      (b : ℕ)
      → lab (b / pgsize * pgsize) ≡ none
      → has (b / pgsize * pgsize) xs ≡ false
      → s'.mem b ≡ s.mem b
  pub entries : (r va : ℕ) → va < maxva → lab r ≡ some (dir r) → pte_at s'.mem r va ≡ f r va
  pub bounds : SameBounds s s'

abbrev pub in_range : (first end va : ℕ) → Bool
in_range first end va = leb first va && ltb va end

-- The abstract map with `[first, end)` of the space at `r` mapped to `pa` and on.
abbrev pub remap : Memory → (r first end pa perm : ℕ) → ℕ → ℕ → ℕ
remap m r first end pa perm r' va =
    if (r' == r) && in_range first end va
    then leaf_pte (pa + (va / pgsize * pgsize - first)) perm
    else pte_at m r' va

abbrev pub one : Memory → (r va v : ℕ) → ℕ → ℕ → ℕ
one m r va v r' va' = if (r' == r) && (va' / pgsize == va / pgsize) then v else pte_at m r' va'

module _ {s : Phys} {lab : Labels} {xs : List ℕ} (r va : ℕ) (at : lab r ≡ some (dir r))
    (hva : va < maxva) (p : ℕ) (s₁ : Phys) (lab₁ : Labels) (xs₁ : List ℕ)
    (g : Grows s lab xs s₁ lab₁ xs₁) (lp : lab₁ p ≡ some (leaf r (px 2 va) (px 1 va)))
    (lt : leaf_table s₁.mem r va ≡ some p) where
  pub store_one :
      (v : ℕ) → Remaps s lab xs (stored s₁ (entry p (px 0 va)) v) lab₁ xs₁ (one s.mem r va v)
  store_one v = record {
    space = stored-Space g.space p (px 0 va) v lp (omega arith);
    extends = g.extends;
    apart = g.apart;
    bounds = g.bounds;
    frame = λ b h k.
        let (h', k') = g.apart _ h k in
        let a = g.space.page p _ lp in
        let ne : b / pgsize * pgsize ≢ p = λ e. cc (ap lab₁ e, lp, h') in
        write_ne s₁.mem (entry p (px 0 va)) v b (λ e. ne (omega arith)) ∙ g.frame b h k;
    entries = λ r' va' hva' at'.
        let st =
          stored-pte_at g.space p (px 0 va) v lp (omega arith) va hva lt (g.extends r _ at) refl r'
            va' hva' (g.extends r' _ at') in
        st
        ∙ ap (λ (e : ℕ). if (r' == r) && (va' / pgsize == va / pgsize) then v else e)
            (g.same r' va' at');
  }

  -- The entry that the walk reached is the old abstract entry.
  pub entry_before : s₁.mem (entry p (px 0 va)) ≡ pte_at s.mem r va
  unfolding pte_at
  entry_before = sym (ap (λ o. read s₁.mem o (px 0 va)) lt) ∙ g.same r va at

pub data Mapped (s : Phys) (lab : Labels) (xs : List ℕ) (r first last pa perm : ℕ)
    (run : Run Phys Bool) : Type 0 where
  done :
      (s' : Phys) (lab' : Labels) (xs' : List ℕ)
      → run ≡ ok true s'
      → Remaps s lab xs s' lab' xs' (remap s.mem r first (last + pgsize) pa perm)
      → length xs ≤ length xs' + 2 * ((last + pgsize - first) / pgsize)
      → Mapped s lab xs r first last pa perm run
  full :
      (s' : Phys) (lab' : Labels) (end : ℕ)
      → run ≡ ok false s'
      → first ≤ end
      → end ≤ last
      → end % pgsize ≡ 0
      → Remaps s lab xs s' lab' [] (remap s.mem r first end pa perm)
      → length xs < 2 * ((last + pgsize - first) / pgsize)
      → Mapped s lab xs r first last pa perm run
  clash :
      (va : ℕ)
      → in_range first (last + pgsize) va ≡ true
      → has_bit (pte_at s.mem r va) pte_v ≡ true
      → run ≡ panic
      → Mapped s lab xs r first last pa perm run

pub Grows-Remaps :
    {s : Phys} {lab : Labels} {xs : List ℕ} {s' : Phys} {lab' : Labels} {xs' : List ℕ}
    (f : ℕ → ℕ → ℕ)
    → Grows s lab xs s' lab' xs'
    → ((r va : ℕ) → pte_at s.mem r va ≡ f r va)
    → Remaps s lab xs s' lab' xs' f
Grows-Remaps f g h = record {
  space = g.space;
  extends = g.extends;
  apart = g.apart;
  frame = g.frame;
  bounds = g.bounds;
  entries = λ r va hva at. g.same r va at ∙ h r va;
}

pub Remaps-trans :
    {s s' s'' : Phys} {lab lab' lab'' : Labels} {xs xs' xs'' : List ℕ} {f g : ℕ → ℕ → ℕ}
    (h : ℕ → ℕ → ℕ)
    → Remaps s lab xs s' lab' xs' f
    → Remaps s' lab' xs' s'' lab'' xs'' g
    → ((r va : ℕ)
        → va < maxva
        → lab r ≡ some (dir r)
        → pte_at s'.mem r va ≡ f r va
        → g r va ≡ h r va)
    → Remaps s lab xs s'' lab'' xs'' h
Remaps-trans h a b e = record {
  space = b.space;
  bounds = (b.bounds.0 ∙ a.bounds.0, b.bounds.1 ∙ a.bounds.1);
  extends = λ p l at. b.extends p l (a.extends p l at);
  apart = λ p at out. let (at', out') = a.apart p at out in b.apart p at' out';
  frame = λ x at out. let (at', out') = a.apart _ at out in b.frame x at' out' ∙ a.frame x at out;
  entries =
      λ r va hva at. b.entries r va hva (a.extends r _ at) ∙ e r va hva at (a.entries r va hva at);
}

-- The page at `first` and then the range behind it are the whole range.
pub remap_step :
    (m m' : Memory) (r first end pa perm r' va : ℕ)
    → first % pgsize ≡ 0
    → first < end
    → end % pgsize ≡ 0
    → pte_at m' r' va ≡ one m r first (leaf_pte pa perm) r' va
    → remap m' r (first + pgsize) end (pa + pgsize) perm r' va ≡ remap m r first end pa perm r' va
remap_step m m' r first end pa perm r' va al lt ale e = ground arith
