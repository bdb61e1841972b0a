-- ===== src/Vmm/Built.antt =====
-- Address spaces while one is being built: some pages are taken from the free list for other ends than
-- page tables, and memory in them changes.
use mypkecode.Base.{
  lt→leb, ℕ, ◌+◌, ◌*◌, ◌/◌, ◌%◌, ◌^◌, ◌≤◌, ◌<◌, ◌≡◌, ◌≢◌, refl, ◌∙◌, ap, Bool, true, false, Option,
  none, some, List, ◌∷◌, has, length, ◌==◌, ◌&&◌, ◌||◌, arith, ok, if◌then◌else◌, Bool-cases, inl,
  inr,
}
use mypkecode.Base.Words.{has_bit}
use mypkecode.Phys.{pgsize, Memory, Phys}
use mypkecode.Pmm.Pages.{taken, alloc_page-cons}
use mypkecode.Vmm.{lookup_pa, pte_v, px, entry, maxva, user_vm_map, pte2pa, leaf_pte}
use mypkecode.Vmm.Lookup.{pa_of, lookup_pa-pte_at}
use mypkecode.Vmm.Space.{Label, dir, Labels, pte_at, Space, SameBounds}
use mypkecode.Vmm.Spared.{with_memory, pte_at-spared, page-entry, page-Space}
use mypkecode.Vmm.User.{user_vm_map-Remaps}

-- The spaces are well formed, the pages of `own` hold no tables and are not free, and the entries of the
-- spaces named by `roots` are those of `f`.
pub record Built (s : Phys) (lab : Labels) (xs own : List ℕ) (roots : ℕ → Bool) (f : ℕ → ℕ → ℕ)
    : Type 0 where
  pub space : Space s lab xs
  pub owned :
      (p : ℕ)
      → has p own ≡ true
      → (lab p ≡ none) × (has p xs ≡ false) × (p % pgsize ≡ 0) × (pgsize ≤ p)
  pub rooted : (r : ℕ) → roots r ≡ true → lab r ≡ some (dir r)
  pub entries : (r va : ℕ) → va < maxva → roots r ≡ true → pte_at s.mem r va ≡ f r va

never : (b : Bool) → b ≡ true → ¬ (b ≡ false)
never b holds stays = absurd (cc)

none-label : (o : Option Label) (c : Label) → o ≡ some c → ¬ (o ≡ none)
none-label o c h h' = absurd (cc)

-- One page more is mapped.
abbrev pub mapped_over : (ℕ → ℕ → ℕ) → (r va pa perm : ℕ) → ℕ → ℕ → ℕ
mapped_over f r va pa perm r' va' =
    if (r' == r) && (va' / pgsize == va / pgsize) then leaf_pte pa perm else f r' va'

pub mapped_here :
    (f : ℕ → ℕ → ℕ) (r va pa perm va' : ℕ)
    → va' / pgsize ≡ va / pgsize
    → mapped_over f r va pa perm r va' ≡ leaf_pte pa perm
mapped_here f r va pa perm va' h =
    let here : (r == r) ≡ true = ground arith in
    let same : (va' / pgsize == va / pgsize) ≡ true = ground (arith, h) in rw (here, same) refl

-- A space that maps nothing.
abbrev pub empty_over : (ℕ → ℕ → ℕ) → ℕ → ℕ → ℕ → ℕ
empty_over f p r va = if r == p then 0 else f r va

abbrev pub add_root : (ℕ → Bool) → ℕ → ℕ → Bool
add_root roots p r = (r == p) || roots r

abbrev pub add_dir : Labels → ℕ → Labels
add_dir lab p q = if q == p then some (dir p) else lab q

module _ {s : Phys} {lab : Labels} {own : List ℕ} {roots : ℕ → Bool} {f : ℕ → ℕ → ℕ} where
  -- `alloc_page`
  pub taken-Built :
      {pa : ℕ} {xs : List ℕ}
      → Built s lab (pa ∷ xs) own roots f
      → Built (taken s) lab xs (pa ∷ own) roots f
  taken-Built {pa} {xs} b =
      let sp = b.space in
      record {
        space = record {
          pool = (alloc_page-cons sp.pool).1;
          free = λ p h. sp.free p (ground arith);
          page = sp.page;
          dirs = sp.dirs;
          tables = sp.tables;
        };
        owned = λ p h. elim (Bool-cases (pa == p)) [
          | inl e ↦
              let e' : p ≡ pa = ground (arith, e) in
              let c = sp.pool.chain in
              rw e' (sp.free pa (ground arith), c.4, c.1, omega (arith, c.2, sp.pool.above_null))
          | inr e ↦ ground (arith, e, b.owned p)
        ];
        rooted = b.rooted;
        entries = b.entries;
      }

  -- A change of memory within a page of `own`.
  pub changed-Built :
      {xs : List ℕ} (m' : Memory) (p : ℕ)
      → Built s lab xs own roots f
      → has p own ≡ true
      → ((b : ℕ) → b / pgsize * pgsize ≢ p → m' b ≡ s.mem b)
      → Built (with_memory s m') lab xs own roots f
  changed-Built m' p b mine within =
      let o = b.owned p mine in
      record {
        space = page-Space b.space m' p within o.0 o.1;
        owned = b.owned;
        rooted = b.rooted;
        entries = λ r va h at.
            pte_at-spared b.space m' (page-entry b.space m' p within o.0 o.1) r va (b.rooted r at)
            ∙ b.entries r va h at;
      }

  -- A mapping of one page.
  pub mapped-Built :
      {xs : List ℕ} (r va pa perm : ℕ)
      → Built s lab xs own roots f
      → roots r ≡ true
      → va % pgsize ≡ 0
      → va + pgsize ≤ maxva
      → pa < 2 ^ 61
      → 2 ≤ length xs
      → has_bit (f r va) pte_v ≡ false
      → (s' : Phys) × (lab' : Labels) × (xs' : List ℕ) × (user_vm_map r va pgsize pa perm s
          ≡ ok tt s')
        × Built s' lab' xs' own roots (mapped_over f r va pa perm)
        × (length xs ≤ length xs' + 2)
        × ((a : ℕ) → has (a / pgsize * pgsize) own ≡ true → s'.mem a ≡ s.mem a)
        × SameBounds s s'
  mapped-Built {xs} r va pa perm b at al small low enough fresh =
      let unmapped : has_bit (pte_at s.mem r va) pte_v ≡ false =
        rw (b.entries r va (omega (arith, small)) at) fresh in
      let (s', lab', xs', run, m, u) =
        user_vm_map-Remaps b.space r va pa perm (b.rooted r at) al small low enough unmapped in
      (
        s',
        lab',
        xs',
        run,
        record {
          space = m.space;
          owned = λ p h. let o = b.owned p h in let a = m.apart p o.0 o.1 in (a.0, a.1, o.2, o.3);
          rooted = λ r' h. m.extends r' _ (b.rooted r' h);
          entries = λ r' va' h at'.
              m.entries r' va' h (b.rooted r' at')
              ∙ ap
                  (λ (e : ℕ).
                    if (r' == r) && (va' / pgsize == va / pgsize) then leaf_pte pa perm else e)
                  (b.entries r' va' h at');
        },
        u,
        λ a h. let o = b.owned (a / pgsize * pgsize) h in m.frame a o.0 o.1,
        m.bounds,
      )

  -- A page of zeros becomes the directory of a space.
  module _ {xs : List ℕ} (p : ℕ) (b : Built s lab xs (p ∷ own) roots f) (once : has p own ≡ false)
      (zeros : (a : ℕ) → a / pgsize * pgsize ≡ p → s.mem a ≡ 0) where
    new_page : (lab p ≡ none) × (has p xs ≡ false) × (p % pgsize ≡ 0) × (pgsize ≤ p)
    new_page = b.owned p (ground arith)

    no_entry : (i : ℕ) → i < 512 → s.mem (entry p i) ≡ 0
    no_entry i lt = let o = new_page in zeros (entry p i) (omega (arith, o.2, lt))

    empty-pte_at : (va : ℕ) → pte_at s.mem p va ≡ 0
    unfolding pte_at
    empty-pte_at va = rw (no_entry (px 2 va) (omega arith)) refl

    new_dir-Space : Space s (add_dir lab p) xs
    new_dir-Space = record {
      pool = b.space.pool;
      free = λ q h. elim (Bool-cases (q == p)) [
        | inl e ↦
            let e' : q ≡ p = ground (arith, e) in absurd (never (has p xs) (rw e' at h) new_page.1)
        | inr e ↦ rw e (b.space.free q h)
      ];
      page = λ q l h. elim (Bool-cases (q == p)) [
        | inl e ↦ let e' : q ≡ p = ground (arith, e) in let o = new_page in rw e' (o.2, o.3)
        | inr e ↦ b.space.page q l (rw e at h)
      ];
      dirs = λ q r h. elim (Bool-cases (q == p)) [
        | inl e ↦
            let e' : q ≡ p = ground (arith, e) in
            let h' : some (dir p) ≡ some (dir r) = rw e at h in cc
        | inr e ↦ b.space.dirs q r (rw e at h)
      ];
      tables = λ q i l c h ch lt v. elim (Bool-cases (q == p)) [
        | inl e ↦
            let e' : q ≡ p = ground (arith, e) in
            let v' : has_bit (s.mem (entry p i)) pte_v ≡ true = rw e' at v in
            absurd (ground (arith, v', no_entry i lt))
        | inr e ↦
            let old = b.space.tables q i l c (rw e at h) ch lt v in
            elim (Bool-cases (pte2pa (s.mem (entry q i)) == p)) [
              | inl e2 ↦
                  let e3 : pte2pa (s.mem (entry q i)) ≡ p = ground (arith, e2) in
                  absurd (none-label (lab p) c (rw e3 at old) new_page.0)
              | inr e2 ↦ rw e2 old
            ]
      ];
    }

    pub new_dir-Built : Built s (add_dir lab p) xs own (add_root roots p) (empty_over f p)
    new_dir-Built = record {
      space = new_dir-Space;
      owned = λ q h.
          let o = b.owned q (ground (arith, h)) in
          elim (Bool-cases (q == p)) [
            | inl e ↦
                let e' : q ≡ p = ground (arith, e) in absurd (never (has p own) (rw e' at h) once)
            | inr e ↦ (rw e o.0, o.1, o.2, o.3)
          ];
      rooted = λ r h. elim (Bool-cases (r == p)) [
        | inl e ↦
            let e' : r ≡ p = ground (arith, e) in
            let here : (p == p) ≡ true = ground arith in rw e' (rw here refl)
        | inr e ↦ rw e (b.rooted r (rw e at h))
      ];
      entries = λ r va h at. elim (Bool-cases (r == p)) [
        | inl e ↦
            let e' : r ≡ p = ground (arith, e) in
            let here : (p == p) ≡ true = ground arith in rw e' (rw here (empty-pte_at va))
        | inr e ↦ rw e (b.entries r va h (rw e at at))
      ];
    }

-- `lookup_pa` reads the entries.
pub lookup_pa-entry :
    {s : Phys} {lab : Labels} {xs own : List ℕ} {roots : ℕ → Bool} {f : ℕ → ℕ → ℕ}
    → Built s lab xs own roots f
    → (r va : ℕ) → roots r ≡ true
    → va < maxva
    → lookup_pa r va s ≡ ok (pa_of (f r va)) s
lookup_pa-entry {s} {f = f} b r va at lt =
    let e : pte_at s.mem r va ≡ f r va = b.entries r va lt at in
    lookup_pa-pte_at b.space r va (b.rooted r at) ∙ rw (lt→leb maxva va lt, e) refl
