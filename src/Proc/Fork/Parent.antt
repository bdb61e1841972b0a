-- ===== src/Proc/Fork/Parent.antt =====
-- What `do_fork` (kernel/process.c) finds in the parent.
use mypkecode.Base.{
  ℕ, ◌+◌, ◌-◌, ◌*◌, ◌/◌, ◌%◌, ◌^◌, ◌≤◌, ◌<◌, ◌≡◌, ◌≢◌, refl, Bool, true, false, ◌&&◌, List, [], ◌∷◌,
  ◌++◌, has, length, ◌==◌, arith,
}
use mypkecode.Base.Words.{has_bit}
use mypkecode.Phys.{pgsize}
use mypkecode.Vmm.{leaf_pte, prot_to_type}
use mypkecode.Vmm.Lookup.{pa_of}
use mypkecode.Vmm.Perm.{leaf_pte_fields}
use mypkecode.Vmm.Built.{mapped_over}
use mypkecode.Kernel.{Kernel}
use mypkecode.Proc.{user_stack_top}
use mypkecode.Proc.Mappings.{stack_perm, new_space}
use mypkecode.Proc.Created.{HoldsRegions, first_regions}
use mypkecode.Proc.Fork.Regions.{Segment, code_at, data_at, regions_of, Apart}

-- The pages of a segment lie below the stack's, and those of data are pages that the parent owns.
abbrev pub Loaded : (own : List ℕ) → (e : ℕ → ℕ) → Segment → Type 0
Loaded own e (code_at va n) =
    (n < 2 ^ 32) × (va / pgsize * pgsize + 2 * pgsize ≤ user_stack_top) × (pa_of (e va) < 2 ^ 61)
Loaded own e (data_at va n) =
    (va % pgsize ≡ 0)
    × (va + pgsize * n + pgsize ≤ user_stack_top)
    × ((x : ℕ) → x < n → has (pa_of (e (va + pgsize * x))) own ≡ true)

abbrev pub AllLoaded : (own : List ℕ) → (e : ℕ → ℕ) → List Segment → Type 0
AllLoaded own e [] = Unit {0}
AllLoaded own e (g ∷ gs) = Loaded own e g × AllLoaded own e gs

-- Process `p` has a space, and owns its table of regions, its trapframe and its stack's page; the
-- table holds the three regions of every process and the segments `gs`, which share no page.
pub record IsParent (k : Kernel) (p : ℕ) (own : List ℕ) (roots : ℕ → Bool) (f : ℕ → ℕ → ℕ)
    (gs : List Segment) : Type 0 where
  pub rooted : roots (k.procs p).pagetable ≡ true
  pub own_info : has (k.procs p).mapped_info own ≡ true
  pub own_frame : has (k.procs p).trapframe own ≡ true
  pub own_stack : has (pa_of (f (k.procs p).pagetable (user_stack_top - pgsize))) own ≡ true
  pub total : (k.procs p).total_mapped_region ≡ 3 + length gs
  pub room : 3 + length gs ≤ 256
  pub table :
      HoldsRegions k.phys.mem
        (k.procs p).mapped_info
        0
        (first_regions (k.procs p).trapframe k.trap_sec_start ++ regions_of gs)
  pub loaded : AllLoaded own (f (k.procs p).pagetable) gs
  pub apart : Apart gs

pub pa_of-leaf_pte : (pa : ℕ) → pa % pgsize ≡ 0 → pa < 2 ^ 63 → pa_of (leaf_pte pa stack_perm) ≡ pa
unfolding prot_to_type
pa_of-leaf_pte pa al lt =
    let (valid, to, readable, w, x, u) = leaf_pte_fields pa stack_perm (omega arith) lt in
    let readable' : has_bit (leaf_pte pa stack_perm) 1 ≡ true = readable in
    rw (valid, readable', to) (omega (arith, al))

over_skips :
    (f : ℕ → ℕ → ℕ) (r va pa perm r' va' : ℕ)
    → ((r' == r) && (va' / pgsize == va / pgsize)) ≡ false
    → mapped_over f r va pa perm r' va' ≡ f r' va'
over_skips f r va pa perm r' va' h = rw h refl

module _ (f : ℕ → ℕ → ℕ) (pt us tf trap : ℕ) where
  pub new_space-other : (r va : ℕ) → r ≢ pt → new_space f pt us tf trap r va ≡ f r va
  new_space-other r va h = let e : (r == pt) ≡ false = ground (arith, h) in rw e refl

  module _ (tf_ge : user_stack_top ≤ tf) (trap_ge : user_stack_top ≤ trap) where
    pub new_space-stack :
        new_space f pt us tf trap pt (user_stack_top - pgsize) ≡ leaf_pte us stack_perm
    new_space-stack =
        let here : (pt == pt) ≡ true = ground arith in
        let a : ((user_stack_top - pgsize) / pgsize == trap / pgsize) ≡ false =
          ground (arith, trap_ge) in
        let b : ((user_stack_top - pgsize) / pgsize == tf / pgsize) ≡ false =
          ground (arith, tf_ge) in
        rw (here, a, b) refl

    pub new_space-low :
        (va : ℕ)
        → va / pgsize * pgsize + 2 * pgsize ≤ user_stack_top
        → new_space f pt us tf trap pt va ≡ 0
    new_space-low va low =
        let here : (pt == pt) ≡ true = ground arith in
        let a : (va / pgsize == trap / pgsize) ≡ false = ground (arith, trap_ge, low) in
        let b : (va / pgsize == tf / pgsize) ≡ false = ground (arith, tf_ge, low) in
        let d : (va / pgsize == (user_stack_top - pgsize) / pgsize) ≡ false = ground (arith, low) in
        rw (here, a, b, d) refl
