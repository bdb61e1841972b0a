-- ===== src/Proc/Mappings.antt =====
-- The mappings of a new space in `alloc_process` (kernel/process.c), each with its region.
use mypkecode.Base.{
  ℕ, ◌+◌, ◌-◌, ◌*◌, ◌/◌, ◌%◌, ◌^◌, ◌≤◌, ◌<◌, ◌≡◌, ◌≢◌, refl, ◌∙◌, Bool, true, false, List, ◌∷◌, has,
  length, ◌==◌, arith, ok, bit_or,
}
use mypkecode.Base.Words.{has_bit, u64}
use mypkecode.Phys.{pgsize, Memory, Phys, write}
use mypkecode.Vmm.{pte_v, maxva, prot_read, prot_write, prot_exec, prot_to_type, user_vm_map}
use mypkecode.Vmm.Space.{Labels, SameBounds}
use mypkecode.Vmm.Spared.{with_memory}
use mypkecode.Vmm.Built.{Built, mapped_over, empty_over, add_root, changed-Built, mapped-Built}
use mypkecode.Kernel.{Process}
use mypkecode.Proc.{user_stack_top}

-- The assignments to region `j` of the table at `info`.
abbrev pub region_set : Memory → (info j va seg : ℕ) → Memory
region_set m info j va seg =
    write (write m (info + 16 * j) va) (info + 16 * j + 8) (1 + seg * 2 ^ 32)

region_set-Built :
    {s : Phys} {lab : Labels} {xs own : List ℕ} {roots : ℕ → Bool} {f : ℕ → ℕ → ℕ}
    (info j va seg : ℕ)
    → Built s lab xs own roots f
    → has info own ≡ true
    → j < 256
    → Built (with_memory s (region_set s.mem info j va seg)) lab xs own roots f
unfolding write
region_set-Built {s} info j va seg b mine lt =
    let o = b.owned info mine in
    changed-Built (region_set s.mem info j va seg) info b mine λ a h. ground (arith, o.2, lt)

abbrev pub stack_perm : ℕ
stack_perm = prot_to_type (bit_or prot_write prot_read) true

abbrev pub frame_perm : ℕ
frame_perm = prot_to_type (bit_or prot_write prot_read) false

abbrev pub trap_perm : ℕ
trap_perm = prot_to_type (bit_or prot_read prot_exec) false

-- The entries of the new space at `pt`, over those of the spaces of before.
abbrev pub new_space : (ℕ → ℕ → ℕ) → (pt us tf trap : ℕ) → ℕ → ℕ → ℕ
new_space f pt us tf trap =
    mapped_over
      (mapped_over (mapped_over (empty_over f pt) pt (user_stack_top - pgsize) us stack_perm) pt tf
        tf frame_perm)
      pt trap trap trap_perm

-- A process after `alloc_process`.
abbrev pub given : Process → (tf pt ks info : ℕ) → Process
given p tf pt ks info = record p {
  trapframe = tf;
  pagetable = pt;
  kstack = u64 (ks + pgsize);
  mapped_info = info;
  total_mapped_region = 3;
}

pub empty_here : (f : ℕ → ℕ → ℕ) (pt va : ℕ) → has_bit (empty_over f pt pt va) pte_v ≡ false
empty_here f pt va = let here : (pt == pt) ≡ true = ground arith in rw here refl

over_other :
    (f : ℕ → ℕ → ℕ) (r va pa perm va' : ℕ)
    → va' / pgsize ≢ va / pgsize
    → has_bit (f r va') pte_v ≡ false
    → has_bit (mapped_over f r va pa perm r va') pte_v ≡ false
over_other f r va pa perm va' h fresh =
    let here : (r == r) ≡ true = ground arith in
    let other : (va' / pgsize == va / pgsize) ≡ false = ground (arith, h) in rw (here, other) fresh

pub has_head : (x : ℕ) (xs : List ℕ) → has x (x ∷ xs) ≡ true
has_head x xs = let here : (x == x) ≡ true = ground arith in rw here refl

pub add_root_here : (roots : ℕ → Bool) (r : ℕ) → add_root roots r r ≡ true
add_root_here roots r = let here : (r == r) ≡ true = ground arith in rw here refl

pub region_set-same :
    (info j va seg : ℕ) (m' m : Memory) (a : ℕ)
    → m' a ≡ m a
    → region_set m' info j va seg a ≡ region_set m info j va seg a
unfolding write
region_set-same info j va seg m' m a e = ground arith

-- A mapping and its region in the table.
pub map_noted :
    {s : Phys} {lab : Labels} {xs own : List ℕ} {roots : ℕ → Bool} {f : ℕ → ℕ → ℕ}
    (r va pa perm info j seg : ℕ)
    → Built s lab xs own roots f
    → roots r ≡ true
    → has info own ≡ true
    → j < 256
    → va % pgsize ≡ 0
    → va + pgsize ≤ maxva
    → pa < 2 ^ 61
    → 2 ≤ length xs
    → has_bit (f r va) pte_v ≡ false
    → (s' : Phys) × (lab' : Labels) × (xs' : List ℕ) × (user_vm_map r va pgsize pa perm s
        ≡ ok tt s')
      × Built
          (with_memory s' (region_set s'.mem info j va seg))
          lab'
          xs'
          own
          roots
          (mapped_over f r va pa perm)
      × (length xs ≤ length xs' + 2)
      × ((a : ℕ)
          → has (a / pgsize * pgsize) own ≡ true
          → region_set s'.mem info j va seg a ≡ region_set s.mem info j va seg a)
      × SameBounds s s'
map_noted {s} r va pa perm info j seg b at mine lt al small low enough fresh =
    let (s', lab', xs', run, d, u, same, bounds) =
      mapped-Built r va pa perm b at al small low enough fresh in
    (
      s',
      lab',
      xs',
      run,
      region_set-Built info j va seg d mine lt,
      u,
      λ a h. region_set-same info j va seg s'.mem s.mem a (same a h),
      bounds,
    )

-- The last two mappings of `init_vm_space`.
module _ {s : Phys} {lab : Labels} (roots : ℕ → Bool) (f : ℕ → ℕ → ℕ) (pt tf us ks info trap : ℕ)
    {own xs : List ℕ}
    (b : Built s lab xs
      (info ∷ us ∷ ks ∷ tf ∷ own)
      (add_root roots pt)
      (mapped_over (empty_over f pt) pt (user_stack_top - pgsize) us stack_perm))
    (enough : 4 ≤ length xs) (tf_al : tf % pgsize ≡ 0) (tf_ge : user_stack_top + pgsize ≤ tf)
    (tf_lt : tf + pgsize ≤ maxva) (trap_al : trap % pgsize ≡ 0) (trap_ge : user_stack_top ≤ trap)
    (trap_lt : trap + pgsize ≤ tf) where
  pub two_mappings :
      (s2 : Phys) × (s3 : Phys) × (lab' : Labels) × (xs' : List ℕ) × (user_vm_map pt tf pgsize tf
          frame_perm s
        ≡ ok tt s2)
      × (user_vm_map pt trap pgsize trap trap_perm (with_memory s2 (region_set s2.mem info 1 tf 3))
          ≡ ok tt s3)
      × Built
          (with_memory s3 (region_set s3.mem info 2 trap 4))
          lab'
          xs'
          (info ∷ us ∷ ks ∷ tf ∷ own)
          (add_root roots pt)
          (new_space f pt us tf trap)
      × (length xs ≤ length xs' + 4)
      × ((a : ℕ)
          → has (a / pgsize * pgsize) (info ∷ us ∷ ks ∷ tf ∷ own) ≡ true
          → region_set s3.mem info 2 trap 4 a
            ≡ region_set (region_set s.mem info 1 tf 3) info 2 trap 4 a)
      × SameBounds s s3
  two_mappings =
      let mine : has info (info ∷ us ∷ ks ∷ tf ∷ own) ≡ true = has_head info (us ∷ ks ∷ tf ∷ own) in
      let there = add_root_here roots pt in
      let (s2, lab2, xs2, run2, d2, u2, same2, bounds2) =
        map_noted pt tf tf frame_perm info 1 3 b there mine (omega arith) tf_al tf_lt
          (omega (arith, tf_lt)) (omega (arith, enough))
          (over_other (empty_over f pt) pt (user_stack_top - pgsize) us stack_perm tf
            (λ e. absurd (omega (arith, e, tf_ge))) (empty_here f pt tf)) in
      let (s3, lab3, xs3, run3, d3, u3, same3, bounds3) =
        map_noted pt trap trap trap_perm info 2 4 d2 there mine (omega arith) trap_al
          (omega (arith, trap_lt, tf_lt)) (omega (arith, trap_lt, tf_lt))
          (omega (arith, enough, u2))
          (over_other (mapped_over (empty_over f pt) pt (user_stack_top - pgsize) us stack_perm) pt
            tf tf frame_perm trap (λ e. absurd (omega (arith, e, trap_lt, trap_al, tf_al)))
            (over_other (empty_over f pt) pt (user_stack_top - pgsize) us stack_perm trap
              (λ e. absurd (omega (arith, e, trap_ge))) (empty_here f pt trap))) in
      (
        s2,
        s3,
        lab3,
        xs3,
        run2,
        run3,
        d3,
        omega (arith, u2, u3),
        λ a h.
            same3 a h
            ∙ region_set-same info 2 trap 4 (region_set s2.mem info 1 tf 3)
                (region_set s.mem info 1 tf 3) a (same2 a h),
        (bounds3.0 ∙ bounds2.0, bounds3.1 ∙ bounds2.1),
      )
