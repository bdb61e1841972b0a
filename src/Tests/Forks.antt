-- ===== src/Tests/Forks.antt =====
-- A run of `do_fork` (kernel/process.c): process 0 has a page of code and a page of data, sixteen pages are
-- free, and process 4 is the first free one.
use mypkecode.Base.{
  ℕ, ◌+◌, user, ◌-◌, ◌*◌, ◌/◌, ◌^◌, ◌<◌, ◌≡◌, ◌≢◌, refl, subst, true, false, none, some, List, [],
  ◌∷◌, ◌==◌, has, arith, ok, if◌then◌else◌, ltb, ◌⊎◌, Bool-cases, inl, inr,
}
use mypkecode.Base.Words.{has_bit}
use mypkecode.Phys.{pgsize, Memory, Phys}
use mypkecode.Pmm.Chain.{FreeList}
use mypkecode.Vmm.{entry, pte_v, pte2pa}
use mypkecode.Vmm.Lookup.{pa_of}
use mypkecode.Vmm.Space.{Label, Labels, dir, mid, leaf, child, pte_at, Space}
use mypkecode.Vmm.Built.{Built, add_root}
use mypkecode.Kernel.{nproc, Process, Kernel}
use mypkecode.Kernel.Status.{ready, free}
use mypkecode.Sched.Queue.{IsQueue}
use mypkecode.Proc.{user_stack_top, first_free}
use mypkecode.Proc.Fork.{do_fork}
use mypkecode.Proc.Fork.State.{Forking}
use mypkecode.Proc.Fork.Regions.{Segment, code_at, data_at, AllForked}
use mypkecode.Proc.Fork.Parent.{IsParent}
use mypkecode.Proc.Fork.Child.{Child}
use mypkecode.Proc.Fork.Whole.{do_fork-Child}
use mypkecode.Trapframe.{off_a0, off_epc, trapframe_size}
use mypkecode.Strap.{smode_trap_handler}
use mypkecode.Strap.Forks.{smode_trap_handler-fork}
use mypkecode.Tests.{root, first_page}
use mypkecode.Tests.Turns.{pool, kernel}

abbrev page : ℕ → ℕ
page n = first_page + n * pgsize

-- The tables of the parent's space: for the stack, and for code and data.
abbrev high_mid : ℕ
high_mid = root + pgsize

abbrev low_mid : ℕ
low_mid = root + 2 * pgsize

abbrev high_leaf : ℕ
high_leaf = root + 3 * pgsize

abbrev low_leaf : ℕ
low_leaf = root + 4 * pgsize

-- Its other pages.
abbrev stack_page : ℕ
stack_page = root + 6 * pgsize

abbrev data_page : ℕ
data_page = root + 8 * pgsize

abbrev code_page : ℕ
code_page = root + 9 * pgsize

abbrev frame_page : ℕ
frame_page = root + 16 * pgsize

abbrev info_page : ℕ
info_page = root + 24 * pgsize

abbrev to_table : ℕ → ℕ
to_table p = p / 4096 * 1024 + 1

abbrev to_page : (p flags : ℕ) → ℕ
to_page p flags = p / 4096 * 1024 + flags

abbrev table_word : ℕ → ℕ
table_word a =
    if a == root
    then to_table low_mid
    else if a == root + 8
    then to_table high_mid
    else if a == high_mid + 8 * 511
    then to_table high_leaf
    else if a == low_mid
    then to_table low_leaf
    else if a == high_leaf + 8 * 510
    then to_page stack_page 0xd7
    else if a == low_leaf + 8 * 16
    then to_page code_page 0x5b
    else if a == low_leaf + 8 * 17
    then to_page data_page 0xd7
    else 0

-- The table of regions: stack, context, system, code and data.
abbrev info_word : ℕ → ℕ
info_word o =
    if o == 0
    then user_stack_top - pgsize
    else if o == 8
    then 1 + 2 * 2 ^ 32
    else if o == 16
    then frame_page
    else if o == 24
    then 1 + 3 * 2 ^ 32
    else if o == 32
    then 0x8000_4000
    else if o == 40
    then 1 + 4 * 2 ^ 32
    else if o == 48
    then 0x1_0000
    else if o == 56
    then 1
    else if o == 64
    then 0x1_1000
    else if o == 72
    then 1 + 2 ^ 32
    else 0

-- The number of `fork` is in `a0`.
abbrev forking_memory : Memory
forking_memory a =
    if ltb a (low_leaf + pgsize)
    then table_word a
    else if a == frame_page + 72
    then 68
    else if ltb a info_page
    then 7
    else if ltb a first_page
    then info_word (a - info_page)
    else if ltb a (page 15)
    then a + pgsize
    else 0

abbrev forking_machine : Phys
forking_machine = record {
  mem = forking_memory;
  free_list = first_page;
  free_mem_start_addr = first_page;
  free_mem_end_addr = 0x8030_0000;
}

abbrev forking_labels : Labels
forking_labels p =
    if p == root
    then some (dir root)
    else if p == high_mid
    then some (mid root 1)
    else if p == low_mid
    then some (mid root 0)
    else if p == high_leaf
    then some (leaf root 1 511)
    else if p == low_leaf
    then some (leaf root 0 0)
    else none

abbrev rest_pages : List ℕ
rest_pages =
    page 5
    ∷ page 6
    ∷ page 7
    ∷ page 8
    ∷ page 9
    ∷ page 10
    ∷ page 11
    ∷ page 12
    ∷ page 13
    ∷ page 14
    ∷ page 15
    ∷ []

abbrev all_pages : List ℕ
all_pages = page 0 ∷ page 1 ∷ page 2 ∷ page 3 ∷ page 4 ∷ rest_pages

abbrev parent_pages : List ℕ
parent_pages = frame_page ∷ stack_page ∷ info_page ∷ data_page ∷ []

all-FreeList : FreeList forking_machine all_pages
all-FreeList = record {
  above_null = omega arith;
  fits = omega arith;
  chain = (
    refl,
    refl,
    omega arith,
    omega arith,
    refl,
    (
      refl,
      refl,
      omega arith,
      omega arith,
      refl,
      (
        refl,
        refl,
        omega arith,
        omega arith,
        refl,
        (
          refl,
          refl,
          omega arith,
          omega arith,
          refl,
          (
            refl,
            refl,
            omega arith,
            omega arith,
            refl,
            (
              refl,
              refl,
              omega arith,
              omega arith,
              refl,
              (
                refl,
                refl,
                omega arith,
                omega arith,
                refl,
                (
                  refl,
                  refl,
                  omega arith,
                  omega arith,
                  refl,
                  (
                    refl,
                    refl,
                    omega arith,
                    omega arith,
                    refl,
                    (
                      refl,
                      refl,
                      omega arith,
                      omega arith,
                      refl,
                      (
                        refl,
                        refl,
                        omega arith,
                        omega arith,
                        refl,
                        (
                          refl,
                          refl,
                          omega arith,
                          omega arith,
                          refl,
                          (
                            refl,
                            refl,
                            omega arith,
                            omega arith,
                            refl,
                            (
                              refl,
                              refl,
                              omega arith,
                              omega arith,
                              refl,
                              (
                                refl,
                                refl,
                                omega arith,
                                omega arith,
                                refl,
                                (refl, refl, omega arith, omega arith, refl, refl),
                              ),
                            ),
                          ),
                        ),
                      ),
                    ),
                  ),
                ),
              ),
            ),
          ),
        ),
      ),
    ),
  );
}

-- A label stands at one of the five tables.
five_tables :
    (p : ℕ) (l : Label)
    → forking_labels p ≡ some l
    → ((p ≡ root) × (l ≡ dir root))
      ⊎ (((p ≡ high_mid) × (l ≡ mid root 1))
          ⊎ (((p ≡ low_mid) × (l ≡ mid root 0))
              ⊎ (((p ≡ high_leaf) × (l ≡ leaf root 1 511))
                  ⊎ ((p ≡ low_leaf) × (l ≡ leaf root 0 0)))))
five_tables p l h = ground arith

low_page : (p : ℕ) → p < first_page → has p all_pages ≡ false
low_page p h = ground (arith, h)

free-none : (p : ℕ) → has p all_pages ≡ true → forking_labels p ≡ none
free-none p h = elim (Bool-cases (ltb p first_page)) [
  | inl y ↦ absurd (cc (h, low_page p (ground arith)))
  | inr n ↦ ground (arith, n)
]

root_words : (i : ℕ) → i < 512 → (i ≡ 0) ⊎ ((i ≡ 1) ⊎ (forking_memory (entry root i) ≡ 0))
root_words i lt = ground (arith, lt)

high_words : (i : ℕ) → i < 512 → (i ≡ 511) ⊎ (forking_memory (entry high_mid i) ≡ 0)
high_words i lt = ground (arith, lt)

low_words : (i : ℕ) → i < 512 → (i ≡ 0) ⊎ (forking_memory (entry low_mid i) ≡ 0)
low_words i lt = ground (arith, lt)

zero-invalid : (w : ℕ) → w ≡ 0 → ¬ (has_bit w pte_v ≡ true)
zero-invalid w e v = absurd (ground (arith, e, v))

child-label :
    (p i : ℕ) (l c : Label)
    → forking_labels p ≡ some l
    → child l i ≡ some c
    → i < 512
    → has_bit (forking_memory (entry p i)) pte_v ≡ true
    → forking_labels (pte2pa (forking_memory (entry p i))) ≡ some c
child-label p i l c at down lt v = elim (five_tables p l at) [
  | inl (e, f) ↦
      let down' : child (dir root) i ≡ some c = rw f at down in
      elim (root_words i lt) [
        | inl z ↦ rw (e, z) (rw z at down')
        | inr (inl z) ↦ rw (e, z) (rw z at down')
        | inr (inr z) ↦ absurd (zero-invalid (forking_memory (entry root i)) z (rw e at v))
      ]
  | inr (inl (e, f)) ↦
      let down' : child (mid root 1) i ≡ some c = rw f at down in
      elim (high_words i lt) [
        | inl z ↦ rw (e, z) (rw z at down')
        | inr z ↦ absurd (zero-invalid (forking_memory (entry high_mid i)) z (rw e at v))
      ]
  | inr (inr (inl (e, f))) ↦
      let down' : child (mid root 0) i ≡ some c = rw f at down in
      elim (low_words i lt) [
        | inl z ↦ rw (e, z) (rw z at down')
        | inr z ↦ absurd (zero-invalid (forking_memory (entry low_mid i)) z (rw e at v))
      ]
  | inr (inr (inr (inl (e, f)))) ↦ let n : child l i ≡ none = rw f refl in absurd (cc)
  | inr (inr (inr (inr (e, f)))) ↦ let n : child l i ≡ none = rw f refl in absurd (cc)
]

forking-Space : Space forking_machine forking_labels all_pages
forking-Space = record {
  pool = all-FreeList;
  free = free-none;
  page = λ p l h. elim (five_tables p l h) [
    | inl (e, f) ↦ rw e (refl, omega arith)
    | inr (inl (e, f)) ↦ rw e (refl, omega arith)
    | inr (inr (inl (e, f))) ↦ rw e (refl, omega arith)
    | inr (inr (inr (inl (e, f)))) ↦ rw e (refl, omega arith)
    | inr (inr (inr (inr (e, f)))) ↦ rw e (refl, omega arith)
  ];
  dirs = λ p r h. ground arith;
  tables = child-label;
}

four_pages :
    (p : ℕ)
    → has p parent_pages ≡ true
    → (p ≡ frame_page) ⊎ ((p ≡ stack_page) ⊎ ((p ≡ info_page) ⊎ (p ≡ data_page)))
four_pages p h = ground arith

forking-Built :
    Built forking_machine forking_labels all_pages parent_pages
      (λ r. r == root)
      (pte_at forking_memory)
forking-Built = record {
  space = forking-Space;
  owned = λ p h. elim (four_pages p h) [
    | inl e ↦ rw e (refl, refl, refl, omega arith)
    | inr (inl e) ↦ rw e (refl, refl, refl, omega arith)
    | inr (inr (inl e)) ↦ rw e (refl, refl, refl, omega arith)
    | inr (inr (inr e)) ↦ rw e (refl, refl, refl, omega arith)
  ];
  rooted = λ r h. let e : r ≡ root = ground arith in rw e refl;
  entries = λ r va h at. refl;
}

abbrev forking_pool : ℕ → Process
forking_pool i = if i == 0 then record (pool 0) { total_mapped_region = 5 } else pool i

abbrev forking_kernel : Kernel
forking_kernel = record (kernel (some 1) 0) { phys = forking_machine; procs = forking_pool }

abbrev segments : List Segment
segments = code_at 0x1_0000 1 ∷ data_at 0x1_1000 1 ∷ []

data_owned :
    (x : ℕ)
    → x < 1
    → has (pa_of (pte_at forking_memory root (0x1_1000 + pgsize * x))) parent_pages ≡ true
unfolding pte_at
data_owned x lt =
    let z : 0 ≡ x = omega arith in
    subst
      (λ (y : ℕ).
        has (pa_of (pte_at forking_memory root (0x1_1000 + pgsize * y))) parent_pages ≡ true)
      z refl

forking-IsParent :
    IsParent forking_kernel 0 parent_pages (λ r. r == root) (pte_at forking_memory) segments
unfolding pte_at
forking-IsParent = record {
  rooted = refl;
  own_info = refl;
  own_frame = refl;
  own_stack = refl;
  total = refl;
  room = omega arith;
  table = (refl, refl, (refl, refl, (refl, refl, (refl, refl, (refl, refl, tt)))));
  loaded = ((omega arith, omega arith, omega arith), ((refl, omega arith, data_owned), tt));
  apart = ((λ v h. ground (arith, h)), ((λ v h. absurd (cc)), tt));
}

waiting : IsQueue forking_kernel (1 ∷ 2 ∷ [])
waiting = record {
  linked = (refl, refl, (refl, refl, refl));
  distinct = (refl, (refl, tt));
  in_pool = (omega arith, (omega arith, tt));
}

child_found : first_free nproc 0 forking_kernel.procs ≡ some 4
unfolding first_free
child_found = refl

running_parent : ready ≢ free
running_parent e = cc

do_fork-Child_example :
    (t : Forking) × (do_fork 0 forking_kernel ≡ ok 4 t.k)
    × Built t.k.phys t.lab t.xs t.own (add_root (λ r. r == root) (page 1)) t.f
    × Child forking_kernel t.k 0 4
        (page 0)
        (page 1)
        (page 2)
        (page 3)
        (page 4)
        parent_pages
        (pte_at forking_memory)
        t.f
        segments
        (1 ∷ 2 ∷ [])
    × AllForked
        (add_root (λ r. r == root) (page 1))
        0
        4
        root
        info_page
        (page 1)
        (page 4)
        (record {
          k = forking_kernel;
          lab = forking_labels;
          xs = all_pages;
          own = parent_pages;
          f = pte_at forking_memory;
        })
        t
        segments
do_fork-Child_example =
    do_fork-Child forking_kernel 0 4 (page 0) (page 1) (page 2) (page 3) (page 4) rest_pages
      (1 ∷ 2 ∷ []) segments forking-Built forking-IsParent running_parent waiting child_found
      (omega arith) (omega arith) (omega arith) refl (omega arith) (omega arith)

smode_trap_handler-fork_example :
    (k' : Kernel) × (smode_trap_handler forking_kernel ≡ user k')
    × (k'.current ≡ some 0)
    × (k'.sepc ≡ 4)
    × (k'.phys.mem (frame_page + off_a0) ≡ 4)
    × (k'.phys.mem (page 0 + off_a0) ≡ 0)
    × (k'.phys.mem (page 0 + off_epc) ≡ 4)
    × ((o : ℕ)
        → o < trapframe_size
        → o ≢ off_a0
        → o ≢ off_epc
        → k'.phys.mem (page 0 + o) ≡ forking_memory (frame_page + o))
    × IsQueue k' (1 ∷ 2 ∷ 4 ∷ [])
    × ((k'.procs 4).parent ≡ some 0)
smode_trap_handler-fork_example =
    smode_trap_handler-fork forking_kernel 0 4 (page 0) (page 1) (page 2) (page 3) (page 4)
      rest_pages (1 ∷ 2 ∷ []) segments forking-Built forking-IsParent running_parent waiting
      child_found (omega arith) (omega arith) (omega arith) refl (omega arith) (omega arith) refl
      refl refl refl (λ e. omega (arith, e))
