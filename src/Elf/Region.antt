-- ===== src/Elf/Region.antt =====
-- How `elf_load` (kernel/elf.c) records a segment in the table of mapped regions.
use mypkecode.Base.{
  ℕ, zero, suc, ◌+◌, ◌*◌, ◌/◌, ◌%◌, ◌^◌, ◌≤◌, ◌<◌, ◌≡◌, ◌≢◌, refl, ap, ◌∙◌, some, ok, arith, le→ltb,
  ◌==◌, false,
}
use mypkecode.Phys.{pgsize, Memory, write, load, store}
use mypkecode.Phys.Laws.{write_self, write_ne, load-ok}
use mypkecode.Kernel.{Process, Kernel, update}
use mypkecode.Vmm.Spared.{with_memory}
use mypkecode.Elf.{ProgHeader, find_region, segment_of, set_kind, record_region}

-- The first unused region of the table at `info` is region `j`.
pub record FirstUnused (m : Memory) (info j : ℕ) : Type 0 where
  pub inside : j < 256
  pub used : (i : ℕ) → i < j → m (info + 16 * i) ≢ 0
  pub unused : m (info + 16 * j) ≡ 0

find_region-first :
    (n i d info : ℕ) (k : Kernel)
    → pgsize ≤ info
    → d < n
    → ((h : ℕ) → h < i + d → k.phys.mem (info + 16 * h) ≢ 0)
    → k.phys.mem (info + 16 * (i + d)) ≡ 0
    → find_region n i info k ≡ ok (i + d) k
unfolding find_region
find_region-first zero i d info k page lt used unused = absurd (omega arith)
find_region-first (suc n) i zero info k page lt used unused =
    let e : i + 0 ≡ i = omega arith in
    let z : k.phys.mem (info + 16 * i) ≡ 0 = rw e at unused in
    rw (load-ok (info + 16 * i) k.phys (omega (arith, page)), z, e) refl
find_region-first (suc n) i (suc d) info k page lt used unused =
    let e : suc i + d ≡ i + suc d = omega arith in
    let there : (k.phys.mem (info + 16 * i) == 0) ≡ false = ground (arith, used i (omega arith)) in
    rw (load-ok (info + 16 * i) k.phys (omega (arith, page)), there)
      (find_region-first n (suc i) d info k page (omega (arith, lt)) (rw e used) (rw e unused)
        ∙ ap (λ (h : ℕ). ok h k) e)

abbrev pub region_word : (seg : ℕ) → ℕ
region_word seg = 1 + seg * 2 ^ 32

abbrev pub recorded : Memory → (a va seg : ℕ) → Memory
recorded m a va seg =
    write (write (write m a va) (a + 8) (write m a va (a + 8) / 2 ^ 32 * 2 ^ 32 + 1)) (a + 8) (
      write (write m a va) (a + 8) (write m a va (a + 8) / 2 ^ 32 * 2 ^ 32 + 1) (a + 8) % 2 ^ 32
      + seg * 2 ^ 32)

abbrev pub counted : Process → Process
counted q = record q { total_mapped_region = q.total_mapped_region + 1 }

pub record_region-recorded :
    (k : Kernel) (c j seg : ℕ) (ph : ProgHeader)
    → pgsize ≤ (k.procs c).mapped_info
    → FirstUnused k.phys.mem (k.procs c).mapped_info j
    → segment_of ph.p_flags ≡ some seg
    → record_region c ph k
      ≡ ok tt (record k {
        phys =
            with_memory k.phys
              (recorded k.phys.mem ((k.procs c).mapped_info + 16 * j) ph.vaddr seg);
        procs = update k.procs c (counted (k.procs c));
      })
unfolding record_region set_kind load store update
record_region-recorded k c j seg ph page first kind =
    let info = (k.procs c).mapped_info in
    let found : find_region 256 0 info k ≡ ok (0 + j) k =
      find_region-first 256 0 j info k page first.inside (λ h lt. first.used h (omega (arith, lt)))
        (let same : 0 + j ≡ j = omega arith in rw same first.unused) in
    let e : 0 + j ≡ j = omega arith in
    let first_word = le→ltb (info + 16 * j) pgsize (omega (arith, page)) in
    let second_word = le→ltb (info + 16 * j + 8) pgsize (omega (arith, page)) in
    rw (found, e, kind, first_word, second_word, second_word, second_word, second_word) refl

-- What the table holds then.
module _ (m : Memory) (a va seg : ℕ) where
  pub recorded_va : recorded m a va seg a ≡ va
  unfolding write
  recorded_va = ground arith

  pub recorded_word : recorded m a va seg (a + 8) ≡ region_word seg
  recorded_word =
      write_self (write (write m a va) (a + 8) _) (a + 8) _
      ∙ omega
          (arith, write_self (write m a va) (a + 8) (write m a va (a + 8) / 2 ^ 32 * 2 ^ 32 + 1))

  pub recorded_else : (b : ℕ) → a ≢ b → a + 8 ≢ b → recorded m a va seg b ≡ m b
  recorded_else b h h' =
      write_ne (write (write m a va) (a + 8) _) (a + 8) _ b h'
      ∙ write_ne (write m a va) (a + 8) _ b h'
      ∙ write_ne m a va b h
