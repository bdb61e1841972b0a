-- ===== src/Elf/Load.antt =====
-- `elf_load` (kernel/elf.c) on a segment that is to be loaded.
use mypkecode.Base.{
  ℕ, ◌+◌, ◌*◌, ◌/◌, ◌%◌, ◌^◌, ◌≤◌, ◌<◌, ◌≡◌, ◌≢◌, refl, ap, ◌∙◌, sym, true, false, none, some, List,
  ◌∷◌, has, length, ◌==◌, ◌&&◌, ok, arith, lt→ltb, ltb, leb,
}
use mypkecode.Base.Words.{has_bit}
use mypkecode.Phys.{pgsize, Memory, Phys, clear, memset_zero}
use mypkecode.Phys.Laws.{clear_in}
use mypkecode.Pmm.Pages.{taken, alloc_page-cons}
use mypkecode.Vmm.{pte_v, maxva, lookup_pa, user_va_to_pa, prot_to_type}
use mypkecode.Vmm.Space.{dir, Labels, pte_at, Space}
use mypkecode.Vmm.Lookup.{pa_of}
use mypkecode.Vmm.Spared.{with_memory, pte_at-spared, page-entry, page-Space}
use mypkecode.Vmm.MapLoop.{Remaps}
use mypkecode.Vmm.User.{mapped_at, user_vm_map-Remaps, mapped-lookups}
use mypkecode.Kernel.{Kernel, update}
use mypkecode.Syscall.Heap.{taken-Space}
use mypkecode.Host.{Buffer, Host}
use mypkecode.Elf.{
  ElfCtx, ProgHeader, el_ok, elf_alloc_mb, fpread_page, bad_segment, segment_of, load_segment,
}
use mypkecode.Elf.Words.{read_into, padded_word, read_into-padded, read_into-outside}
use mypkecode.Elf.Region.{
  FirstUnused, region_word, recorded, counted, record_region-recorded, recorded_va, recorded_word,
  recorded_else,
}

module _ (k : Kernel) {lab : Labels} {pa : ℕ} {xs : List ℕ} (sp : Space k.phys lab (pa ∷ xs)) where
  -- The page at the head of the free list, taken and cleared.
  abbrev cleared : Phys
  cleared = with_memory (taken k.phys) (clear k.phys.mem pa pgsize)

  page_aligned : pa % pgsize ≡ 0
  page_aligned = sp.pool.chain.1

  page_bare : lab pa ≡ none
  page_bare = sp.free pa (ground arith)

  clear-within : (b : ℕ) → b / pgsize * pgsize ≢ pa → clear k.phys.mem pa pgsize b ≡ k.phys.mem b
  unfolding clear
  clear-within b h = ground (arith, page_aligned)

  cleared-Space : Space cleared lab xs
  cleared-Space =
      page-Space (taken-Space sp) (clear k.phys.mem pa pgsize) pa clear-within page_bare
        sp.pool.chain.4

  cleared-pte_at :
      (r va : ℕ) → lab r ≡ some (dir r) → pte_at cleared.mem r va ≡ pte_at k.phys.mem r va
  cleared-pte_at = pte_at-spared (taken-Space sp) (clear k.phys.mem pa pgsize) (
      page-entry (taken-Space sp) (clear k.phys.mem pa pgsize) pa clear-within page_bare
        sp.pool.chain.4)

  -- A page that is mapped for a segment: the allocated page is zero, and other pages that hold no
  -- table and are not free are as before.
  pub alloc_mapped :
      (ctx : ElfCtx) (va size : ℕ)
      → lab (k.procs ctx.proc).pagetable ≡ some (dir (k.procs ctx.proc).pagetable)
      → va % pgsize ≡ 0
      → va + pgsize ≤ maxva
      → k.phys.free_mem_end_addr ≤ 2 ^ 61
      → 2 ≤ length xs
      → has_bit (pte_at k.phys.mem (k.procs ctx.proc).pagetable va) pte_v ≡ false
      → size < pgsize
      → (s' : Phys) × (lab' : Labels) × (xs' : List ℕ) × (elf_alloc_mb ctx va va size k
          ≡ ok pa (record k { phys = s' }))
        × Remaps cleared lab xs s' lab' xs'
            (mapped_at cleared (k.procs ctx.proc).pagetable va pa (prot_to_type 7 true))
  unfolding elf_alloc_mb memset_zero
  alloc_mapped ctx va size root al small low enough fresh fits =
      let r = (k.procs ctx.proc).pagetable in
      let chain = sp.pool.chain in
      let above = sp.pool.above_null in
      let unmapped : has_bit (pte_at cleared.mem r va) pte_v ≡ false =
        rw (cleared-pte_at r va root) fresh in
      let (s', lab', xs', run, m, u) =
        user_vm_map-Remaps cleared-Space r va pa (prot_to_type 7 true) root al small
          (omega (arith, chain.3, low)) enough unmapped in
      let not_null : (pa == 0) ≡ false = ground (arith, chain.2, above) in
      let not_low : ltb pa pgsize ≡ false = ground (arith, chain.2, above) in
      (
        s',
        lab',
        xs',
        rw (lt→ltb size pgsize fits, (alloc_page-cons sp.pool).0, not_null, not_low, run) refl,
        m,
      )

module _ (host : Host) (ctx : ElfCtx) (ph : ProgHeader) (k : Kernel) {lab : Labels} {pa : ℕ}
    {xs : List ℕ} (bytes : Buffer) (j seg : ℕ) (sp : Space k.phys lab (pa ∷ xs))
    (root : lab (k.procs ctx.proc).pagetable ≡ some (dir (k.procs ctx.proc).pagetable))
    (low : k.phys.free_mem_end_addr ≤ 2 ^ 61) (enough : 2 ≤ length xs) (al : ph.vaddr % pgsize ≡ 0)
    (small : ph.vaddr + pgsize ≤ maxva)
    (fresh : has_bit (pte_at k.phys.mem (k.procs ctx.proc).pagetable ph.vaddr) pte_v ≡ false)
    (parts : ph.filesz ≤ ph.memsz) (fits : ph.memsz < pgsize)
    (kind : segment_of ph.p_flags ≡ some seg)
    (reads : host.pread ctx.file ph.memsz ph.off ≡ (ph.memsz, bytes))
    (table_al : (k.procs ctx.proc).mapped_info % pgsize ≡ 0)
    (table_bare : lab (k.procs ctx.proc).mapped_info ≡ none)
    (table_out : has (k.procs ctx.proc).mapped_info (pa ∷ xs) ≡ false)
    (table_page : pgsize ≤ (k.procs ctx.proc).mapped_info)
    (first : FirstUnused k.phys.mem (k.procs ctx.proc).mapped_info j) where
  abbrev r : ℕ
  r = (k.procs ctx.proc).pagetable

  abbrev info : ℕ
  info = (k.procs ctx.proc).mapped_info

  -- The memory after the page is filled, and after the region is recorded.
  abbrev filled : Phys → Memory
  filled s = read_into s.mem pa bytes ph.memsz

  abbrev noted : Phys → Memory
  noted s = recorded (filled s) (info + 16 * j) ph.vaddr seg

  filled-within : (s : Phys) (b : ℕ) → b / pgsize * pgsize ≢ pa → filled s b ≡ s.mem b
  filled-within s b h =
      let a = page_aligned k sp in
      read_into-outside s.mem pa ph.memsz b bytes (ground (arith, fits))

  noted-within : (s : Phys) (b : ℕ) → b / pgsize * pgsize ≢ info → noted s b ≡ filled s b
  noted-within s b h =
      let lt = first.inside in
      recorded_else (filled s) (info + 16 * j) ph.vaddr seg b (λ e. h (omega (arith, table_al)))
        (λ e. h (omega (arith, table_al)))

  table_apart : info ≢ pa
  table_apart e = ground (arith, e, table_out)

  module _ (s : Phys) {lab' : Labels} {xs' : List ℕ}
      (m : Remaps
        (cleared k sp)
        lab
        xs
        s
        lab'
        xs'
        (mapped_at (cleared k sp) r ph.vaddr pa (prot_to_type 7 true))) where
    abbrev page_apart : (lab' pa ≡ none) × (has pa xs' ≡ false)
    page_apart = m.apart pa (page_bare k sp) sp.pool.chain.4

    abbrev info_apart : (lab' info ≡ none) × (has info xs' ≡ false)
    info_apart = m.apart info table_bare (ground (arith, table_out))

    filled-Space : Space (with_memory s (filled s)) lab' xs'
    filled-Space = page-Space m.space (filled s) pa (filled-within s) page_apart.0 page_apart.1

    noted-Space : Space (with_memory s (noted s)) lab' xs'
    noted-Space = page-Space filled-Space (noted s) info (noted-within s) info_apart.0 info_apart.1

    noted-pte_at :
        (r' va : ℕ) → lab' r' ≡ some (dir r') → pte_at (noted s) r' va ≡ pte_at s.mem r' va
    noted-pte_at r' va at =
        pte_at-spared filled-Space (noted s)
          (page-entry filled-Space (noted s) info (noted-within s) info_apart.0 info_apart.1) r' va
          at
        ∙ pte_at-spared m.space (filled s)
            (page-entry m.space (filled s) pa (filled-within s) page_apart.0 page_apart.1) r' va at

    -- The words of the table of regions are those of before.
    table_same : (i : ℕ) → i < pgsize → filled s (info + i) ≡ k.phys.mem (info + i)
    table_same i lt =
        let at : (info + i) / pgsize * pgsize ≡ info = omega (arith, table_al, lt) in
        let apart : (info + i) / pgsize * pgsize ≢ pa = rw at table_apart in
        filled-within s (info + i) apart
        ∙ m.frame (info + i) (rw at table_bare) (rw at (ground (arith, table_out)))
        ∙ clear-within k sp (info + i) apart

    page_padded : (i : ℕ) → i < pgsize → noted s (pa + i) ≡ padded_word bytes ph.memsz i
    page_padded i lt =
        let a = page_aligned k sp in
        let at : (pa + i) / pgsize * pgsize ≡ pa = omega (arith, a, lt) in
        let apart : (pa + i) / pgsize * pgsize ≢ info = rw at (λ e. table_apart (sym e)) in
        let zero_there : s.mem (pa + i) ≡ 0 =
          m.frame (pa + i) (rw at (page_bare k sp)) (rw at sp.pool.chain.4)
          ∙ clear_in k.phys.mem pa pgsize (pa + i) (omega arith) (omega (arith, lt)) in
        noted-within s (pa + i) apart ∙ read_into-padded s.mem pa ph.memsz i bytes zero_there

    first_again : FirstUnused (filled s) info j
    first_again =
        let lt = first.inside in
        record {
          inside = lt;
          used = λ i h e. first.used i h (sym (table_same (16 * i) (omega (arith, h, lt))) ∙ e);
          unused = table_same (16 * j) (omega (arith, lt)) ∙ first.unused;
        }

  -- Let the spaces be well formed with three pages free, all below 2^61, and let the header describe a
  -- segment of less than a page at an aligned address below `MAXVA` that is not mapped, with flags
  -- for code or for data. Let the host deliver the whole segment, and let the process have a
  -- directory and a table of regions in a page of its own, whose first unused region is `j`. Then
  -- `load_segment` returns EL_OK; the segment's address is found at a page taken from the free list,
  -- at every offset; that page holds the delivered bytes and zeros behind them; region `j` records
  -- the address, one page and the kind of segment, and the count of regions grows by one; and every
  -- other page of every space is found where it was before.
  pub load_segment-loaded :
      (s' : Phys) × (load_segment host ctx ph k
        ≡ ok el_ok
            (record k { phys = s'; procs = update k.procs ctx.proc (counted (k.procs ctx.proc)) }))
      × (lookup_pa r ph.vaddr s' ≡ ok pa s')
      × ((off : ℕ) → off < pgsize → user_va_to_pa r (ph.vaddr + off) s' ≡ ok (pa + off) s')
      × ((i : ℕ) → i < pgsize → s'.mem (pa + i) ≡ padded_word bytes ph.memsz i)
      × (s'.mem (info + 16 * j) ≡ ph.vaddr)
      × (s'.mem (info + 16 * j + 8) ≡ region_word seg)
      × ((r' va' : ℕ)
          → va' < maxva
          → lab r' ≡ some (dir r')
          → ((r' == r) && (va' / pgsize == ph.vaddr / pgsize)) ≡ false
          → lookup_pa r' va' s' ≡ ok (pa_of (pte_at k.phys.mem r' va')) s')
  unfolding load_segment fpread_page
  load_segment-loaded =
      let (s, lab', xs', run, m) =
        alloc_mapped k sp ctx ph.vaddr ph.memsz root al small low enough fresh fits in
      let k3 = record k { phys = with_memory s (filled s) } in
      let s' = with_memory s (noted s) in
      let noting = record_region-recorded k3 ctx.proc j seg ph table_page (first_again s m) kind in
      let (found, offsets, others) =
        mapped-lookups (cleared k sp) r ph.vaddr pa 7 (noted-Space s m) m.extends
          (λ r' va' h at'. noted-pte_at s m r' va' (m.extends r' _ at') ∙ m.entries r' va' h at')
          root al small (page_aligned k sp) (omega (arith, sp.pool.chain.3, low)) (omega arith)
          refl in
      let good : bad_segment ph ≡ false = ground (arith, parts, fits, small) in
      let whole : (ph.memsz == ph.memsz) ≡ true = ground arith in
      let all : leb ph.memsz ph.memsz ≡ true = ground arith in
      (
        s',
        rw (good, run, reads, whole, all, noting) refl,
        found,
        offsets,
        page_padded s m,
        recorded_va (filled s) (info + 16 * j) ph.vaddr seg,
        recorded_word (filled s) (info + 16 * j) ph.vaddr seg,
        λ r' va' h at' other.
            others r' va' h at' other
            ∙ ap (λ (e : ℕ). ok (pa_of e) s') (cleared-pte_at k sp r' va' at'),
      )
