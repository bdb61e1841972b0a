-- ===== src/Tests/Loads.antt =====
-- Runs of the loader (kernel/elf.c) on a file with one segment for code: 16 bytes at 0x1000 of the
-- file, for the address 0x10000 of process 0.
use mypkecode.Base.{
  ℕ, ◌+◌, ◌*◌, ◌/◌, ◌<◌, ◌≡◌, refl, false, some, none, ◌==◌, ◌&&◌, arith, ok, ◌>>=◌, if◌then◌else◌,
}
use mypkecode.Base.Words.{has_bit}
use mypkecode.Phys.{pgsize, Phys}
use mypkecode.Vmm.{pte_v, maxva, lookup_pa, user_va_to_pa}
use mypkecode.Vmm.Space.{dir, pte_at}
use mypkecode.Vmm.Lookup.{pa_of}
use mypkecode.Kernel.{update}
use mypkecode.Host.{Buffer, Host}
use mypkecode.Elf.{
  ElfCtx, ProgHeader, el_ok, elf_header, elf_magic, load_segment, load_bincode_from_host_elf,
}
use mypkecode.Elf.Words.{le, padded_word}
use mypkecode.Elf.Region.{FirstUnused, region_word, counted}
use mypkecode.Elf.Load.{load_segment-loaded}
use mypkecode.Elf.Table.{Delivers, loadable, load_all}
use mypkecode.Elf.Bincode.{opened, entered, load_bincode_from_host_elf-load_all}
use mypkecode.Tests.{root, first_page, machine, labels, machine-Space}
use mypkecode.Tests.Turns.{kernel, pool}

-- One program header at byte 64: type LOAD, flags R and X.
abbrev image : Buffer
image i =
    if i == 0
    then 0x7F
    else if i == 1
    then 0x45
    else if i == 2
    then 0x4C
    else if i == 3
    then 0x46
    else if i == 26
    then 1
    else if i == 32
    then 64
    else if i == 56
    then 1
    else if i == 64
    then 1
    else if i == 68
    then 5
    else if i == 73
    then 0x10
    else if i == 82
    then 1
    else if i == 96
    then 16
    else if i == 104
    then 16
    else if i == 0x1000
    then 0x13
    else 0

abbrev host : Host
host = record {
  getmainvars = (0, λ i. if i == 0 then 2 else i);
  open_file = λ name. 1;
  pread = λ f size offset. (size, λ i. image (offset + i));
}

abbrev app : ElfCtx
app = record { file = 1; proc = 0; ehdr = image }

abbrev code : ProgHeader
code = record {
  p_type = 1;
  p_flags = 5;
  off = 0x1000;
  vaddr = 0x1_0000;
  paddr = 0;
  filesz = 16;
  memsz = 16;
  align = 0;
}

abbrev table : ℕ
table = root + 24 * pgsize

table_empty : FirstUnused machine.mem table 0
table_empty = record {
  inside = omega arith;
  used = λ i h e. absurd (omega (arith, h));
  unused = refl;
}

no_code_yet : has_bit (pte_at machine.mem root 0x1_0000) pte_v ≡ false
unfolding pte_at
no_code_yet = refl

load_segment-loaded_example :
    (s' : Phys) × (load_segment host app code (kernel none 0)
      ≡ ok el_ok (record (kernel none 0) { phys = s'; procs = update pool 0 (counted (pool 0)) }))
    × (lookup_pa root 0x1_0000 s' ≡ ok first_page s')
    × ((off : ℕ) → off < pgsize → user_va_to_pa root (0x1_0000 + off) s' ≡ ok (first_page + off) s')
    × ((i : ℕ) → i < pgsize → s'.mem (first_page + i) ≡ padded_word (λ h. image (0x1000 + h)) 16 i)
    × (s'.mem (table + 16 * 0) ≡ 0x1_0000)
    × (s'.mem (table + 16 * 0 + 8) ≡ region_word 0)
    × ((r' va' : ℕ)
        → va' < maxva
        → labels r' ≡ some (dir r')
        → ((r' == root) && (va' / pgsize == 0x1_0000 / pgsize)) ≡ false
        → lookup_pa r' va' s' ≡ ok (pa_of (pte_at machine.mem r' va')) s')
load_segment-loaded_example =
    load_segment-loaded host app code (kernel none 0) (λ h. image (0x1000 + h)) 0 0 machine-Space
      refl (omega arith) (omega arith) refl (omega arith) no_code_yet (omega arith) (omega arith)
      refl refl refl refl refl (omega arith) table_empty

abbrev header_at : ℕ → Buffer
header_at h i = image (64 + 56 * h + i)

abbrev first_bytes : Buffer
first_bytes i = image (0 + i)

-- What stands in the variables before.
abbrev junk : Buffer
junk i = 7

abbrev opened_app : ElfCtx
opened_app = opened 1 0 first_bytes junk

one_header : Delivers host opened_app header_at 64 0 (elf_header first_bytes).phnum
unfolding le
one_header = record { low = omega arith; reads = λ h from to. refl }

table_at : 64 ≡ (elf_header first_bytes).phoff
unfolding le
table_at = refl

magic_at : (elf_header first_bytes).magic ≡ elf_magic
unfolding le
magic_at = refl

load_bincode_from_host_elf-load_all_example :
    load_bincode_from_host_elf host junk 0 (kernel none 0)
    ≡ (load_all host opened_app (loadable header_at 0 (elf_header first_bytes).phnum)
          >>= entered 0 (elf_header first_bytes).entry_point)
        (kernel none 0)
load_bincode_from_host_elf-load_all_example =
    load_bincode_from_host_elf-load_all host junk 0 (λ i. if i == 0 then 2 else i) first_bytes
      header_at 64 (kernel none 0) refl (omega arith) (omega arith) refl refl magic_at table_at
      one_header
