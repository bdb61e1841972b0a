-- ===== src/Elf.antt =====
-- kernel/elf.c and kernel/elf.h: the application's ELF file is read from the host, and its segments
-- are loaded, one page for each.
pub mod Words
pub mod Region
pub mod Load
pub mod Table
pub mod Bincode
use mypkecode.Base.{
  ℕ, zero, suc, ◌+◌, ◌-◌, ◌*◌, ◌/◌, ◌%◌, ◌^◌, Bool, true, false, not, ◌&&◌, ◌||◌, Option, none,
  some, bit_or, ltb, leb, ◌==◌, if◌then◌else◌,
}
use mypkecode.Base.{Run, ok, panic, fault, pure, stop, ◌>>=◌, ◌>>◌}
use mypkecode.Base.Words.{u64}
use mypkecode.Phys.{pgsize, PhysCmd, load, store, memset_zero}
use mypkecode.Pmm.{alloc_page}
use mypkecode.Vmm.{prot_read, prot_write, prot_exec, prot_to_type, user_vm_map}
use mypkecode.Kernel.{Process, Kernel, KernelCmd, lift, gets, set_proc}
use mypkecode.Trapframe.{off_epc}
use mypkecode.Proc.{code_segment, data_segment, get_va}
use mypkecode.Proc.Fork.{as_int}
use mypkecode.Host.{Buffer, Host, is_err_value, delivered_bytes}
use mypkecode.Elf.Words.{le, read_into}

-- `elf_header`, and how its fields lie in the bytes of the struct.
pub record ElfHeader : Type 0 where
  pub magic : ℕ
  pub e_type : ℕ
  pub e_machine : ℕ
  pub version : ℕ
  pub entry_point : ℕ
  pub phoff : ℕ
  pub shoff : ℕ
  pub e_flags : ℕ
  pub ehsize : ℕ
  pub phentsize : ℕ
  pub phnum : ℕ
  pub shentsize : ℕ
  pub shnum : ℕ
  pub shstrndx : ℕ

abbrev pub elf_header : Buffer → ElfHeader
elf_header b = record {
  magic = le 4 b 0;
  e_type = le 2 b 16;
  e_machine = le 2 b 18;
  version = le 4 b 20;
  entry_point = le 8 b 24;
  phoff = le 8 b 32;
  shoff = le 8 b 40;
  e_flags = le 4 b 48;
  ehsize = le 2 b 52;
  phentsize = le 2 b 54;
  phnum = le 2 b 56;
  shentsize = le 2 b 58;
  shnum = le 2 b 60;
  shstrndx = le 2 b 62;
}

abbrev pub header_size : ℕ
header_size = 64

-- `elf_prog_header`
pub record ProgHeader : Type 0 where
  pub p_type : ℕ
  pub p_flags : ℕ
  pub off : ℕ
  pub vaddr : ℕ
  pub paddr : ℕ
  pub filesz : ℕ
  pub memsz : ℕ
  pub align : ℕ

abbrev pub prog_header : Buffer → ProgHeader
prog_header b = record {
  p_type = le 4 b 0;
  p_flags = le 4 b 4;
  off = le 8 b 8;
  vaddr = le 8 b 16;
  paddr = le 8 b 24;
  filesz = le 8 b 32;
  memsz = le 8 b 40;
  align = le 8 b 48;
}

abbrev pub prog_header_size : ℕ
prog_header_size = 56

abbrev pub segment_readable : ℕ
segment_readable = 4

abbrev pub segment_executable : ℕ
segment_executable = 1

abbrev pub segment_writable : ℕ
segment_writable = 2

abbrev pub elf_magic : ℕ
elf_magic = 0x464C457F

abbrev pub elf_prog_load : ℕ
elf_prog_load = 1

-- `elf_status`
pub data ElfStatus : Type 0 where
  el_ok el_eio el_enomem el_notelf el_err : ElfStatus

-- `elf_ctx` with the `elf_info` that it points to: the host file, the process, and the bytes of the
-- header.
pub record ElfCtx : Type 0 where
  pub file : ℕ
  pub proc : ℕ
  pub ehdr : Buffer

unfoldable pub elf_alloc_mb : ElfCtx → (elf_pa elf_va size : ℕ) → KernelCmd ℕ
elf_alloc_mb ctx elf_pa elf_va size =
    if ltb size pgsize
    then (do
      pa ← lift alloc_page
      if pa == 0 then stop else (do
        lift (memset_zero pa pgsize)
        p ← gets (λ k. k.procs ctx.proc)
        lift (
            user_vm_map p.pagetable elf_va pgsize pa
              (prot_to_type (bit_or (bit_or prot_write prot_read) prot_exec) true))
        pure pa))
    else stop

-- The loop that looks for an unused region, with `n` of the table left.
unfoldable pub find_region : (n j info : ℕ) → KernelCmd ℕ
find_region zero j info = pure j
find_region (suc n) j info = do
  va ← get_va info j
  if va == 0 then pure j else find_region n (suc j) info

-- The assignments to `npages` and `seg_type`, the two halves of a word.
abbrev pub set_npages : (info j npages : ℕ) → KernelCmd (Unit {0})
set_npages info j npages = do
  w ← lift (load (info + 16 * j + 8))
  lift (store (info + 16 * j + 8) (w / 2 ^ 32 * 2 ^ 32 + npages))

abbrev pub set_seg_type : (info j seg_type : ℕ) → KernelCmd (Unit {0})
set_seg_type info j seg_type = do
  w ← lift (load (info + 16 * j + 8))
  lift (store (info + 16 * j + 8) (w % 2 ^ 32 + seg_type * 2 ^ 32))

-- The kind of a segment, from its flags.
abbrev pub segment_of : (flags : ℕ) → Option ℕ
segment_of flags =
    if flags == bit_or segment_readable segment_executable
    then some code_segment
    else if flags == bit_or segment_readable segment_writable
    then some data_segment
    else none

unfoldable pub set_kind : (info j : ℕ) → Option ℕ → KernelCmd (Unit {0})
set_kind info j none = stop
set_kind info j (some seg) = set_seg_type info j seg

-- The part of the loop of `elf_load` that records a segment.
unfoldable pub record_region : (proc : ℕ) → ProgHeader → KernelCmd (Unit {0})
record_region proc ph = do
  p ← gets (λ k. k.procs proc)
  j ← find_region 256 0 p.mapped_info
  lift (store (p.mapped_info + 16 * j) ph.vaddr)
  set_npages p.mapped_info j 1
  set_kind p.mapped_info j (segment_of ph.p_flags)
  set_proc proc (λ q. record q { total_mapped_region = q.total_mapped_region + 1 })

-- The tests of `elf_load` on the header of a segment to be loaded.
abbrev pub bad_segment : ProgHeader → Bool
bad_segment ph = ltb ph.memsz ph.filesz || ltb (u64 (ph.vaddr + ph.memsz)) ph.vaddr

-- A status that is not `EL_OK` is returned at once.
abbrev pub where_ok : ElfStatus → KernelCmd ElfStatus → KernelCmd ElfStatus
where_ok el_ok rest = rest
where_ok el_eio rest = pure el_eio
where_ok el_enomem rest = pure el_enomem
where_ok el_notelf rest = pure el_notelf
where_ok el_err rest = pure el_err

abbrev pub is_ok : ElfStatus → Bool
is_ok el_ok = true
is_ok _ = false

module _ (host : Host) where
  -- `elf_fpread` into a variable of the kernel: the result, and the variable's bytes.
  abbrev pub elf_fpread : ElfCtx → Buffer → (nb offset : ℕ) → ℕ × Buffer
  elf_fpread ctx old nb offset =
      let (ret, bytes) = host.pread ctx.file nb offset in
      (ret, λ i. if ltb i (delivered_bytes nb ret) then bytes i else old i)

  -- `elf_fpread` into memory.
  unfoldable pub fpread_page : ElfCtx → (dest nb offset : ℕ) → KernelCmd ℕ
  fpread_page ctx dest nb offset =
      let (ret, bytes) = host.pread ctx.file nb offset in
      lift (λ s. ok ret (record s { mem = read_into s.mem dest bytes (delivered_bytes nb ret) }))

  unfoldable pub elf_init : (file proc : ℕ) → Buffer → ElfStatus × ElfCtx
  elf_init file proc old =
      let ctx : ElfCtx = record { file = file; proc = proc; ehdr = old } in
      let (ret, bytes) = elf_fpread ctx old header_size 0 in
      let ctx' : ElfCtx = record { file = file; proc = proc; ehdr = bytes } in
      (
        if not (ret == header_size)
            then el_eio
            else if not ((elf_header bytes).magic == elf_magic)
            then el_notelf
            else el_ok,
        ctx',
      )

  -- A segment that is to be loaded. The status is `el_ok` where the loop goes on.
  unfoldable pub load_segment : ElfCtx → ProgHeader → KernelCmd ElfStatus
  load_segment ctx ph = if bad_segment ph then pure el_err else (do
    dest ← elf_alloc_mb ctx ph.vaddr ph.vaddr ph.memsz
    ret ← fpread_page ctx dest ph.memsz ph.off
    if not (ret == ph.memsz) then pure el_eio else (do record_region ctx.proc ph; pure el_ok))

  -- One round of the loop; the variable `ph_addr` keeps its bytes from the round before.
  unfoldable pub load_round : ElfCtx → Buffer → (off : ℕ) → KernelCmd (ElfStatus × Buffer)
  load_round ctx old off =
      let (ret, bytes) = elf_fpread ctx old prog_header_size (as_int off) in
      if not (ret == prog_header_size)
      then pure (el_eio, bytes)
      else if not ((prog_header bytes).p_type == elf_prog_load)
      then pure (el_ok, bytes)
      else (do status ← load_segment ctx (prog_header bytes); pure (status, bytes))

  -- The loop over the program headers, with `n` of them left; `off` is an `int`.
  unfoldable pub load_loop : ElfCtx → (n off : ℕ) → Buffer → KernelCmd ElfStatus
  load_loop ctx zero off old = pure el_ok
  load_loop ctx (suc n) off old = do
    (status, bytes) ← load_round ctx old off
    where_ok status (load_loop ctx n ((off + prog_header_size) % 2 ^ 32) bytes)

  unfoldable pub elf_load : ElfCtx → Buffer → KernelCmd ElfStatus
  elf_load ctx old = let h = elf_header ctx.ehdr in load_loop ctx h.phnum (h.phoff % 2 ^ 32) old

  -- The loop of `parse_args` that moves the arguments down, with `n` of them left.
  unfoldable pub copy_args : (n i : ℕ) → Buffer → Buffer
  copy_args zero i buf = buf
  copy_args (suc n) i buf = copy_args n (suc i) (λ a. if a == i then buf (i + 2) else buf a)

  -- The number of arguments behind the kernel's name, and the buffer.
  unfoldable pub parse_args : KernelCmd (ℕ × Buffer)
  parse_args =
      let (r, buf) = host.getmainvars in
      if r == 0 then pure (u64 (buf 0 + 2 ^ 64 - 1), copy_args (buf 0 - 1) 0 buf) else stop

  -- The two variables are not initialised: `junk` stands for what the stack holds.
  unfoldable pub load_bincode_from_host_elf : (junk : Buffer) (p : ℕ) → KernelCmd (Unit {0})
  load_bincode_from_host_elf junk p = do
    (argc, argv) ← parse_args
    if argc == 0 then stop else if is_err_value (host.open_file (argv 0)) then stop else (do
      let (status, ctx) = elf_init (host.open_file (argv 0)) p junk
      if not (is_ok status) then stop else (do
        status' ← elf_load ctx junk
        if not (is_ok status') then stop else (do
          q ← gets (λ k. k.procs p)
          lift (store (q.trapframe + off_epc) (elf_header ctx.ehdr).entry_point))))
