-- ===== src/Elf/Bincode.antt =====
-- `load_bincode_from_host_elf` (kernel/elf.c) from the arguments of the kernel to the entry point.
use mypkecode.Base.{
  ℕ, zero, suc, ◌+◌, ◌-◌, ◌^◌, ◌≤◌, ◌<◌, ◌≡◌, refl, ap, ◌∙◌, Bool, true, false, not, ◌==◌, ltb,
  if◌then◌else◌, arith, pure, stop, ◌>>=◌, and_then,
}
use mypkecode.Base.Words.{u64}
use mypkecode.Phys.{store}
use mypkecode.Kernel.{Kernel, KernelCmd, lift, gets}
use mypkecode.Trapframe.{off_epc}
use mypkecode.Host.{Buffer, Host, is_err_value, delivered_bytes}
use mypkecode.Elf.{
  ElfStatus, el_ok, el_eio, el_notelf, ElfCtx, elf_header, header_size, elf_magic, elf_init,
  elf_load, is_ok, copy_args, parse_args, load_bincode_from_host_elf,
}
use mypkecode.Elf.Words.{le}
use mypkecode.Elf.Table.{Delivers, loadable, load_all, elf_load-load_all}

copy_args-below :
    (host : Host) (n i : ℕ) (buf : Buffer) (a : ℕ) → a < i → copy_args host n i buf a ≡ buf a
unfolding copy_args
copy_args-below host zero i buf a lt = refl
copy_args-below host (suc n) i buf a lt =
    copy_args-below host n (suc i) _ a (omega (arith, lt)) ∙ ground (arith, lt)

-- The first argument behind the kernel's name.
copy_args-first : (host : Host) (n : ℕ) (buf : Buffer) → 0 < n → copy_args host n 0 buf 0 ≡ buf 2
unfolding copy_args
copy_args-first host zero buf lt = absurd (omega (arith, lt))
copy_args-first host (suc n) buf lt = copy_args-below host n 1 _ 0 (omega arith)

-- The entry point of the program is where the process goes on, if the segments are loaded.
abbrev pub entered : (p entry : ℕ) → ElfStatus → KernelCmd (Unit {0})
entered p entry status =
    if not (is_ok status)
    then stop
    else (do q ← gets (λ k. k.procs p); lift (store (q.trapframe + off_epc) entry))

-- The header of the file over the bytes that stand in the variable before.
abbrev pub opened : (f p : ℕ) (header junk : Buffer) → ElfCtx
opened f p header junk = record {
  file = f;
  proc = p;
  ehdr = λ i. if ltb i header_size then header i else junk i;
}

-- What follows the arguments.
abbrev from_args : (host : Host) (junk : Buffer) (p argc name : ℕ) → KernelCmd (Unit {0})
from_args host junk p argc name =
    if argc == 0 then stop else if is_err_value (host.open_file name) then stop else (do
      let (status, ctx) = elf_init host (host.open_file name) p junk
      if not (is_ok status) then stop else (do
        status' ← elf_load host ctx junk
        entered p (elf_header ctx.ehdr).entry_point status'))

load_bincode-from_args :
    (host : Host) (junk : Buffer) (p : ℕ) (buf : Buffer) (k : Kernel)
    → host.getmainvars ≡ (0, buf)
    → load_bincode_from_host_elf host junk p k
      ≡ from_args host junk p (u64 (buf 0 + 2 ^ 64 - 1)) (copy_args host (buf 0 - 1) 0 buf 0) k
unfolding load_bincode_from_host_elf parse_args
load_bincode-from_args host junk p buf k e =
    ap
      (λ (q : ℕ × Buffer).
        ((if q.0 == 0
              then pure (u64 (q.1 0 + 2 ^ 64 - 1), copy_args host (q.1 0 - 1) 0 q.1)
              else stop)
            >>= λ (r : ℕ × Buffer). from_args host junk p r.0 (r.1 0))
          k)
      e

elf_init-opened :
    (host : Host) (f p : ℕ) (header junk : Buffer)
    → host.pread f header_size 0 ≡ (header_size, header)
    → (elf_header header).magic ≡ elf_magic
    → elf_init host f p junk ≡ (el_ok, opened f p header junk)
unfolding elf_init le
elf_init-opened host f p header junk e magic =
    let found : ((elf_header header).magic == elf_magic) ≡ true = rw magic refl in
    ap
      (λ (q : ℕ × Buffer).
        let ctx : ElfCtx = record {
          file = f;
          proc = p;
          ehdr = λ i. if ltb i (delivered_bytes header_size q.0) then q.1 i else junk i;
        } in
        let status : ElfStatus =
          if not (q.0 == header_size)
          then el_eio
          else if not ((elf_header ctx.ehdr).magic == elf_magic)
          then el_notelf
          else el_ok in
        let result : ElfStatus × ElfCtx = (status, ctx) in result)
      e
    ∙ ap (λ (b : Bool). ((if not b then el_notelf else el_ok), opened f p header junk)) found

-- What follows the reading of the file's header.
abbrev from_header :
    (host : Host) (junk : Buffer) (p : ℕ) → ElfStatus × ElfCtx → KernelCmd (Unit {0})
from_header host junk p (status, ctx) =
    if not (is_ok status)
    then stop
    else (do status' ← elf_load host ctx junk; entered p (elf_header ctx.ehdr).entry_point status')

-- Let the host name an application behind the kernel and open its file, let it deliver a whole ELF
-- header with the magic number and every program header, in a table that lies below 2^31. Then
-- `load_bincode_from_host_elf` loads the segments of type LOAD, each once and in the order of the
-- table, and sets the epc in the trapframe of `p` to the entry point of the file; where a segment
-- cannot be loaded the machine stops.
pub load_bincode_from_host_elf-load_all :
    (host : Host) (junk : Buffer) (p : ℕ) (buf header : Buffer) (b : ℕ → Buffer) (phoff : ℕ)
    (k : Kernel)
    → host.getmainvars ≡ (0, buf)
    → 2 ≤ buf 0
    → buf 0 < 2 ^ 64
    → is_err_value (host.open_file (buf 2)) ≡ false
    → host.pread (host.open_file (buf 2)) header_size 0 ≡ (header_size, header)
    → (elf_header header).magic ≡ elf_magic
    → phoff ≡ (elf_header header).phoff
    → Delivers host
        (opened (host.open_file (buf 2)) p header junk)
        b
        phoff
        0
        (elf_header header).phnum
    → load_bincode_from_host_elf host junk p k
      ≡ (load_all host
              (opened (host.open_file (buf 2)) p header junk)
              (loadable b 0 (elf_header header).phnum)
            >>= entered p (elf_header header).entry_point)
          k
unfolding le
load_bincode_from_host_elf-load_all host junk p buf header b phoff k args two low opens read magic
      at d =
    let some_args : (u64 (buf 0 + 2 ^ 64 - 1) == 0) ≡ false = ground (arith, two, low) in
    let name : copy_args host (buf 0 - 1) 0 buf 0 ≡ buf 2 =
      copy_args-first host (buf 0 - 1) buf (omega (arith, two)) in
    let file = host.open_file (buf 2) in
    load_bincode-from_args host junk p buf k args
    ∙ ap (λ n. from_args host junk p (u64 (buf 0 + 2 ^ 64 - 1)) n k) name
    ∙ ap
        (λ (e : Bool).
          (if e
              then stop
              else if is_err_value file
              then stop
              else from_header host junk p (elf_init host file p junk))
            k)
        some_args
    ∙ ap (λ (e : Bool). (if e then stop else from_header host junk p (elf_init host file p junk)) k)
        opens
    ∙ ap (λ r. from_header host junk p r k) (elf_init-opened host file p header junk read magic)
    ∙ ap (λ r. and_then r (entered p (elf_header header).entry_point))
        (elf_load-load_all host (opened file p header junk) b phoff junk k at d)
