-- ===== src/Elf/Table.antt =====
-- The loop of `elf_load` (kernel/elf.c) over the table of program headers.
use mypkecode.Base.{
  ℕ, zero, suc, ◌+◌, ◌*◌, ◌%◌, ◌^◌, ◌≤◌, ◌<◌, ◌≡◌, refl, ap, ◌∙◌, not, List, [], ◌∷◌, ◌==◌,
  if◌then◌else◌, arith, fun_ext, ltb, pure, ◌>>=◌, and_then, and_then-and_then, Bool-cases, inl,
  inr,
}
use mypkecode.Kernel.{Kernel, KernelCmd}
use mypkecode.Proc.Fork.{as_int}
use mypkecode.Host.{Buffer, Host, delivered_bytes}
use mypkecode.Elf.{
  ElfStatus, el_ok, el_eio, ElfCtx, ProgHeader, elf_header, prog_header, prog_header_size,
  elf_prog_load, where_ok, load_segment, load_round, load_loop, elf_load,
}
use mypkecode.Elf.Words.{le}

-- The headers of the segments to be loaded, where `b i` are the bytes of header `i`.
unfoldable pub loadable : (ℕ → Buffer) → (i n : ℕ) → List ProgHeader
loadable b i zero = []
loadable b i (suc n) =
    if (prog_header (b i)).p_type == elf_prog_load
    then prog_header (b i) ∷ loadable b (suc i) n
    else loadable b (suc i) n

-- The segments are loaded in order, up to the first that fails.
unfoldable pub load_all : Host → ElfCtx → List ProgHeader → KernelCmd ElfStatus
load_all host ctx [] = pure el_ok
load_all host ctx (ph ∷ phs) = do
  status ← load_segment host ctx ph
  where_ok status (load_all host ctx phs)

module _ (host : Host) (ctx : ElfCtx) (b : ℕ → Buffer) (phoff : ℕ) where
  -- The host delivers the headers from `i` to `i + n`, which lie below 2^31.
  pub record Delivers (i n : ℕ) : Type 0 where
    pub low : phoff + prog_header_size * (i + n) < 2 ^ 31
    pub reads :
        (h : ℕ)
        → i ≤ h
        → h < i + n
        → host.pread ctx.file prog_header_size (phoff + prog_header_size * h)
          ≡ (prog_header_size, b h)

  -- The bytes of `ph_addr` after a header is read over the bytes `old`.
  abbrev over : (c old : Buffer) → Buffer
  over c old h = if ltb h prog_header_size then c h else old h

  load_round-delivered :
      (c old : Buffer) (off : ℕ) (k : Kernel)
      → host.pread ctx.file prog_header_size (as_int off) ≡ (prog_header_size, c)
      → load_round host ctx old off k
        ≡ (if not ((prog_header c).p_type == elf_prog_load)
              then pure (el_ok, over c old)
              else (load_segment host ctx (prog_header c) >>= λ status. pure (status, over c old)))
            k
  unfolding load_round le
  load_round-delivered c old off k e =
      ap
        (λ (q : ℕ × Buffer).
          let q' : ℕ × Buffer =
            (q.0, λ h. if ltb h (delivered_bytes prog_header_size q.0) then q.1 h else old h) in
          (if not (q'.0 == prog_header_size)
              then pure (el_eio, q'.1)
              else if not ((prog_header q'.1).p_type == elf_prog_load)
              then pure (el_ok, q'.1)
              else (load_segment host ctx (prog_header q'.1) >>= λ status. pure (status, q'.1)))
            k)
        e

  load_loop-load_all :
      (n i : ℕ) (old : Buffer) (k : Kernel)
      → Delivers i n
      → load_loop host ctx n (phoff + prog_header_size * i) old k
        ≡ load_all host ctx (loadable b i n) k
  unfolding load_loop load_all loadable
  load_loop-load_all zero i old k d = refl
  load_loop-load_all (suc n) i old k d =
      let off = phoff + prog_header_size * i in
      let same : as_int off ≡ off = ground (arith, d.low) in
      let read : host.pread ctx.file prog_header_size (as_int off) ≡ (prog_header_size, b i) =
        rw same (d.reads i (omega arith) (omega arith)) in
      let next : (off + prog_header_size) % 2 ^ 32 ≡ phoff + prog_header_size * suc i =
        omega (arith, d.low) in
      let d' : Delivers (suc i) n = record {
        low = omega (arith, d.low);
        reads = λ h le lt. d.reads h (omega (arith, le)) (omega (arith, lt));
      } in
      let rest : (k' : Kernel)
          → load_loop host ctx n (phoff + prog_header_size * suc i) (over (b i) old) k'
            ≡ load_all host ctx (loadable b (suc i) n) k' =
        λ k'. load_loop-load_all n (suc i) (over (b i) old) k' d' in
      rw (load_round-delivered (b i) old off k read, next)
        (elim (Bool-cases ((prog_header (b i)).p_type == elf_prog_load)) [
          | inl load ↦ rw load (
              and_then-and_then (load_segment host ctx (prog_header (b i)) k) _ _
              ∙ ap (λ f. and_then (load_segment host ctx (prog_header (b i)) k) f)
                  (fun_ext λ status. ap (where_ok status) (fun_ext rest)))
          | inr skip ↦ rw skip (rest k)
        ])

  -- Let the host deliver every program header of the table, and let the table lie below 2^31 in the
  -- file. Then `elf_load`, with its `int` offset and its variable that is read over and over, loads
  -- the segments that the headers of type LOAD describe, each once and in the order of the table, up
  -- to the first that fails, whose status it returns; and it returns EL_OK where none fails.
  pub elf_load-load_all :
      (old : Buffer) (k : Kernel)
      → phoff ≡ (elf_header ctx.ehdr).phoff
      → Delivers 0 (elf_header ctx.ehdr).phnum
      → elf_load host ctx old k ≡ load_all host ctx (loadable b 0 (elf_header ctx.ehdr).phnum) k
  unfolding elf_load
  elf_load-load_all old k at d =
      let n = (elf_header ctx.ehdr).phnum in
      let start : (elf_header ctx.ehdr).phoff % 2 ^ 32 ≡ phoff + prog_header_size * 0 =
        ground (arith, d.low, at) in
      ap (λ off. load_loop host ctx n off old k) start ∙ load_loop-load_all n 0 old k d
