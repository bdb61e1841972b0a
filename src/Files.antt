-- ===== src/Files.antt =====
-- spike_interface/spike_file.c: the table of host files and the table of descriptors. A `spike_file_t *`
-- is an index of `spike_files[]` or NULL. The host is a parameter; `fault` is an access outside an array
-- or through NULL.
pub mod Counts
pub mod Leak
pub mod Standard
use mypkecode.Base.{
  ℕ, zero, suc, ◌+◌, ◌-◌, ◌*◌, ◌/◌, ◌%◌, ◌^◌, Bool, true, false, not, Option, none, some, ltb, ◌==◌,
  if◌then◌else◌,
}
use mypkecode.Base.{Run, ok, panic, fault, Cmd, pure, stop, ◌>>=◌, ◌>>◌}
use mypkecode.Proc.Fork.{as_int}

abbrev pub max_files : ℕ
max_files = 128

abbrev pub max_fds : ℕ
max_fds = 128

abbrev pub init_file_ref : ℕ
init_file_ref = 3

abbrev pub enomem : ℕ
enomem = 12

abbrev pub o_rdonly : ℕ
o_rdonly = 0

-- The numbers of the calls to the host, and `AT_FDCWD` as an `int`.
abbrev pub htifsys_read : ℕ
htifsys_read = 63

abbrev pub htifsys_write : ℕ
htifsys_write = 64

abbrev pub htifsys_pread : ℕ
htifsys_pread = 67

abbrev pub htifsys_lseek : ℕ
htifsys_lseek = 62

abbrev pub htifsys_openat : ℕ
htifsys_openat = 56

abbrev pub htifsys_close : ℕ
htifsys_close = 57

abbrev pub at_fdcwd : ℕ
at_fdcwd = 2 ^ 64 - 100

-- A slot of `spike_files[]`: the host's descriptor as an int32, and the uint32 count.
pub record SpikeFile : Type 0 where
  pub kfd : ℕ
  pub refcnt : ℕ

pub record Files (H : Type 0) : Type 0 where
  pub fds : ℕ → Option ℕ
  pub files : ℕ → SpikeFile
  pub host : H

-- The two tables as the program starts with them.
abbrev pub empty_files : {H : Type 0} → H → Files H
empty_files host = record {
  fds = λ d. none;
  files = λ f. record { kfd = 2 ^ 32 - 1; refcnt = 0 };
  host = host;
}

-- What `spike_file_openat` returns: a pointer, or an error as a word (`ERR_PTR`).
pub data Opened : Type 0 where
  opened : (f : ℕ) → Opened
  failed : (error : ℕ) → Opened

unfoldable pub set_file : (ℕ → SpikeFile) → ℕ → SpikeFile → ℕ → SpikeFile
set_file files f s g = if f == g then s else files g

unfoldable pub set_fd : (ℕ → Option ℕ) → ℕ → Option ℕ → ℕ → Option ℕ
set_fd fds d f e = if d == e then f else fds e

abbrev pub same_file : Option ℕ → ℕ → Bool
same_file none f = false
same_file (some g) f = g == f

abbrev pub is_null : Option ℕ → Bool
is_null none = true
is_null (some g) = false

module _ {H : Type 0} (frontend_syscall : (n a0 a1 a2 a3 a4 : ℕ) → H → ℕ × H) where
  abbrev pub FilesCmd : Type 0 → Type 0
  FilesCmd = Cmd (Files H)

  abbrev call : (n a0 a1 a2 a3 a4 : ℕ) → FilesCmd ℕ
  call n a0 a1 a2 a3 a4 s =
      let (ret, host) = frontend_syscall n a0 a1 a2 a3 a4 s.host in
      ok ret (record s { host = host })

  -- `atomic_add(&f->refcnt, inc)`: the count before.
  abbrev pub add_count : (f inc : ℕ) → FilesCmd ℕ
  add_count f inc s = ok (s.files f).refcnt (record s {
    files =
        set_file s.files f (record (s.files f) { refcnt = ((s.files f).refcnt + inc) % 2 ^ 32 });
  })

  abbrev pub set_count : (f v : ℕ) → FilesCmd (Unit {0})
  set_count f v s =
      ok tt (record s { files = set_file s.files f (record (s.files f) { refcnt = v }) })

  unfoldable pub spike_file_decref : (f : ℕ) → FilesCmd (Unit {0})
  spike_file_decref f = do
    prev ← add_count f (2 ^ 32 - 1)
    if prev == 2
        then (λ s.
            (do set_count f 0; call htifsys_close (as_int (s.files f).kfd) 0 0 0 0; pure tt) s)
        else pure tt

  unfoldable pub spike_file_incref : (f : ℕ) → FilesCmd (Unit {0})
  spike_file_incref f = do prev ← add_count f 1; if ltb 0 prev then pure tt else stop

  -- `atomic_cas(&spike_fds[d], f, 0)`: the entry before.
  abbrev pub take_fd : (d f : ℕ) → FilesCmd (Option ℕ)
  take_fd d f s =
      if ltb d max_fds
      then ok (s.fds d)
          (if same_file (s.fds d) f then record s { fds = set_fd s.fds d none } else s)
      else fault

  -- The value is that of an `int`, 2^32 - 1 for -1.
  unfoldable pub spike_file_close : Option ℕ → FilesCmd ℕ
  spike_file_close none s = ok (2 ^ 32 - 1) s
  spike_file_close (some f) s =
      (do
        old ← take_fd (s.files f).kfd f
        spike_file_decref f
        if not (same_file old f) then pure (2 ^ 32 - 1) else (do spike_file_decref f; pure 0))
        s

  -- The loop over the files, from `f` on with `n` of them left.
  unfoldable pub get_free_loop : (n f : ℕ) → FilesCmd (Option ℕ)
  get_free_loop zero f s = ok none s
  get_free_loop (suc n) f s =
      let rest = get_free_loop n (suc f) s in
      if (s.files f).refcnt == 0 then (set_count f init_file_ref >> pure (some f)) s else rest

  unfoldable pub spike_file_get_free : FilesCmd (Option ℕ)
  spike_file_get_free = get_free_loop max_files 0

  -- The loop over the descriptors, from `i` on with `n` of them left.
  unfoldable pub dup_loop : (n i f : ℕ) → FilesCmd ℕ
  dup_loop zero i f s = ok (2 ^ 32 - 1) s
  dup_loop (suc n) i f s =
      let rest = dup_loop n (suc i) f s in
      if is_null (s.fds i)
      then (spike_file_incref f >> pure i) (record s { fds = set_fd s.fds i (some f) })
      else rest

  unfoldable pub spike_file_dup : (f : ℕ) → FilesCmd ℕ
  spike_file_dup f = dup_loop max_fds 0 f

  abbrev pub set_kfd : (f kfd : ℕ) → FilesCmd (Unit {0})
  set_kfd f kfd s =
      ok tt (record s { files = set_file s.files f (record (s.files f) { kfd = kfd % 2 ^ 32 }) })

  abbrev pub init_one : (i : ℕ) → Option ℕ → FilesCmd (Unit {0})
  init_one i none s = fault
  init_one i (some f) s = (do set_kfd f i; spike_file_dup f; pure tt) s

  -- The loop over the three standard files, with `n` of them left.
  unfoldable pub init_loop : (n i : ℕ) → FilesCmd (Unit {0})
  init_loop zero i = pure tt
  init_loop (suc n) i = do f ← spike_file_get_free; init_one i f; init_loop n (suc i)

  unfoldable pub spike_file_init : FilesCmd (Unit {0})
  spike_file_init = init_loop 3 0

  abbrev pub open_in : (dirfd fn fn_size flags mode : ℕ) → Option ℕ → FilesCmd Opened
  open_in dirfd fn fn_size flags mode none s = ok (failed (2 ^ 64 - enomem)) s
  open_in dirfd fn fn_size flags mode (some f) s =
      (do
        ret ← call htifsys_openat dirfd fn fn_size flags mode
        if ltb ret (2 ^ 63)
            then (do set_kfd f ret; pure (opened f))
            else (do spike_file_decref f; pure (failed ret)))
        s

  -- `len` is the length of the name at `fn`.
  unfoldable pub spike_file_openat : (dirfd fn len flags mode : ℕ) → FilesCmd Opened
  spike_file_openat dirfd fn len flags mode = do
    f ← spike_file_get_free
    open_in dirfd fn (len + 1) flags mode f

  unfoldable pub spike_file_open : (fn len flags mode : ℕ) → FilesCmd Opened
  spike_file_open fn len flags mode = spike_file_openat at_fdcwd fn len flags mode

  unfoldable pub spike_file_write : (f buf size : ℕ) → FilesCmd ℕ
  spike_file_write f buf size s = call htifsys_write (as_int (s.files f).kfd) buf size 0 0 s

  unfoldable pub spike_file_read : (f buf size : ℕ) → FilesCmd ℕ
  spike_file_read f buf size s = call htifsys_read (as_int (s.files f).kfd) buf size 0 0 s

  unfoldable pub spike_file_pread : (f buf size offset : ℕ) → FilesCmd ℕ
  spike_file_pread f buf size offset s =
      call htifsys_pread (as_int (s.files f).kfd) buf size offset 0 s

  unfoldable pub spike_file_lseek : (f ptr dir : ℕ) → FilesCmd ℕ
  spike_file_lseek f ptr dir s = call htifsys_lseek (as_int (s.files f).kfd) ptr dir 0 0 s
