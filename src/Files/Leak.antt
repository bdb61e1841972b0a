-- ===== src/Files/Leak.antt =====
-- A file that is opened and closed (spike_interface/spike_file.c), as the loader does
-- (kernel/elf.c, load_bincode_from_host_elf).
use mypkecode.Base.{
  ℕ, zero, suc, ◌+◌, ◌-◌, ◌%◌, ◌^◌, ◌<◌, ◌≡◌, ◌≢◌, refl, true, false, some, ltb, ◌==◌, arith, ok,
  Bool-cases, inl, inr, fun_ext,
}
use mypkecode.Files.{
  SpikeFile, Files, opened, set_file, same_file, init_file_ref, max_files, htifsys_openat,
  spike_file_decref, spike_file_close, get_free_loop, spike_file_get_free, spike_file_openat,
}

set_file-set_file :
    (files : ℕ → SpikeFile) (f : ℕ) (v w : SpikeFile)
    → set_file (set_file files f v) f w ≡ set_file files f w
unfolding set_file
set_file-set_file files f v w =
    fun_ext λ g. elim (Bool-cases (f == g)) [ inl e ↦ rw e refl | inr e ↦ rw e refl ]

set_file_self : (files : ℕ → SpikeFile) (f : ℕ) (v : SpikeFile) → set_file files f v f ≡ v
unfolding set_file
set_file_self files f v = let e : (f == f) ≡ true = ground arith in rw e refl

-- The first free slot is slot `f`.
pub record FirstFree (files : ℕ → SpikeFile) (f : ℕ) : Type 0 where
  pub inside : f < max_files
  pub used : (g : ℕ) → g < f → (files g).refcnt ≢ 0
  pub unused : (files f).refcnt ≡ 0

module _ {H : Type 0} (frontend_syscall : (n a0 a1 a2 a3 a4 : ℕ) → H → ℕ × H) where
  get_free_loop-first :
      (n f d : ℕ) (s : Files H)
      → d < n
      → ((g : ℕ) → g < f + d → (s.files g).refcnt ≢ 0)
      → (s.files (f + d)).refcnt ≡ 0
      → get_free_loop frontend_syscall n f s
        ≡ ok (some (f + d)) (record s {
          files = set_file s.files (f + d) (record (s.files (f + d)) { refcnt = init_file_ref });
        })
  unfolding get_free_loop
  get_free_loop-first zero f d s lt used unused = absurd (omega arith)
  get_free_loop-first (suc n) f zero s lt used unused =
      let e : f + 0 ≡ f = omega arith in
      let free : ((s.files f).refcnt == 0) ≡ true = ground (arith, rw e at unused) in
      rw (free, e) refl
  get_free_loop-first (suc n) f (suc d) s lt used unused =
      let e : suc f + d ≡ f + suc d = omega arith in
      let busy : ((s.files f).refcnt == 0) ≡ false = ground (arith, used f (omega arith)) in
      rw (busy)
        (rw e at (get_free_loop-first n (suc f) d s (omega (arith, lt)) (rw e used) (rw e unused)))

  -- The table after slot `f` was opened, and after it was closed.
  abbrev pub left_open : Files H → (f kfd : ℕ) → H → Files H
  left_open s f kfd host = record {
    fds = s.fds;
    files = set_file s.files f (record { kfd = kfd; refcnt = 3 });
    host = host;
  }

  abbrev pub left_closed : Files H → (f kfd : ℕ) → H → Files H
  left_closed s f kfd host = record {
    fds = s.fds;
    files = set_file s.files f (record { kfd = kfd; refcnt = 2 });
    host = host;
  }

  -- Let the host open a file as its descriptor `ret` below the number of descriptors, and let the entry
  -- of that number not point to slot `f`, the first free one. Then `spike_file_openat` gives slot `f`
  -- with three references; `spike_file_close` of it returns -1, does not call the host, and leaves two
  -- references, so that the slot is not free again.
  pub close-openat :
      (s : Files H) (dirfd fn len flags mode f ret : ℕ) (host : H)
      → FirstFree s.files f
      → frontend_syscall htifsys_openat dirfd fn (len + 1) flags mode s.host ≡ (ret, host)
      → ret < 128
      → same_file (s.fds ret) f ≡ false
      → (spike_file_openat frontend_syscall dirfd fn len flags mode s
          ≡ ok (opened f) (left_open s f ret host))
        × (spike_file_close frontend_syscall (some f) (left_open s f ret host)
            ≡ ok (2 ^ 32 - 1) (left_closed s f ret host))
  unfolding spike_file_openat spike_file_get_free spike_file_close spike_file_decref
  close-openat s dirfd fn len flags mode f ret host first answer low other =
      let e : 0 + f ≡ f = omega arith in
      let found =
        get_free_loop-first 128 0 f s first.inside (rw e first.used) (rw e first.unused) in
      let found' = rw e at found in
      let ok_ret : ltb ret (2 ^ 63) ≡ true = ground (arith, low) in
      let in_fds : ltb ret 128 ≡ true = ground (arith, low) in
      let as_is : ret % 2 ^ 32 ≡ ret = omega (arith, low) in
      let kept = set_file_self s.files f (record (s.files f) { refcnt = 3 }) in
      let twice =
        set_file-set_file s.files f (record (s.files f) { refcnt = 3 })
          (record { kfd = ret; refcnt = 3 }) in
      let held = set_file_self s.files f (record { kfd = ret; refcnt = 3 }) in
      let less =
        set_file-set_file s.files f (record { kfd = ret; refcnt = 3 })
          (record { kfd = ret; refcnt = 2 }) in
      (
        rw (found', answer, ok_ret, as_is, kept, twice) refl,
        rw (held, in_fds, other, held, less) refl,
      )
