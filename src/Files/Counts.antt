-- ===== src/Files/Counts.antt =====
-- The counts of the file table (spike_interface/spike_file.c).
use mypkecode.Base.{
  ℕ, zero, suc, ◌+◌, ◌%◌, ◌^◌, ◌<◌, ◌≢◌, Option, none, some, ltb, ◌==◌, arith, Run, ok, panic,
  poweroff, halt, fault, user, hang, and_then, Bool-cases, inl, inr,
}
use mypkecode.Files.{
  SpikeFile, Files, set_file, set_fd, same_file, is_null, take_fd, spike_file_decref,
  spike_file_incref, spike_file_close, get_free_loop, spike_file_get_free, dup_loop, spike_file_dup,
  init_loop, init_one, spike_file_init, open_in, spike_file_openat,
}

-- No count is 1, and each is a uint32: a slot is free, or it is held by two references or more.
abbrev pub Counted : {H : Type 0} → Files H → Type 0
Counted s = (f : ℕ) → ((s.files f).refcnt ≢ 1) × ((s.files f).refcnt < 2 ^ 32)

abbrev pub Keeps : {H A : Type 0} → Run (Files H) A → Type 0
Keeps (ok a s) = Counted s
Keeps panic = Unit
Keeps poweroff = Unit
Keeps halt = Unit
Keeps fault = Unit
Keeps (user s) = Unit
Keeps hang = Unit

and_then-Keeps :
    {H A B : Type 0} (r : Run (Files H) A) (k : A → Files H → Run (Files H) B)
    → Keeps r
    → ((a : A) (s : Files H) → Counted s → Keeps (k a s))
    → Keeps (and_then r k)
and_then-Keeps (ok a s) k h next = next a s h
and_then-Keeps panic k h next = tt
and_then-Keeps poweroff k h next = tt
and_then-Keeps halt k h next = tt
and_then-Keeps fault k h next = tt
and_then-Keeps (user s) k h next = tt
and_then-Keeps hang k h next = tt

set_file-Counted :
    {H : Type 0} (s : Files H) (f : ℕ) (v : SpikeFile) (host : H) (fds : ℕ → Option ℕ)
    → v.refcnt ≢ 1
    → v.refcnt < 2 ^ 32
    → Counted s
    → Counted (record { fds = fds; files = set_file s.files f v; host = host })
unfolding set_file
set_file-Counted s f v host fds n lt c g = elim (Bool-cases (f == g)) [
  | inl e ↦ rw e (n, lt)
  | inr e ↦ rw e (c g)
]

module _ {H : Type 0} (frontend_syscall : (n a0 a1 a2 a3 a4 : ℕ) → H → ℕ × H) where
  decref-Keeps : (f : ℕ) (s : Files H) → Counted s → Keeps (spike_file_decref frontend_syscall f s)
  unfolding spike_file_decref set_file
  decref-Keeps f s c = elim (Bool-cases ((s.files f).refcnt == 2)) [
    | inl two ↦ rw two λ g. elim (Bool-cases (f == g)) [
      | inl e ↦ rw e (omega arith, omega arith)
      | inr e ↦ rw e (c g)
    ]
    | inr other ↦
        rw other
          (set_file-Counted s f _ s.host s.fds (ground (arith, other, (c f).1)) (omega arith) c)
  ]

  incref-Keeps : (f : ℕ) (s : Files H) → Counted s → Keeps (spike_file_incref frontend_syscall f s)
  unfolding spike_file_incref
  incref-Keeps f s c = elim (Bool-cases (ltb 0 (s.files f).refcnt)) [
    | inl held ↦
        rw held
          (set_file-Counted s f _ s.host s.fds (ground (arith, held, (c f).1)) (omega arith) c)
    | inr none_there ↦ rw none_there tt
  ]

  take_fd-Keeps : (d f : ℕ) (s : Files H) → Counted s → Keeps (take_fd frontend_syscall d f s)
  take_fd-Keeps d f s c = elim (Bool-cases (ltb d 128)) [
    | inl inside ↦ elim (Bool-cases (same_file (s.fds d) f)) [
      | inl same ↦ rw (inside, same) c
      | inr other ↦ rw (inside, other) c
    ]
    | inr outside ↦ rw outside tt
  ]

  close-Keeps :
      (f : Option ℕ) (s : Files H) → Counted s → Keeps (spike_file_close frontend_syscall f s)
  unfolding spike_file_close
  close-Keeps none s c = c
  close-Keeps (some f) s c =
      and_then-Keeps (take_fd frontend_syscall (s.files f).kfd f s) _
        (take_fd-Keeps (s.files f).kfd f s c)
        λ old s1 c1.
          and_then-Keeps (spike_file_decref frontend_syscall f s1) _ (decref-Keeps f s1 c1)
            λ u s2 c2. elim (Bool-cases (same_file old f)) [
              | inl same ↦ rw same (
                  and_then-Keeps (spike_file_decref frontend_syscall f s2) _ (decref-Keeps f s2 c2)
                    λ u' s3 c3. c3)
              | inr other ↦ rw other c2
            ]

  get_free_loop-Keeps :
      (n f : ℕ) (s : Files H) → Counted s → Keeps (get_free_loop frontend_syscall n f s)
  unfolding get_free_loop
  get_free_loop-Keeps zero f s c = c
  get_free_loop-Keeps (suc n) f s c = elim (Bool-cases ((s.files f).refcnt == 0)) [
    | inl free ↦ rw free (set_file-Counted s f _ s.host s.fds (omega arith) (omega arith) c)
    | inr used ↦ rw used (get_free_loop-Keeps n (suc f) s c)
  ]

  dup_loop-Keeps : (n i f : ℕ) (s : Files H) → Counted s → Keeps (dup_loop frontend_syscall n i f s)
  unfolding dup_loop
  dup_loop-Keeps zero i f s c = c
  dup_loop-Keeps (suc n) i f s c = elim (Bool-cases (is_null (s.fds i))) [
    | inl null ↦ rw null (
        and_then-Keeps
          (spike_file_incref frontend_syscall f (record s { fds = set_fd s.fds i (some f) })) _
          (incref-Keeps f (record s { fds = set_fd s.fds i (some f) }) c) λ u s' c'. c')
    | inr used ↦ rw used (dup_loop-Keeps n (suc i) f s c)
  ]

  init_one-Keeps :
      (i : ℕ) (f : Option ℕ) (s : Files H) → Counted s → Keeps (init_one frontend_syscall i f s)
  unfolding spike_file_dup
  init_one-Keeps i none s c = tt
  init_one-Keeps i (some f) s c =
      let s' : Files H = record s {
        files = set_file s.files f (record (s.files f) { kfd = i % 2 ^ 32 });
      } in
      and_then-Keeps (spike_file_dup frontend_syscall f s') _
        (dup_loop-Keeps _ 0 f s' (set_file-Counted s f _ s.host s.fds (c f).0 (c f).1 c))
        λ u s2 c2. c2

  init_loop-Keeps : (n i : ℕ) (s : Files H) → Counted s → Keeps (init_loop frontend_syscall n i s)
  unfolding init_loop spike_file_get_free
  init_loop-Keeps zero i s c = c
  init_loop-Keeps (suc n) i s c =
      and_then-Keeps (spike_file_get_free frontend_syscall s) _ (get_free_loop-Keeps _ 0 s c)
        λ f s1 c1.
          and_then-Keeps (init_one frontend_syscall i f s1) _ (init_one-Keeps i f s1 c1)
            λ u s2 c2. init_loop-Keeps n (suc i) s2 c2

  open_in-Keeps :
      (dirfd fn size flags mode : ℕ) (f : Option ℕ) (s : Files H)
      → Counted s
      → Keeps (open_in frontend_syscall dirfd fn size flags mode f s)
  open_in-Keeps dirfd fn size flags mode none s c = c
  open_in-Keeps dirfd fn size flags mode (some f) s c =
      let answer : ℕ × H = frontend_syscall 56 dirfd fn size flags mode s.host in
      let s1 : Files H = record s { host = answer.1 } in
      elim (Bool-cases (ltb answer.0 (2 ^ 63))) [
        | inl good ↦ rw good (set_file-Counted s1 f _ answer.1 s.fds (c f).0 (c f).1 c)
        | inr bad ↦ rw bad (
            and_then-Keeps (spike_file_decref frontend_syscall f s1) _ (decref-Keeps f s1 c)
              λ u s2 c2. c2)
      ]

  -- Whatever the host answers, and from any table whose counts are uint32 and none is 1,
  -- `spike_file_init`, `spike_file_openat`, `spike_file_dup`, `spike_file_incref`, `spike_file_decref` and
  -- `spike_file_close` leave such a table where they return: no slot is left with one reference.
  pub operations-Keeps :
      (s : Files H)
      → Counted s
      → Keeps (spike_file_init frontend_syscall s)
        × ((dirfd fn len flags mode : ℕ)
            → Keeps (spike_file_openat frontend_syscall dirfd fn len flags mode s))
        × ((f : ℕ) → Keeps (spike_file_dup frontend_syscall f s))
        × ((f : ℕ) → Keeps (spike_file_incref frontend_syscall f s))
        × ((f : ℕ) → Keeps (spike_file_decref frontend_syscall f s))
        × ((f : Option ℕ) → Keeps (spike_file_close frontend_syscall f s))
  unfolding spike_file_init spike_file_openat spike_file_dup spike_file_get_free
  operations-Keeps s c = (
    init_loop-Keeps 3 0 s c,
    λ dirfd fn len flags mode.
        and_then-Keeps (spike_file_get_free frontend_syscall s) _ (get_free_loop-Keeps _ 0 s c)
          λ f s1 c1. open_in-Keeps dirfd fn (len + 1) flags mode f s1 c1,
    λ f. dup_loop-Keeps _ 0 f s c,
    λ f. incref-Keeps f s c,
    λ f. decref-Keeps f s c,
    λ f. close-Keeps f s c,
  )
