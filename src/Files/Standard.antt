-- ===== src/Files/Standard.antt =====
-- The standard files, which `spike_file_init` (spike_interface/spike_file.c) opens.
use mypkecode.Base.{ℕ, zero, suc, ◌<◌, ◌≡◌, refl, some, arith, ok}
use mypkecode.Files.{
  Files, set_file, set_fd, empty_files, spike_file_get_free, get_free_loop, spike_file_dup,
  dup_loop, spike_file_incref, init_loop, spike_file_init,
}

-- File `i` with three references and descriptor `i`, which is the fourth.
abbrev with_standard : {H : Type 0} → (i : ℕ) → Files H → Files H
with_standard i s =
    let taken = set_file s.files i (record (s.files i) { refcnt = 3 }) in
    let named = set_file taken i (record (taken i) { kfd = i }) in
    record s {
      fds = set_fd s.fds i (some i);
      files = set_file named i (record (named i) { refcnt = 4 });
    }

abbrev pub standard_files : {H : Type 0} → H → Files H
standard_files host = with_standard 2 (with_standard 1 (with_standard 0 (empty_files host)))

pub spike_file_init-standard :
    {H : Type 0} (frontend_syscall : (n a0 a1 a2 a3 a4 : ℕ) → H → ℕ × H) (host : H)
    → spike_file_init frontend_syscall (empty_files host) ≡ ok tt (standard_files host)
unfolding spike_file_init init_loop spike_file_get_free get_free_loop spike_file_dup dup_loop
    spike_file_incref set_file set_fd
spike_file_init-standard frontend_syscall host = refl

pub standard_files-open :
    {H : Type 0} (host : H) (i : ℕ)
    → i < 3
    → ((standard_files host).fds i ≡ some i)
      × ((standard_files host).files i ≡ record { kfd = i; refcnt = 4 })
unfolding set_file set_fd
standard_files-open host zero lt = (refl, refl)
standard_files-open host (suc zero) lt = (refl, refl)
standard_files-open host (suc (suc zero)) lt = (refl, refl)
standard_files-open host (suc (suc (suc i))) lt = absurd (omega (arith, lt))
