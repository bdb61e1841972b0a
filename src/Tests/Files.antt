-- ===== src/Tests/Files.antt =====
-- Runs on the table of host files (spike_interface/spike_file.c) as it is at the start, with a host that
-- answers 5 and counts its calls.
use mypkecode.Base.{ℕ, suc, ◌-◌, ◌^◌, ◌≡◌, refl, Option, none, some, arith, ok}
use mypkecode.Files.{
  Files, opened, spike_file_init, spike_file_openat, spike_file_dup, spike_file_incref,
  spike_file_decref, spike_file_close,
}
use mypkecode.Files.Counts.{Counted, Keeps, operations-Keeps}
use mypkecode.Files.Leak.{FirstFree, left_open, left_closed, close-openat}

abbrev five : (n a0 a1 a2 a3 a4 : ℕ) → ℕ → ℕ × ℕ
five n a0 a1 a2 a3 a4 calls = (5, suc calls)

abbrev empty : Files ℕ
empty = record { fds = λ d. none; files = λ f. record { kfd = 2 ^ 32 - 1; refcnt = 0 }; host = 0 }

empty-Counted : Counted empty
empty-Counted = λ f. (omega arith, omega arith)

operations-Keeps_example :
    Keeps (spike_file_init five empty)
    × ((dirfd fn len flags mode : ℕ) → Keeps (spike_file_openat five dirfd fn len flags mode empty))
    × ((f : ℕ) → Keeps (spike_file_dup five f empty))
    × ((f : ℕ) → Keeps (spike_file_incref five f empty))
    × ((f : ℕ) → Keeps (spike_file_decref five f empty))
    × ((f : Option ℕ) → Keeps (spike_file_close five f empty))
operations-Keeps_example = operations-Keeps five empty empty-Counted

slot_zero : FirstFree empty.files 0
slot_zero = record {
  inside = omega arith;
  used = λ g lt e. absurd (omega (arith, lt));
  unused = refl;
}

close-openat_example :
    (spike_file_openat five 3 0x8000_0000 9 0 0 empty ≡ ok (opened 0) (left_open five empty 0 5 1))
    × (spike_file_close five (some 0) (left_open five empty 0 5 1)
        ≡ ok (2 ^ 32 - 1) (left_closed five empty 0 5 1))
close-openat_example =
    close-openat five empty 3 0x8000_0000 9 0 0 0 5 1 slot_zero refl (omega arith) refl
