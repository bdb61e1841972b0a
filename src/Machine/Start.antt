-- ===== src/Machine/Start.antt =====
-- What `m_start` (kernel/machine/minit.c) leaves for the supervisor mode.
use mypkecode.Base.{
  ℕ, zero, suc, if◌then◌else◌, ◌+◌, ◌-◌, ◌*◌, ◌/◌, ◌%◌, ◌^◌, ◌≡◌, ◌≢◌, ◌<◌, some, ap, ◌∙◌, refl,
  true, false, List, [], ◌∷◌, bit_and, bit_or, ok, arith, ◌==◌,
}
use mypkecode.Base.Words.{u64, has_bit, bit_or-power}
use mypkecode.Files.{empty_files}
use mypkecode.Files.Standard.{standard_files, spike_file_init-standard, standard_files-open}
use mypkecode.Machine.{
  Machine, interrupts, exceptions, timer_interval, supports_extension, delegate_traps, timerinit,
  set_alarm, init_dtb, previous_supervisor, m_start,
}

-- The bits that are set, among `n` from bit `i` on.
unfoldable pub set_bits : (n i w : ℕ) → List ℕ
set_bits zero i w = []
set_bits (suc n) i w = if has_bit w i then i ∷ set_bits n (suc i) w else set_bits n (suc i) w

-- The machine is ready to go on in the supervisor mode at `entry`: the timer of its hart is armed and enabled,
-- the standard files are open,
-- the exceptions of the user and the kernel's interrupts are delegated, and these are enabled.
pub record Started (m m' : Machine) (hartid entry : ℕ) : Type 0 where
  pub goes_on : m'.mepc ≡ entry
  pub supervisor : m'.mstatus / 2 ^ 11 % 4 ≡ 1
  pub interruptible : has_bit m'.mstatus 3 ≡ true
  pub delegated : set_bits 64 0 m'.medeleg ≡ 0 ∷ 3 ∷ 8 ∷ 12 ∷ 13 ∷ 15 ∷ []
  pub passed_on : set_bits 64 0 m'.mideleg ≡ 1 ∷ 5 ∷ 9 ∷ []
  pub armed : m'.mtimecmp hartid ≡ u64 (m.mtime + timer_interval)
  pub timer_enabled : has_bit m'.mie 7 ≡ true
  pub soft_enabled : has_bit m'.sie 1 ≡ true
  pub standard :
      (i : ℕ)
      → i < 3
      → (m'.files.fds i ≡ some i) × (m'.files.files i ≡ record { kfd = i; refcnt = 4 })
  pub kernel_same : m'.kernel ≡ m.kernel

abbrev started : Machine → (hartid s_start mtrapvec g_itrframe found_htif size : ℕ) → Machine
started m hartid s_start mtrapvec g_itrframe found_htif size =
    record (set_alarm hartid (m.mtime + timer_interval) m) {
      files = standard_files tt;
      htif = found_htif;
      g_mem_size = size;
      mscratch = g_itrframe;
      mstatus = bit_or (previous_supervisor m.mstatus) (2 ^ 3);
      mepc = s_start;
      mtvec = mtrapvec;
      mideleg = interrupts;
      medeleg = exceptions;
      sie = bit_or (bit_or (bit_or m.sie (2 ^ 9)) (2 ^ 5)) (2 ^ 1);
      mie = bit_or m.mie (2 ^ 7);
    }

-- Let the tables of host files be as the program starts with them, the machine have the supervisor mode and every bit of the two delegation registers that
-- `delegate_traps` writes, and let the device tree give a size of memory that is not 0. Then `m_start`
-- reaches its `mret`, and this goes on at `s_start` in the supervisor mode, with interrupts enabled
-- in the machine mode and the files 0 to 2 open at the descriptors 0 to 2; exactly misaligned fetches, breakpoints, calls from user mode and page faults
-- are delegated among the exceptions, exactly the supervisor's three among the interrupts; and the
-- timer of the hart is enabled and armed for one interval from now.
pub m_start-Started :
    (frontend_syscall : (n a0 a1 a2 a3 a4 : ℕ) → Unit {0} → ℕ × Unit {0}) (m : Machine)
    (hartid s_start mtrapvec g_itrframe found_htif size : ℕ)
    → m.files ≡ empty_files tt
    → supports_extension b'S' m ≡ true
    → bit_and interrupts m.mideleg_mask ≡ interrupts
    → bit_and exceptions m.medeleg_mask ≡ exceptions
    → size ≢ 0
    → (m' : Machine) × (m_start frontend_syscall hartid s_start mtrapvec g_itrframe found_htif size
          m
        ≡ ok tt m')
      × Started m m' hartid s_start
unfolding m_start delegate_traps timerinit init_dtb set_bits
m_start-Started frontend_syscall m hartid s_start mtrapvec g_itrframe found_htif size start ext i e
      sized =
    let size_ok : (size == 0) ≡ false = ground (arith, sized) in
    let sup = bit_or-power 11 (m.mstatus - m.mstatus / 2 ^ 11 % 4 * 2 ^ 11) in
    let enabled = bit_or-power 3 (previous_supervisor m.mstatus) in
    let timer = bit_or-power 7 m.mie in
    let begin : m ≡ record m { files = empty_files tt } = ap (λ t. record m { files = t }) start in
    let opens = spike_file_init-standard frontend_syscall tt in
    let soft = bit_or-power 1 (bit_or (bit_or m.sie (2 ^ 9)) (2 ^ 5)) in
    (
      started m hartid s_start mtrapvec g_itrframe found_htif size,
      ap (m_start frontend_syscall hartid s_start mtrapvec g_itrframe found_htif size) begin
          ∙ rw (opens, size_ok, ext, i, e) refl,
      record {
        goes_on = refl;
        supervisor = omega (arith, sup, enabled);
        interruptible = ground (arith, enabled);
        delegated = refl;
        passed_on = refl;
        armed = ground arith;
        timer_enabled = ground (arith, timer);
        soft_enabled = ground (arith, soft);
        standard = standard_files-open tt;
        kernel_same = refl;
      },
    )
