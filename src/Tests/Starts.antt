-- ===== src/Tests/Starts.antt =====
-- Runs of the machine mode (kernel/machine) on a machine at reset.
use mypkecode.Base.{
  ℕ, ◌^◌, ◌≡◌, ◌<◌, ◌≤◌, ◌⊎◌, none, some, [], ◌∷◌, ok, user, arith, refl, ◌-◌, ◌+◌,
}
use mypkecode.Kernel.{Kernel}
use mypkecode.Sched.{time_slice_len}
use mypkecode.Sched.Rotate.{Rotated}
use mypkecode.Sched.Schedule.{resumed}
use mypkecode.Strap.Slice.{rested}
use mypkecode.Files.{empty_files}
use mypkecode.Machine.{Machine, m_start}
use mypkecode.Machine.Start.{Started, m_start-Started}
use mypkecode.Machine.Timer.{timer_fires, moved_on, ticked_in, counted_tick, timer_fires-counted}
use mypkecode.Tests.Turns.{kernel}
use mypkecode.Tests.Rounds.{start-Scheduled}

-- A processor with the extensions I and S, and registers with all their bits.
abbrev reset : Machine
reset = record {
  mcause = 0;
  mstatus = 2 ^ 12 + 2 ^ 11;
  mepc = 0;
  mtvec = 0;
  mscratch = 0;
  mideleg = 0;
  medeleg = 0;
  mie = 0;
  misa = 2 ^ 18 + 2 ^ 8;
  sie = 0;
  mtime = 500;
  mtimecmp = λ h. 0;
  mideleg_mask = 2 ^ 16 - 1;
  medeleg_mask = 2 ^ 16 - 1;
  htif = 0;
  g_mem_size = 0;
  files = empty_files tt;
  kernel = kernel none 0;
}

-- Nothing is called of the host.
abbrev no_host : (n a0 a1 a2 a3 a4 : ℕ) → Unit {0} → ℕ × Unit {0}
no_host n a0 a1 a2 a3 a4 u = (0, u)

m_start-Started_example :
    (m' : Machine) × (m_start no_host 1 0x8000_1000 0x8000_0100 0x8000_9000 1 0x800_0000 reset
      ≡ ok tt m')
    × Started reset m' 1 0x8000_1000
m_start-Started_example =
    m_start-Started no_host reset 1 0x8000_1000 0x8000_0100 0x8000_9000 1 0x800_0000 refl refl refl
      refl (omega arith)

-- Process 0 runs, and has used its time slice.
abbrev ticking : Machine
ticking = record reset { sie = 2; mideleg = 2; mtimecmp = λ h. 1000000; kernel = kernel (some 1) 0 }

timer_fires-counted_example :
    (k' : Kernel) × (timer_fires 0x1_0040 ticking ≡ user (moved_on ticking k'))
    × ((((ticking.kernel.procs 0).tick_count < time_slice_len)
          × (k' ≡ resumed (ticked_in 0 (counted_tick 0x1_0040 0 ticking.kernel)) 0)
          × (k'.sepc ≡ 0x1_0040))
        ⊎ ((time_slice_len ≤ (ticking.kernel.procs 0).tick_count)
            × Rotated (counted_tick 0x1_0040 0 ticking.kernel) k' 0 rested 1 (2 ∷ 0 ∷ [])))
timer_fires-counted_example =
    timer_fires-counted ticking 0x1_0040 0 (1 ∷ 2 ∷ []) start-Scheduled refl refl refl
