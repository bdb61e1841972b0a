-- ===== src/Host.antt =====
-- What the kernel reads of the host through spike_interface/spike_file.c and
-- spike_interface/spike_utils.c while it loads the application. The host is the emulator, so its
-- answers are parameters.
use mypkecode.Base.{ℕ, ◌-◌, ◌^◌, Bool, leb, if◌then◌else◌}

-- The byte at each index of a buffer.
abbrev pub Buffer : Type 0
Buffer = ℕ → ℕ

pub record Host : Type 0 where
  -- the result of HTIFSYS_getmainvars, and the buffer of words that it fills
  pub getmainvars : ℕ × Buffer
  -- `spike_file_open` on a name: a pointer to a file, or an error as a word
  pub open_file : (name : ℕ) → ℕ
  -- `spike_file_pread` of `size` bytes at `offset`: the result as a word, and the bytes
  pub pread : (f size offset : ℕ) → ℕ × Buffer

-- `IS_ERR_VALUE` of spike_interface/spike_htif.h.
abbrev pub is_err_value : ℕ → Bool
is_err_value x = leb (2 ^ 64 - 4096) x

-- The bytes that a call with the result `ret` put at the destination: none where it failed.
abbrev pub delivered_bytes : (size ret : ℕ) → ℕ
delivered_bytes size ret = if leb ret size then ret else 0
