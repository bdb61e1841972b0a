-- ===== src/Tests/Texts.antt =====
-- Runs of the string functions (util/string.c): the text "ab" at address 100.
use mypkecode.Base.{◌≡◌, refl, inr, some, arith, ◌==◌, if◌then◌else◌}
use mypkecode.Strings.{Bytes, set_byte, moved, filled, memset, memcpy, memmove, strlen, safestrcpy}
use mypkecode.Strings.Moves.{memcpy-moved, memmove-moved}
use mypkecode.Strings.Fill.{memset-filled}
use mypkecode.Strings.Text.{IsText, strlen-IsText, safestrcpy-moved}

abbrev bytes : Bytes
bytes a = if a == 100 then 97 else if a == 101 then 98 else 0

text : IsText bytes 100 2
text = record { letters = λ i h e. ground arith; end = refl }

memcpy-moved_example : memcpy 200 100 20 bytes ≡ some (moved bytes 200 100 20)
memcpy-moved_example = memcpy-moved 200 100 20 bytes (inr (omega arith))

-- The destination begins inside the source.
memmove-moved_example : memmove 101 100 2 bytes ≡ moved bytes 101 100 2
memmove-moved_example = memmove-moved 101 100 2 bytes

strlen-IsText_example : strlen 10 100 bytes ≡ some 2
strlen-IsText_example = strlen-IsText 10 100 2 bytes text (omega arith)

-- Only one byte and the zero fit.
safestrcpy-moved_example : safestrcpy 200 100 2 bytes ≡ set_byte (moved bytes 200 100 1) 201 0
safestrcpy-moved_example = safestrcpy-moved 200 100 2 2 bytes text (inr (omega arith)) (omega arith)

-- Only the low byte counts.
memset-filled_example : memset 200 0x1FF 16 bytes ≡ some (filled bytes 200 16 0xFF)
memset-filled_example = memset-filled 200 0x1FF 16 bytes
