-- ===== src/Phys/Laws.antt =====
-- How writes, cleared ranges and copies read back.
use mypkecode.Base.{ℕ, ◌+◌, ◌-◌, ◌*◌, ◌/◌, ◌%◌, ◌≤◌, ◌<◌, ◌≡◌, ◌≢◌, arith}
use mypkecode.Base.{ok, fun_ext, le→ltb}
use mypkecode.Phys.{pgsize, Phys, Memory, write, clear, copy, load, store, memcpy}

pub write_self : (m : Memory) (a v : ℕ) → write m a v a ≡ v
unfolding write
write_self m a v = ground arith

pub write_ne : (m : Memory) (a v b : ℕ) → a ≢ b → write m a v b ≡ m b
unfolding write
write_ne m a v b h = ground arith

pub clear_in : (m : Memory) (p n b : ℕ) → p ≤ b → b < p + n → clear m p n b ≡ 0
unfolding clear
clear_in m p n b h k = ground arith

pub clear_below : (m : Memory) (p n b : ℕ) → b < p → clear m p n b ≡ m b
unfolding clear
clear_below m p n b h = ground arith

pub clear_above : (m : Memory) (p n b : ℕ) → p + n ≤ b → clear m p n b ≡ m b
unfolding clear
clear_above m p n b h = ground arith

pub clear_apart :
    (m : Memory) (p n a : ℕ)
    → p % pgsize ≡ 0
    → n ≤ pgsize
    → a / pgsize * pgsize ≢ p
    → clear m p n a ≡ m a
unfolding clear
clear_apart m p n a al small h = ground (arith, h)

pub copy_in :
    (m : Memory) (dest src n b : ℕ)
    → dest ≤ b
    → b < dest + n
    → copy m dest src n b ≡ m (src + (b - dest))
unfolding copy
copy_in m dest src n b h k = ground arith

pub copy_apart :
    (m : Memory) (dest src n a : ℕ)
    → dest % pgsize ≡ 0
    → n ≤ pgsize
    → a / pgsize * pgsize ≢ dest
    → copy m dest src n a ≡ m a
unfolding copy
copy_apart m dest src n a al small h = ground (arith, h)

pub memcpy-ok :
    (dest src n : ℕ) (s : Phys)
    → pgsize ≤ dest
    → pgsize ≤ src
    → memcpy dest src n s ≡ ok tt (record s { mem = copy s.mem dest src n })
unfolding memcpy
memcpy-ok dest src n s h h' = rw (le→ltb dest pgsize h, le→ltb src pgsize h')

pub load-ok : (a : ℕ) (s : Phys) → pgsize ≤ a → load a s ≡ ok (s.mem a) s
unfolding load
load-ok a s h = rw (le→ltb a pgsize h)

pub store-ok :
    (a v : ℕ) (s : Phys) → pgsize ≤ a → store a v s ≡ ok tt (record s { mem = write s.mem a v })
unfolding store
store-ok a v s h = rw (le→ltb a pgsize h)

pub write-write_comm :
    (m : Memory) (a v b w : ℕ) → a ≢ b → write (write m a v) b w ≡ write (write m b w) a v
unfolding write
write-write_comm m a v b w h = fun_ext λ c. ground arith
