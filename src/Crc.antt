-- ===== src/Crc.antt =====
-- src/persistence.rs, crc32c and its update: the Castagnoli checksum, bit by bit.
-- (raft_storage.rs and raft_state_machine.rs hold the same function once more.)
use Prim.Native.Nat.{bit_and, bit_xor}
use focal_vector.Base.{ℕ, zero, suc, ◌-◌, ◌/◌, ◌%◌, ◌^◌, ◌<◌, ◌≡◌, refl, List, [], ◌∷◌, ◌++◌, arith}

-- `(crc >> 1) ^ (0x82f6_3b78 & 0u32.wrapping_sub(crc & 1))`
crc_round : ℕ → ℕ
crc_round crc = bit_xor (crc / 2) (bit_and 0x82f63b78 ((2 ^ 32 - bit_and crc 1) % 2 ^ 32))

crc_rounds : ℕ → ℕ → ℕ
crc_rounds zero crc = crc
crc_rounds (suc n) crc = crc_rounds n (crc_round crc)

unfoldable pub crc32c_update : ℕ → List ℕ → ℕ
unfolding crc_round crc_rounds
crc32c_update crc [] = crc
crc32c_update crc (byte ∷ bytes) = crc32c_update (crc_rounds 8 (bit_xor crc byte)) bytes

-- `!crc` on 32 bits
abbrev complement : ℕ → ℕ
complement crc = 2 ^ 32 - 1 - crc

unfoldable pub crc32c : List ℕ → ℕ
unfolding crc32c_update
crc32c bytes = complement (crc32c_update (2 ^ 32 - 1) bytes)

pub crc32c_range : (bytes : List ℕ) → crc32c bytes < 2 ^ 32
unfolding crc32c
crc32c_range bytes = omega arith

-- Feeding the pieces in turn gives the checksum of the whole.
pub crc32c_update-append :
    (crc : ℕ) (xs ys : List ℕ)
    → crc32c_update crc (xs ++ ys) ≡ crc32c_update (crc32c_update crc xs) ys
unfolding crc32c_update
crc32c_update-append crc [] ys = refl
crc32c_update-append crc (x ∷ xs) ys = crc32c_update-append (crc_rounds 8 (bit_xor crc x)) xs ys
