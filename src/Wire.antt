-- ===== src/Wire.antt =====
-- Byte order (common/common.h): integers in memory on a little-endian machine, the swaps that
-- `htons`, `htonl` and `htonll` make there, and the bytes of a packed structure.
pub mod Bits
pub mod Bytes
pub mod Control
use soft_ui_warp.Prelude.{ℕ, zero, suc, ◌+◌, ◌*◌, ◌/◌, ◌%◌, ◌^◌, List, [], ◌∷◌, reverse}

-- The k bytes of an unsigned integer in memory, least significant first.
unfoldable pub le_bytes : ℕ → ℕ → List ℕ
le_bytes zero x = []
le_bytes (suc k) x = x % 256 ∷ le_bytes k (x / 256)

-- The integer that such bytes hold.
unfoldable pub from_le : List ℕ → ℕ
from_le [] = 0
from_le (b ∷ bs) = b + 256 * from_le bs

-- The bytes of a k-byte integer in the other order.
pub swap_bytes : ℕ → ℕ → ℕ
swap_bytes k x = from_le (reverse (le_bytes k x))

-- `htons` and `ntohs` are one function, and so are the others.
unfoldable pub htons : ℕ → ℕ
unfolding swap_bytes
htons x = swap_bytes 2 x

unfoldable pub htonl : ℕ → ℕ
unfolding swap_bytes
htonl x = swap_bytes 4 x

-- The macro swaps the two halves; they do not overlap, so its `|` is a sum.
unfoldable pub htonll : ℕ → ℕ
htonll x = htonl (x % 2 ^ 32) * 2 ^ 32 + htonl (x / 2 ^ 32)
