-- ===== src/Mem.antt =====
-- Raw memory as bytes at addresses: memcpy, memmove and the int fields of packed structs
-- (mem_queue.c, net_util.c, master.c and work.c use it so).
pub mod Frame
use sserver.Prelude.{ℕ, zero, suc, ◌+◌, ◌*◌, ◌/◌, ◌%◌, List, [], ◌∷◌, ◌==◌, if◌then◌else◌}

abbrev pub Mem : Type 0
Mem = ℕ → ℕ

-- memcpy of the bytes to the address `p`
unfoldable pub blit : Mem → ℕ → List ℕ → Mem
blit m p [] a = m a
blit m p (b ∷ bs) a = if a == p then b else blit m (p + 1) bs a

-- the `n` bytes from the address `p` on
unfoldable pub slice : Mem → ℕ → ℕ → List ℕ
slice m p zero = []
slice m p (suc n) = m p ∷ slice m (p + 1) n

-- a 32-bit int, lowest byte first
abbrev pub le32 : ℕ → List ℕ
le32 n = n % 256 ∷ n / 256 % 256 ∷ n / 65536 % 256 ∷ n / 16777216 % 256 ∷ []

unfoldable pub get32 : Mem → ℕ → ℕ
get32 m p = m p + 256 * m (p + 1) + 65536 * m (p + 2) + 16777216 * m (p + 3)
