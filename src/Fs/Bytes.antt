-- ===== src/Fs/Bytes.antt =====
-- Numbers in the structures of a disk, by their positions in the bytes.
use systemcommander.Common.{ℕ, ◌+◌, ◌*◌, List, [], ◌∷◌, take, drop}

-- A number of little-endian bytes.
abbrev pub le : List ℕ → ℕ
le [] = 0
le (b ∷ bytes) = b + 256 * le bytes

abbrev pub field : List ℕ → (offset size : ℕ) → ℕ
field bytes offset size = le (take size (drop offset bytes))
