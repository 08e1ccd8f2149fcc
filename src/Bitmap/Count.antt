-- ===== src/Bitmap/Count.antt =====
-- The number of set bits of a bitmap, and how one write changes it.
use systemcommander.Common.{ℕ, zero, suc, ◌+◌, ◌<◌, ◌≡◌, Bool, true, false, arith, if◌then◌else◌}
use systemcommander.Bitmap.{Bitmap, bm_get, bm_set}
use systemcommander.Bitmap.Laws.{IsBytes, bm_get-bm_set}

abbrev pub bit_of : Bool → ℕ
bit_of b = if b then 1 else 0

-- How many of the first `n` bits are set.
unfoldable pub set_bits : Bitmap → ℕ → ℕ
set_bits bmap zero = 0
set_bits bmap (suc n) = set_bits bmap n + bit_of (bm_get bmap n)

set_bits-bm_set_above :
    (bmap : Bitmap) (i n : ℕ) (value : Bool)
    → IsBytes bmap
    → n < suc i
    → set_bits (bm_set bmap i value) n ≡ set_bits bmap n
unfolding set_bits
set_bits-bm_set_above bmap i zero value bytes h = omega arith
set_bits-bm_set_above bmap i (suc n) value bytes h = ground (
  arith,
  bm_get-bm_set bmap bytes i n value,
  set_bits-bm_set_above bmap i n value bytes (omega arith),
)

-- A `bm_set` at a bit below `n` changes the number of set bits below `n` by that bit alone: what the
-- old bit counted is replaced by what the new one counts.
pub set_bits-bm_set :
    (bmap : Bitmap) (i n : ℕ) (value : Bool)
    → IsBytes bmap
    → i < n
    → set_bits (bm_set bmap i value) n + bit_of (bm_get bmap i) ≡ set_bits bmap n + bit_of value
unfolding set_bits
set_bits-bm_set bmap i zero value bytes h = absurd (omega arith)
set_bits-bm_set bmap i (suc n) value bytes h = ground (
  arith,
  bm_get-bm_set bmap bytes i n value,
  set_bits-bm_set_above bmap i n value bytes,
  set_bits-bm_set bmap i n value bytes,
)

-- If every bit below `n` is set, there are `n` of them.
pub set_bits_all :
    (bmap : Bitmap) (n : ℕ) → ((i : ℕ) → i < n → bm_get bmap i ≡ true) → set_bits bmap n ≡ n
unfolding set_bits
set_bits_all bmap zero all = omega arith
set_bits_all bmap (suc n) all =
    ground (arith, all n (omega arith), set_bits_all bmap n (λ i h. all i (omega arith)))

pub set_bits_none :
    (bmap : Bitmap) (n : ℕ) → ((i : ℕ) → i < n → bm_get bmap i ≡ false) → set_bits bmap n ≡ 0
unfolding set_bits
set_bits_none bmap zero all = omega arith
set_bits_none bmap (suc n) all =
    ground (arith, all n (omega arith), set_bits_none bmap n (λ i h. all i (omega arith)))
