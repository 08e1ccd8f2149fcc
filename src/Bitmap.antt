-- ===== src/Bitmap.antt =====
-- utils/bitmap.c and include/syscom/bitmap.h. The buffer is the memory from the pointer on, so an
-- index past `size` reads and writes the bytes behind the bitmap, as the code does.
pub mod Laws
pub mod Count
mod Tests
use systemcommander.Common.{
  ℕ, ◌-◌, ◌/◌, ◌%◌, ◌^◌, ◌<◌, bit_and, bit_or, Bool, true, false, ltb, ◌==◌, if◌then◌else◌,
}

pub record Bitmap : Type 0 where
  pub size : ℕ
  pub buffer : ℕ → ℕ

-- 0b10000000 >> bit
abbrev pub indexer : ℕ → ℕ
indexer bit = 0x80 / 2 ^ bit

abbrev pub store_byte : (ℕ → ℕ) → ℕ → ℕ → ℕ → ℕ
store_byte buffer byte v k = if k == byte then v else buffer k

unfoldable pub bm_get : Bitmap → ℕ → Bool
bm_get bmap index =
    let byte = index / 8 in
    let bit = index % 8 in if ltb 0 (bit_and (bmap.buffer byte) (indexer bit)) then true else false

-- One byte of `bm_set`: the bit is cleared, then set again if `value` asks for it.
abbrev pub set_bit : ℕ → ℕ → Bool → ℕ
set_bit old mask value =
    let cleared = bit_and old (0xff - mask) in if value then bit_or cleared mask else cleared

unfoldable pub bm_set : Bitmap → ℕ → Bool → Bitmap
bm_set bmap index value =
    let byte = index / 8 in
    let bit = index % 8 in
    record bmap {
      buffer = store_byte bmap.buffer byte (set_bit (bmap.buffer byte) (indexer bit) value);
    }
