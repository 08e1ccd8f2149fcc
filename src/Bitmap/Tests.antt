-- ===== src/Bitmap/Tests.antt =====
-- Bitmaps at a concrete buffer.
use systemcommander.Common.{◌+◌, ◌≡◌, true, arith}
use systemcommander.Bitmap.{Bitmap, bm_get, bm_set}
use systemcommander.Bitmap.Laws.{bm_get-bm_set}
use systemcommander.Bitmap.Count.{set_bits, bit_of, set_bits-bm_set}

abbrev some_bits : Bitmap
some_bits = record { size = 2; buffer = λ k. 5 }

get_after_set : bm_get (bm_set some_bits 9 true) 9 ≡ true
get_after_set = bm_get-bm_set some_bits (λ k. omega arith) 9 9 true

count_after_set :
    set_bits (bm_set some_bits 9 true) 16 + bit_of (bm_get some_bits 9) ≡ set_bits some_bits 16 + 1
count_after_set = set_bits-bm_set some_bits 9 16 true (λ k. omega arith) (omega arith)
