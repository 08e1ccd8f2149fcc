-- ===== src/Bitmap/Laws.antt =====
-- Reads after writes of the bitmap.
use systemcommander.Common.{
  ℕ, ◌/◌, ◌%◌, ◌<◌, bit_and, ◌≡◌, refl, Bool, true, false, arith, ltb, ltb→lt, ◌==◌, ==_iff,
  if◌then◌else◌, inl, inr, Bool-cases, not, ◌&&◌,
}
use systemcommander.Common.Bits.{all_below, all_below_sound}
use systemcommander.Bitmap.{Bitmap, indexer, bm_get, set_bit, bm_set}

-- Each cell of the buffer is a byte.
abbrev pub IsBytes : Bitmap → Type 0
IsBytes bmap = (k : ℕ) → bmap.buffer k < 256

abbrev test : ℕ → ℕ → Bool
test b bit = if ltb 0 (bit_and b (indexer bit)) then true else false

abbrev same : Bool → Bool → Bool
same true x = x
same false x = not x

same_sound : (x y : Bool) → same x y ≡ true → x ≡ y
same_sound x y h = ground arith

and_left : (x y : Bool) → (x && y) ≡ true → x ≡ true
and_left true y h = refl
and_left false y h = h

and_right : (x y : Bool) → (x && y) ≡ true → y ≡ true
and_right true y h = h
and_right false true h = refl
and_right false false h = h

abbrev set_row : ℕ → Bool → ℕ → ℕ → Bool
set_row b value i j =
    same (test (set_bit b (indexer i) value) j) (if i == j then value else test b j)
    && ltb (set_bit b (indexer i) value) 256

abbrev set_rows : ℕ → Bool
set_rows b = all_below 8 (λ i. all_below 8 (λ j. set_row b true i j && set_row b false i j))

set_table : all_below 256 set_rows ≡ true
unfolding all_below
set_table = refl

set_row-true : (value : Bool) (b i j : ℕ) → b < 256 → i < 8 → j < 8 → set_row b value i j ≡ true
set_row-true value b i j hb hi hj = go value rows
  where
    rows : (set_row b true i j && set_row b false i j) ≡ true
    rows =
        all_below_sound 8 (λ j. set_row b true i j && set_row b false i j) j
          (all_below_sound 8 (λ i. all_below 8 (λ j. set_row b true i j && set_row b false i j)) i
            (all_below_sound 256 set_rows b set_table hb) hi)
          hj

    go : (v : Bool) → (set_row b true i j && set_row b false i j) ≡ true → set_row b v i j ≡ true
    go true h = and_left _ _ h
    go false h = and_right _ _ h

pub ==_refl : (i : ℕ) → (i == i) ≡ true
==_refl i = ground arith

-- What is read at `j` after `bm_set` at `i`, for all pairs of indices.
pub bm_get-bm_set :
    (bmap : Bitmap)
    → IsBytes bmap
    → (i j : ℕ) (value : Bool)
    → bm_get (bm_set bmap i value) j ≡ (if i == j then value else bm_get bmap j)
unfolding bm_get bm_set
bm_get-bm_set bmap bytes i j value = elim (Bool-cases (j / 8 == i / 8)) [
  | inl e ↦
      let e' : j / 8 ≡ i / 8 = (==_iff _ _).0 e in
      rw (e', ==_refl)
        (same_byte (i % 8 == j % 8) (i == j) (bmap.buffer (i / 8)) (ground (arith, e'))
          (row (bmap.buffer (i / 8)) (bytes _)))
  | inr e ↦ rw e (rw (differ e))
]
  where
    row :
        (b : ℕ)
        → b < 256
        → test (set_bit b (indexer (i % 8)) value) (j % 8)
          ≡ (if i % 8 == j % 8 then value else test b (j % 8))
    row b hb =
        same_sound _ _
          (and_left _ _ (set_row-true value b (i % 8) (j % 8) hb (omega arith) (omega arith)))

    same_byte :
        (x y : Bool) (b : ℕ)
        → x ≡ y
        → test (set_bit b (indexer (i % 8)) value) (j % 8) ≡ (if x then value else test b (j % 8))
        → test (set_bit b (indexer (i % 8)) value) (j % 8) ≡ (if y then value else test b (j % 8))
    same_byte x y b e h = rw (← e) h

    differ : (j / 8 == i / 8) ≡ false → (i == j) ≡ false
    differ e = ground arith

pub bm_set-IsBytes :
    (bmap : Bitmap) (i : ℕ) (value : Bool) → IsBytes bmap → IsBytes (bm_set bmap i value)
unfolding bm_set
bm_set-IsBytes bmap i value bytes k = elim (Bool-cases (k == i / 8)) [
  | inl e ↦ rw e (
      ltb→lt _ _ (
        and_right _ _ (
          set_row-true value (bmap.buffer (i / 8)) (i % 8) 0 (bytes _) (omega arith)
            (omega arith))))
  | inr e ↦ rw e (bytes k)
]

zero_table : all_below 8 (λ bit. not (test 0 bit)) ≡ true
unfolding all_below
zero_table = refl

-- No bit of a zero byte is set.
pub bm_get_zero : (bmap : Bitmap) (i : ℕ) → bmap.buffer (i / 8) ≡ 0 → bm_get bmap i ≡ false
unfolding bm_get
bm_get_zero bmap i e =
    rw e
      (ground (arith, all_below_sound 8 (λ bit. not (test 0 bit)) (i % 8) zero_table (omega arith)))

-- A bit depends on its byte alone.
pub bm_get_ext :
    (b c : Bitmap) (i : ℕ) → b.buffer (i / 8) ≡ c.buffer (i / 8) → bm_get b i ≡ bm_get c i
unfolding bm_get
bm_get_ext b c i e = rw e

pub bm_set-size :
    (bmap : Bitmap) (index : ℕ) (value : Bool) → (bm_set bmap index value).size ≡ bmap.size
unfolding bm_set
bm_set-size bmap index value = refl
