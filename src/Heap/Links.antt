-- ===== src/Heap/Links.antt =====
-- The writes to single headers in `heapseg_split` and `heapseg_combine_fwd` of memory/heap.c.
use systemcommander.Common.{ℕ, ◌<◌, ◌≡◌, ◌≢◌, refl, false, List, [], ◌∷◌, arith, ◌==◌, null}
use systemcommander.Heap.{Headers, split_headers, link_back}
use systemcommander.Heap.Blocks.{Block, link}

module _ (hd : Headers) (next v : ℕ) where
  pub link_back_self : next ≢ null → link_back hd next v next ≡ record (hd next) { last = v }
  unfolding link_back
  link_back_self some_next = ground arith

  pub link_back_other : (a : ℕ) → a ≢ next → link_back hd next v a ≡ hd a
  unfolding link_back
  link_back_other a other = ground arith

-- `link_back` to what stands at `r` writes nothing below it.
pub link_back_low :
    (hd : Headers) (post : List Block) (r v a : ℕ) → a < r → link_back hd (link post r) v a ≡ hd a
unfolding link_back
link_back_low hd [] r v a below = refl
link_back_low hd (x ∷ post) r v a below = link_back_other hd r v a (omega arith)

pub ==_comm : (a b : ℕ) → (a == b) ≡ (b == a)
==_comm a b = ground arith

pub lt-== : (a b : ℕ) → a < b → (a == b) ≡ false
lt-== a b lt = ground arith

module _ (hd : Headers) (p new len n : ℕ) (apart : p ≢ new) where
  pub split_headers_first : split_headers hd p new len n p ≡ record (hd p) { size = n; next = new }
  unfolding split_headers
  split_headers_first = ground arith

  pub split_headers_second :
      split_headers hd p new len n new
      ≡ record { size = len; next = (hd p).next; last = p; free = (hd p).free }
  unfolding split_headers
  split_headers_second = ground arith

  pub split_headers_other : (a : ℕ) → a ≢ p → a ≢ new → split_headers hd p new len n a ≡ hd a
  unfolding split_headers
  split_headers_other a other other' = ground arith
