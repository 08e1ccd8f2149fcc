-- ===== src/Libc/Itoa.antt =====
-- utils/string.c, `itoa`. The digits are written from index 22 down into a static buffer; the result
-- points into that buffer, which the next call overwrites.
pub mod Digits
use systemcommander.Common.{ℕ, zero, suc, ◌+◌, ◌-◌, ◌/◌, ◌%◌, ltb, ◌==◌, if◌then◌else◌}

-- `static char buf[64]`
abbrev pub Buffer : Type 0
Buffer = ℕ → ℕ

-- The constant "0", or `&buf[i]`.
pub data CharPtr : Type 0 where
  zero_text : CharPtr
  in_buf : ℕ → CharPtr

-- "0123456789abcdef"[d]
abbrev pub digit : ℕ → ℕ
digit d = if ltb d 10 then 48 + d else 87 + d

abbrev pub put : Buffer → ℕ → ℕ → Buffer
put buf i c k = if k == i then c else buf k

-- `for (; val && i; --i, val /= base)`, with the last value of `i`.
itoa_loop : ℕ → ℕ → ℕ → Buffer → Buffer × ℕ
itoa_loop base zero val buf = (buf, 0)
itoa_loop base (suc i) val buf =
    let rest = itoa_loop base i (val / base) (put buf (suc i) (digit (val % base))) in
    if val == 0 then (buf, suc i) else rest

pub itoa : Buffer → ℕ → ℕ → Buffer × CharPtr
itoa buf val base0 =
    let base = if ltb 16 base0 then 16 else base0 in
    if val == 0
    then (buf, zero_text)
    else let r = itoa_loop base 22 val buf in (r.0, in_buf (r.1 + 1))
