-- ===== src/Libc/Memory.antt =====
-- memory/stdmemory.c. Memory is a function from addresses to bytes; a pointer into an object is an
-- address, and an object does not wrap around the address space.
pub mod Copies
use systemcommander.Common.{
  ℕ, zero, suc, ◌+◌, ◌%◌, ◌<◌, ◌≡◌, Bool, true, false, ltb, ◌==◌, if◌then◌else◌, for_range,
}
use systemcommander.Common.Int.{ℤ, pos, negsuc}

abbrev pub Memory : Type 0
Memory = ℕ → ℕ

abbrev pub store : Memory → ℕ → ℕ → Memory
store m p v a = if a == p then v else m a

-- The loop `for (i = 0; i < n; i++) pdest[i] = psrc[i]`.
abbrev pub copy_up : ℕ → ℕ → ℕ → Memory → Memory
copy_up dest src n m = for_range n 0 (λ i s. store s (dest + i) (s (src + i))) m

-- The loop `for (i = n; i > 0; i--) pdest[i - 1] = psrc[i - 1]`.
copy_down : ℕ → ℕ → ℕ → Memory → Memory
copy_down dest src zero m = m
copy_down dest src (suc i) m = copy_down dest src i (store m (dest + i) (m (src + i)))

-- Each function returns the memory and its result.
pub memcpy : ℕ → ℕ → ℕ → Memory → Memory × ℕ
memcpy dest src n m = (copy_up dest src n m, dest)

pub mempcpy : ℕ → ℕ → ℕ → Memory → Memory × ℕ
mempcpy dest src n m = (copy_up dest src n m, dest + n)

pub memset : ℕ → ℕ → ℕ → Memory → Memory × ℕ
memset s c n m = (for_range n 0 (λ i t. store t (s + i) (c % 256)) m, s)

pub memmove : ℕ → ℕ → ℕ → Memory → Memory × ℕ
unfolding copy_down
memmove dest src n m =
    if ltb dest src
    then (copy_up dest src n m, dest)
    else if ltb src dest
    then (copy_down dest src n m, dest)
    else (m, dest)

-- The rounds that are left, and the position.
memcmp_loop : ℕ → ℕ → ℕ → ℕ → Memory → ℤ
memcmp_loop zero i s1 s2 m = pos 0
memcmp_loop (suc rounds) i s1 s2 m =
    let rest = memcmp_loop rounds (i + 1) s1 s2 m in
    if m (s1 + i) == m (s2 + i)
    then rest
    else if ltb (m (s1 + i)) (m (s2 + i))
    then negsuc 0
    else pos 1

pub memcmp : ℕ → ℕ → ℕ → Memory → ℤ
unfolding memcmp_loop
memcmp s1 s2 n m = memcmp_loop n 0 s1 s2 m
