-- ===== src/Common/Words.antt =====
-- Machine words: a value is a natural number, and each operation that can leave the range of its C
-- type wraps around explicitly.
use Prim.Native.Nat.{ℕ, ◌+◌, ◌-◌, ◌*◌, ◌%◌, ◌^◌}

-- `uint64_t` and `size_t`.
abbrev pub u64_mod : ℕ
u64_mod = 2 ^ 64

abbrev pub u32_mod : ℕ
u32_mod = 2 ^ 32

abbrev pub add64 : ℕ → ℕ → ℕ
add64 a b = (a + b) % u64_mod

abbrev pub sub64 : ℕ → ℕ → ℕ
sub64 a b = (a + (u64_mod - b % u64_mod)) % u64_mod

abbrev pub mul64 : ℕ → ℕ → ℕ
mul64 a b = (a * b) % u64_mod

abbrev pub add32 : ℕ → ℕ → ℕ
add32 a b = (a + b) % u32_mod

abbrev pub sub32 : ℕ → ℕ → ℕ
sub32 a b = (a + (u32_mod - b % u32_mod)) % u32_mod

abbrev pub mul32 : ℕ → ℕ → ℕ
mul32 a b = (a * b) % u32_mod

-- A C pointer as an address; `NULL` is address 0.
abbrev pub null : ℕ
null = 0
