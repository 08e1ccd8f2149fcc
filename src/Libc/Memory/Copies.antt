-- ===== src/Libc/Memory/Copies.antt =====
-- What the copying functions leave in memory.
use systemcommander.Common.{
  ℕ, zero, suc, ◌+◌, ◌-◌, ◌%◌, ◌≤◌, ◌<◌, ◌≡◌, ◌⊎◌, inl, inr, refl, Bool, true, false, ◌&&◌, arith,
  ltb, leb, ◌==◌, if◌then◌else◌, for_range_inv, Bool-cases,
}
use systemcommander.Libc.Memory.{
  Memory, store, copy_up, copy_down, memcpy, mempcpy, memset, memmove,
}

-- Address `a` is one of the `n` from `dest`.
abbrev pub within : ℕ → ℕ → ℕ → Bool
within dest n a = leb dest a && ltb a (dest + n)

-- The memory `m` with the `n` bytes from `src` also at `dest`.
abbrev pub Moved : ℕ → ℕ → ℕ → Memory → Memory → Type 0
Moved dest src n m t = (a : ℕ) → t a ≡ (if within dest n a then m (src + (a - dest)) else m a)

-- A copy upwards serves where the target does not begin inside the source.
copy_up-Moved :
    (dest src n : ℕ) (m : Memory)
    → (dest ≤ src) ⊎ (src + n ≤ dest)
    → Moved dest src n m (copy_up dest src n m)
copy_up-Moved dest src n m apart =
    for_range_inv (λ k t. Moved dest src k m t) _ n 0 n (λ k t _ lt h a. step k t lt h a)
      (omega arith) m (λ a. ground arith)
  where
    step :
        (k : ℕ) (t : Memory)
        → k < n
        → Moved dest src k m t
        → (a : ℕ)
        → store t (dest + k) (t (src + k)) a
          ≡ (if within dest (k + 1) a then m (src + (a - dest)) else m a)
    step k t lt h a = elim (Bool-cases (a == dest + k)) [
      | inl e ↦ rw e (ground (arith, e, h (src + k), apart))
      | inr e ↦ rw e (ground (arith, e, h a))
    ]

copy_down-Moved :
    (dest src n : ℕ) (m t : Memory) (done : ℕ)
    → src < dest
    → ((a : ℕ)
        → t a ≡ (if leb (dest + n) a && ltb a (dest + n + done) then m (src + (a - dest)) else m a))
    → Moved dest src (n + done) m (copy_down dest src n t)
unfolding copy_down
copy_down-Moved dest src zero m t done lt h a = ground (arith, h a)
copy_down-Moved dest src (suc n) m t done lt h a = ground (
  arith,
  copy_down-Moved dest src n m (store t (dest + n) (t (src + n))) (suc done) lt
      (λ b. step b (Bool-cases (b == dest + n))) a,
)
  where
    step :
        (b : ℕ)
        → ((b == dest + n) ≡ true) ⊎ ((b == dest + n) ≡ false)
        → store t (dest + n) (t (src + n)) b
          ≡ (if leb (dest + n) b && ltb b (dest + n + suc done) then m (src + (b - dest)) else m b)
    step b (inl e) = rw e (ground (arith, e, h (src + n)))
    step b (inr e) = rw e (ground (arith, e, h b))

-- `memmove` leaves the former bytes of the source at the target, however the two overlap, and all
-- other bytes as they were.
pub memmove-Moved : (dest src n : ℕ) (m : Memory) → Moved dest src n m (memmove dest src n m).0
unfolding memmove
memmove-Moved dest src n m a = elim (Bool-cases (ltb dest src)) [
  | inl up ↦ rw up (copy_up-Moved dest src n m (inl (ground (arith, up))) a)
  | inr e ↦ elim (Bool-cases (ltb src dest)) [
    | inl down ↦
        rw (e, down)
          (ground
            (arith, copy_down-Moved dest src n m m 0 (ground (arith, down)) (λ b. ground arith) a))
    | inr f ↦ rw (e, f) (ground (arith, e, f))
  ]
]

-- `memcpy` does so where the source and the target do not overlap, and `mempcpy` returns the end.
pub memcpy-Moved :
    (dest src n : ℕ) (m : Memory)
    → (dest + n ≤ src) ⊎ (src + n ≤ dest)
    → Moved dest src n m (memcpy dest src n m).0
      × ((mempcpy dest src n m).1 ≡ dest + n)
      × Moved dest src n m (mempcpy dest src n m).0
unfolding memcpy mempcpy
memcpy-Moved dest src n m apart =
    (copy_up-Moved dest src n m near, refl, copy_up-Moved dest src n m near)
  where
    near : (dest ≤ src) ⊎ (src + n ≤ dest)
    near = ground arith

pub memset_lem :
    (s c n : ℕ) (m : Memory) (a : ℕ)
    → (memset s c n m).0 a ≡ (if within s n a then c % 256 else m a)
unfolding memset
memset_lem s c n m =
    for_range_inv (λ k (t : Memory). (a : ℕ) → t a ≡ (if within s k a then c % 256 else m a)) _ n 0
      n (λ k t _ lt h a. ground (arith, h a)) (omega arith) m (λ a. ground arith)
