-- ===== src/Libc/Strings.antt =====
-- utils/string.c, the functions that build strings in memory. A loop that runs to the terminating
-- NUL takes fuel; `none` means that there was no NUL in that many bytes.
pub mod Building
use systemcommander.Common.{ℕ, zero, suc, ◌+◌, Option, none, some, ◌==◌, if◌then◌else◌}
use systemcommander.Libc.Memory.{Memory, store, mempcpy}

-- `while (*s != '\0') { len++; s++; }`
strlen_loop : ℕ → ℕ → ℕ → Memory → Option ℕ
strlen_loop zero s len m = none
strlen_loop (suc fuel) s len m =
    let rest = strlen_loop fuel (s + 1) (len + 1) m in if m s == 0 then some len else rest

pub strlen : ℕ → ℕ → Memory → Option ℕ
unfolding strlen_loop
strlen fuel s m = strlen_loop fuel s 0 m

infixl 5 ◌>>=◌
abbrev ◌>>=◌ : {A B : Type 0} → Option A → (A → Option B) → Option B
none >>= f = none
some a >>= f = f a

pub stpcpy : ℕ → ℕ → ℕ → Memory → Option (Memory × ℕ)
stpcpy fuel dst src m = do
  n ← strlen fuel src m
  let p = mempcpy dst src n m
  some (store p.0 p.1 0, p.1)

pub strcpy : ℕ → ℕ → ℕ → Memory → Option (Memory × ℕ)
unfolding stpcpy
strcpy fuel dst src m = do p ← stpcpy fuel dst src m; some (p.0, dst)

pub strcat : ℕ → ℕ → ℕ → Memory → Option (Memory × ℕ)
unfolding stpcpy
strcat fuel dst src m = do n ← strlen fuel dst m; p ← stpcpy fuel (dst + n) src m; some (p.0, dst)

-- `while (*ptr) ptr++;` ends where `strlen` does.
pub strchrcat : ℕ → ℕ → ℕ → Memory → Option (Memory × ℕ)
strchrcat fuel dst src m = do
  n ← strlen fuel dst m
  let ptr = dst + n
  some (store (store m ptr src) (ptr + 1) 0, dst)
