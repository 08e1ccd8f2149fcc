-- ===== src/Libc/Tests.antt =====
-- The string and memory functions at concrete contents.
use systemcommander.Common.{
  ℕ, ◌<◌, ◌≡◌, ◌↔◌, ◌⊎◌, inl, inr, refl, some, List, [], ◌∷◌, arith, ◌==◌, if◌then◌else◌, take,
}
use systemcommander.Common.Int.{pos}
use systemcommander.Libc.Memory.{Memory, memcpy, mempcpy, memmove}
use systemcommander.Libc.Memory.Copies.{Moved, memmove-Moved, memcpy-Moved}
use systemcommander.Libc.Strings.{strcat}
use systemcommander.Libc.Strings.Building.{IsString, strcat-append}
use systemcommander.Libc.Compare.{strcmp, strncmp}
use systemcommander.Libc.Compare.Equality.{strcmp-zero_iff, strncmp-zero_iff}
use systemcommander.Libc.Itoa.{itoa}
use systemcommander.Libc.Itoa.Digits.{Prints, itoa-Prints}

-- Address `k` holds `k`, so that what is moved can be seen.
abbrev numbered : Memory
numbered k = k

-- "ab" at address 0 and "c" at address 10.
abbrev two_strings : Memory
two_strings k = if k == 0 then b'a' else if k == 1 then b'b' else if k == 10 then b'c' else 0

overlapping_move : Moved 4 2 6 numbered (memmove 4 2 6 numbered).0
overlapping_move = memmove-Moved 4 2 6 numbered

disjoint_copy :
    Moved 20 2 6 numbered (memcpy 20 2 6 numbered).0
    × ((mempcpy 20 2 6 numbered).1 ≡ 26)
    × Moved 20 2 6 numbered (mempcpy 20 2 6 numbered).0
disjoint_copy = memcpy-Moved 20 2 6 numbered (inr (omega arith))

joined :
    (t : Memory) × (strcat 9 0 10 two_strings ≡ some (t, 0))
    × IsString t 0 (b'a' ∷ b'b' ∷ b'c' ∷ [])
    × ((a : ℕ) → (a < 0) ⊎ (3 < a) → t a ≡ two_strings a)
joined =
    strcat-append 9 0 10 two_strings (b'a' ∷ b'b' ∷ []) (b'c' ∷ [])
      (refl, omega arith, (refl, omega arith, refl)) (refl, omega arith, refl) (omega arith)
      (inl (omega arith))

abbrev dev_name : List ℕ
dev_name = b'd' ∷ b'e' ∷ b'v' ∷ []

abbrev den_name : List ℕ
den_name = b'd' ∷ b'e' ∷ b'n' ∷ []

strings_compared : (strcmp dev_name den_name ≡ pos 0) ↔ (dev_name ≡ den_name)
strings_compared =
    strcmp-zero_iff dev_name den_name (omega arith, (omega arith, (omega arith, record {})))
      (omega arith, (omega arith, (omega arith, record {})))

fronts_compared : (strncmp dev_name den_name 2 ≡ pos 0) ↔ (take 2 dev_name ≡ take 2 den_name)
fronts_compared =
    strncmp-zero_iff dev_name den_name 2 (omega arith, (omega arith, (omega arith, record {})))
      (omega arith, (omega arith, (omega arith, record {})))

printed : Prints 16 48879 (itoa (λ k. 0) 48879 16)
printed = itoa-Prints 16 48879 (λ k. 0) (omega arith) (omega arith) (omega arith) refl
