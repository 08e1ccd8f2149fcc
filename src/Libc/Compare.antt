-- ===== src/Libc/Compare.antt =====
-- utils/string.c, the comparisons. A string is the list of its characters up to the NUL.
pub mod Equality
use systemcommander.Common.{ℕ, zero, suc, List, [], ◌∷◌, ◌==◌, if◌then◌else◌}
use systemcommander.Common.Int.{ℤ, pos, sub_ℕ}

-- `*s`: the first character, or the NUL.
abbrev pub first : List ℕ → ℕ
first [] = 0
first (c ∷ s) = c

pub strcmp : List ℕ → List ℕ → ℤ
strcmp [] s2 = sub_ℕ 0 (first s2)
strcmp (c ∷ s1) [] = sub_ℕ c 0
strcmp (c ∷ s1) (d ∷ s2) = let rest = strcmp s1 s2 in if c == d then rest else sub_ℕ c d

unfoldable pub strncmp : List ℕ → List ℕ → ℕ → ℤ
strncmp s1 s2 zero = pos 0
strncmp [] s2 (suc n) = sub_ℕ 0 (first s2)
strncmp (c ∷ s1) [] (suc n) = sub_ℕ c 0
strncmp (c ∷ s1) (d ∷ s2) (suc n) = let rest = strncmp s1 s2 n in if c == d then rest else sub_ℕ c d
