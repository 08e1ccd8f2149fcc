-- ===== src/Libc/Compare/Equality.antt =====
-- When the comparisons return 0.
use systemcommander.Common.{
  ℕ, zero, suc, ◌≡◌, ◌≢◌, ◌↔◌, refl, List, [], ◌∷◌, arith, take, ◌==◌, inl, inr, Bool-cases,
}
use systemcommander.Common.Int.{pos}
use systemcommander.Libc.Compare.{strcmp, strncmp}

-- No character is NUL.
abbrev pub IsText : List ℕ → Type 0
IsText [] = Unit
IsText (c ∷ s) = (c ≢ 0) × IsText s

-- `strcmp` returns 0 exactly for equal strings.
pub strcmp-zero_iff : (s t : List ℕ) → IsText s → IsText t → (strcmp s t ≡ pos 0) ↔ (s ≡ t)
unfolding strcmp
strcmp-zero_iff [] [] hs ht = (λ _. refl, λ _. refl)
strcmp-zero_iff [] (d ∷ t) hs ht = (λ e. absurd (ground (arith, e, ht.0)), λ e. cc)
strcmp-zero_iff (c ∷ s) [] hs ht = (λ e. absurd (ground (arith, e, hs.0)), λ e. cc)
strcmp-zero_iff (c ∷ s) (d ∷ t) hs ht = elim (Bool-cases (c == d)) [
  | inl e ↦ rw e (
    λ z. ground (arith, e, (strcmp-zero_iff s t hs.1 ht.1).0 z),
    λ q. (strcmp-zero_iff s t hs.1 ht.1).1 (cc),
  )
  | inr e ↦ rw e (λ z. absurd (ground (arith, e, z)), λ q. ground (arith, e, q))
]

-- `strncmp` returns 0 exactly where the first `n` characters agree.
pub strncmp-zero_iff :
    (s t : List ℕ) (n : ℕ) → IsText s → IsText t → (strncmp s t n ≡ pos 0) ↔ (take n s ≡ take n t)
unfolding strncmp
strncmp-zero_iff s t zero hs ht = (λ _. refl, λ _. refl)
strncmp-zero_iff [] [] (suc n) hs ht = (λ _. refl, λ _. refl)
strncmp-zero_iff [] (d ∷ t) (suc n) hs ht = (λ e. absurd (ground (arith, e, ht.0)), λ e. cc)
strncmp-zero_iff (c ∷ s) [] (suc n) hs ht = (λ e. absurd (ground (arith, e, hs.0)), λ e. cc)
strncmp-zero_iff (c ∷ s) (d ∷ t) (suc n) hs ht = elim (Bool-cases (c == d)) [
  | inl e ↦ rw e (
    λ z. ground (arith, e, (strncmp-zero_iff s t n hs.1 ht.1).0 z),
    λ q. (strncmp-zero_iff s t n hs.1 ht.1).1 (cc),
  )
  | inr e ↦ rw e (λ z. absurd (ground (arith, e, z)), λ q. ground (arith, e, q))
]
