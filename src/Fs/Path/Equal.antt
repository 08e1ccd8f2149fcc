-- ===== src/Fs/Path/Equal.antt =====
-- When two paths are equal, and when one is a prefix of the other.
use systemcommander.Common.{
  ℕ, zero, suc, ◌≤◌, ◌≡◌, ◌↔◌, refl, ap, true, List, [], ◌∷◌, ◌++◌, length, drop, take, arith, inl,
  inr, Bool-cases, ◌==◌, ◌&&◌,
}
use systemcommander.Common.Int.{ℤ, pos, negsuc}
use systemcommander.Libc.Compare.{strcmp, strncmp}
use systemcommander.Libc.Compare.Equality.{IsText, strcmp-zero_iff, strncmp-zero_iff}
use systemcommander.Fs.Path.{
  FsPath, depth, is_zero, equal_components, paths_equal, components_match,
}

-- Each component is a text of at most 255 characters.
abbrev pub AreNames : List (List ℕ) → Type 0
AreNames [] = Unit
AreNames (c ∷ cs) = IsText c × (length c ≤ 255) × AreNames cs

pub is_zero_iff : (z : ℤ) → (is_zero z ≡ true) ↔ (z ≡ pos 0)
is_zero_iff (pos zero) = (λ _. refl, λ _. refl)
is_zero_iff (pos (suc n)) = (λ e. cc, λ e. ground arith)
is_zero_iff (negsuc n) = (λ e. cc, λ e. cc)

take_all : {A : Type 0} (n : ℕ) (xs : List A) → length xs ≤ n → take n xs ≡ xs
take_all zero [] h = refl
take_all zero (x ∷ xs) h = absurd (omega arith)
take_all (suc n) [] h = refl
take_all (suc n) (x ∷ xs) h = ap (λ t. x ∷ t) (take_all n xs (omega arith))

same_name :
    (c d : List ℕ)
    → IsText c
    → IsText d
    → length c ≤ 255
    → length d ≤ 255
    → (is_zero (strncmp c d 255) ≡ true) ↔ (c ≡ d)
same_name c d hc hd lc ld = (
  λ e.
      rw (take_all 255 c lc, take_all 255 d ld) at
        ((strncmp-zero_iff c d 255 hc hd).0 ((is_zero_iff _).0 e)),
  λ e. (is_zero_iff _).1 ((strncmp-zero_iff c d 255 hc hd).1 (ap (take 255) e)),
)

equal_components_iff :
    (cs ds : List (List ℕ))
    → AreNames cs
    → AreNames ds
    → length cs ≡ length ds
    → (equal_components cs ds ≡ true) ↔ (cs ≡ ds)
unfolding equal_components
equal_components_iff [] [] hc hd e = (λ _. refl, λ _. refl)
equal_components_iff [] (d ∷ ds) hc hd e = absurd (omega arith)
equal_components_iff (c ∷ cs) [] hc hd e = absurd (omega arith)
equal_components_iff (c ∷ cs) (d ∷ ds) hc hd e = elim (Bool-cases (is_zero (strncmp c d 255))) [
  | inl z ↦
      let q = (same_name c d hc.0 hd.0 hc.1 hd.1).0 z in
      rw z (
        λ h. cc (q, (equal_components_iff cs ds hc.2 hd.2 (omega arith)).0 h),
        λ h. (equal_components_iff cs ds hc.2 hd.2 (omega arith)).1 (cc),
      )
  | inr z ↦ rw z (λ h. cc, λ h. cc (z, (same_name c d hc.0 hd.0 hc.1 hd.1).1 (ground (arith, h))))
]

-- `paths_equal` holds exactly of equal paths, if their components are names of up to 255 characters.
pub paths_equal_iff :
    (p q : FsPath)
    → AreNames p.components
    → AreNames q.components
    → (paths_equal p q ≡ true) ↔ (p.components ≡ q.components)
unfolding paths_equal
paths_equal_iff p q hp hq = elim (Bool-cases (depth p == depth q)) [
  | inl e ↦ rw e (elim (Bool-cases (depth p == 0 && depth q == 0)) [
    | inl z ↦ rw z (
      λ _. both_empty p.components q.components (ground (arith, z)) (ground (arith, z)),
      λ _. refl,
    )
    | inr z ↦ rw z (equal_components_iff p.components q.components hp hq (ground (arith, e)))
  ])
  | inr e ↦ rw e (λ h. cc, λ h. ground (arith, e, ap (λ (t : List (List ℕ)). length t) h))
]
  where
    both_empty : (cs ds : List (List ℕ)) → length cs ≡ 0 → length ds ≡ 0 → cs ≡ ds
    both_empty [] [] a b = refl
    both_empty [] (d ∷ ds) a b = absurd (omega arith)
    both_empty (c ∷ cs) ds a b = absurd (omega arith)

-- `cs` is a prefix of `ds`.
abbrev pub IsPrefix : List (List ℕ) → List (List ℕ) → Type 0
IsPrefix cs ds = cs ++ drop (length cs) ds ≡ ds

pub components_match_iff :
    (cs ds : List (List ℕ))
    → AreNames cs
    → AreNames ds
    → length cs ≤ length ds
    → (components_match cs ds ≡ true) ↔ IsPrefix cs ds
unfolding components_match
components_match_iff [] ds hc hd le = (λ _. refl, λ _. refl)
components_match_iff (c ∷ cs) [] hc hd le = absurd (omega arith)
components_match_iff (c ∷ cs) (d ∷ ds) hc hd le = elim (Bool-cases (is_zero (strcmp c d))) [
  | inl z ↦
      let q = (strcmp-zero_iff c d hc.0 hd.0).0 ((is_zero_iff _).0 z) in
      rw z (
        λ h. cc (q, (components_match_iff cs ds hc.2 hd.2 (omega arith)).0 h),
        λ h. (components_match_iff cs ds hc.2 hd.2 (omega arith)).1 (cc),
      )
  | inr z ↦ rw z (
    λ h. cc,
    λ h. cc (z, (is_zero_iff _).1 ((strcmp-zero_iff c d hc.0 hd.0).1 (ground (arith, h)))),
  )
]
