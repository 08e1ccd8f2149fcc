-- ===== src/Common/Slices.antt =====
-- Parts of a list: `n` elements from `offset` on.
use Prim.Native.Nat.{ℕ, zero, suc, ◌+◌, ◌≤◌}
use mathlib.Core.Path.{◌≡◌, refl, ap, ◌∙◌}
use mathlib.Core.List.{List, [], ◌∷◌, ◌++◌}
use native.Mathlib.Omega.{arith}
use systemcommander.Common.Lists.{length, take, drop, length-take, length-drop}

abbrev pub slice {ℓ} : {A : Type ℓ} → List A → (offset n : ℕ) → List A
slice xs offset n = take n (drop offset xs)

module _ {ℓ} {A : Type ℓ} where
  pub drop-drop : (xs : List A) (m n : ℕ) → drop n (drop m xs) ≡ drop (m + n) xs
  drop-drop xs zero n = let e : 0 + n ≡ n = omega arith in rw e
  drop-drop [] (suc m) zero = let e : suc m + 0 ≡ suc m = omega arith in rw e
  drop-drop [] (suc m) (suc n) = let e : suc m + suc n ≡ suc (m + suc n) = omega arith in rw e
  drop-drop (x ∷ xs) (suc m) n =
      let e : suc m + n ≡ suc (m + n) = omega arith in rw e (drop-drop xs m n)

  take-drop-take :
      (xs : List A) (k o n : ℕ) → o + n ≤ k → take n (drop o (take k xs)) ≡ take n (drop o xs)
  take-drop-take xs k zero zero h = refl
  take-drop-take xs zero zero (suc n) h = absurd (omega arith)
  take-drop-take [] (suc k) zero (suc n) h = refl
  take-drop-take (x ∷ xs) (suc k) zero (suc n) h =
      ap (λ l. x ∷ l) (take-drop-take xs k zero n (omega arith))
  take-drop-take xs zero (suc o) n h = absurd (omega arith)
  take-drop-take [] (suc k) (suc o) n h = refl
  take-drop-take (x ∷ xs) (suc k) (suc o) n h = take-drop-take xs k o n (omega arith)

  -- A part of a part.
  pub slice-slice :
      (xs : List A) (o k p n : ℕ) → p + n ≤ k → slice (slice xs o k) p n ≡ slice xs (o + p) n
  slice-slice xs o k p n h = take-drop-take (drop o xs) k p n h ∙ ap (take n) (drop-drop xs o p)

  pub length-slice : (xs : List A) (o n : ℕ) → o + n ≤ length xs → length (slice xs o n) ≡ n
  length-slice xs o n h = omega (arith, length-take n (drop o xs), length-drop o xs)

  pub take-append_self : (xs ys : List A) → take (length xs) (xs ++ ys) ≡ xs
  take-append_self [] ys = refl
  take-append_self (x ∷ xs) ys = ap (λ l. x ∷ l) (take-append_self xs ys)

  pub drop-append_self : (xs ys : List A) (k : ℕ) → drop (length xs + k) (xs ++ ys) ≡ drop k ys
  drop-append_self [] ys k = let e : 0 + k ≡ k = omega arith in rw e
  drop-append_self (x ∷ xs) ys k =
      let e : suc (length xs) + k ≡ suc (length xs + k) = omega arith in
      rw e (drop-append_self xs ys k)

  take-add : (xs : List A) (m n : ℕ) → take (m + n) xs ≡ take m xs ++ take n (drop m xs)
  take-add xs zero n = let e : 0 + n ≡ n = omega arith in rw e
  take-add [] (suc m) zero = let e : suc m + 0 ≡ suc m = omega arith in rw e
  take-add [] (suc m) (suc n) = let e : suc m + suc n ≡ suc (m + suc n) = omega arith in rw e
  take-add (x ∷ xs) (suc m) n =
      let e : suc m + n ≡ suc (m + n) = omega arith in rw e (ap (λ l. x ∷ l) (take-add xs m n))

  -- Two parts that stand side by side are one.
  pub slice-append :
      (xs : List A) (o m n : ℕ) → slice xs o m ++ slice xs (o + m) n ≡ slice xs o (m + n)
  slice-append xs o m n = rw (← drop-drop xs o m, take-add (drop o xs) m n)
