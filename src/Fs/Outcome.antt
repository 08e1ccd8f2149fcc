-- ===== src/Fs/Outcome.antt =====
-- What calls of a file system come to, and reading from an object's bytes.
use systemcommander.Common.{
  ℕ, ◌+◌, ◌≤◌, ◌≡◌, refl, ap, ◌∙◌, true, List, length, take, drop, slice, leb, if◌then◌else◌, arith,
}

-- What becomes of a call: it returns, or it reads or writes outside of an object or divides by 0, or it
-- panics, or the rounds that it is given run out.
pub data Outcome (A : Type 0) : Type 0 where
  done : A → Outcome A
  fault panicked out_of_fuel : Outcome A

abbrev pub M : Type 0 → Type 0 → Type 0
M S A = S → Outcome (A × S)

unfoldable pub pass : {S A B : Type 0} → Outcome (A × S) → (A → M S B) → Outcome (B × S)
pass (done (a, s)) f = f a s
pass fault f = fault
pass panicked f = panicked
pass out_of_fuel f = out_of_fuel

infixl 5 ◌>>=◌
abbrev pub ◌>>=◌ : {S A B : Type 0} → M S A → (A → M S B) → M S B
◌>>=◌ m f s = pass (m s) f

-- A step that returns is followed by the rest.
pub pass-eq :
    {S A B : Type 0} {o : Outcome (A × S)} (f : A → M S B) {t : S} {a : A} {out : Outcome (B × S)}
    → o ≡ done (a, t)
    → f a t ≡ out
    → pass o f ≡ out
unfolding pass
pass-eq f step rest = ap (λ o. pass o f) step ∙ rest

pub pass-fault :
    {S A B : Type 0} {o : Outcome (A × S)} (f : A → M S B) → o ≡ fault → pass o f ≡ fault
unfolding pass
pass-fault f failed = ap (λ o. pass o f) failed

pub pass-congr :
    {S A B : Type 0} (o : Outcome (A × S)) (f g : A → M S B)
    → ((a : A) (t : S) → f a t ≡ g a t)
    → pass o f ≡ pass o g
unfolding pass
pass-congr (done (a, t)) f g same = same a t
pass-congr fault f g same = refl
pass-congr panicked f g same = refl
pass-congr out_of_fuel f g same = refl

abbrev pub return : {S A : Type 0} → A → M S A
return a s = done (a, s)

-- `n` bytes from `offset` on, of an object that has these bytes.
abbrev pub load : {S : Type 0} → List ℕ → (offset n : ℕ) → M S (List ℕ)
load bytes offset n s =
    if leb (offset + n) (length bytes) then done (take n (drop offset bytes), s) else fault

pub load_lem :
    {S : Type 0} (bytes : List ℕ) (offset n : ℕ) (s : S)
    → offset + n ≤ length bytes
    → load bytes offset n s ≡ done (slice bytes offset n, s)
load_lem bytes offset n s inside =
    let fits : leb (offset + n) (length bytes) ≡ true = ground arith in rw fits refl
