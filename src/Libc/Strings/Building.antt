-- ===== src/Libc/Strings/Building.antt =====
-- Strings in memory: what `strlen` counts and what `strcat` and `strchrcat` build.
use systemcommander.Common.{
  ℕ, zero, suc, ◌+◌, ◌-◌, ◌≤◌, ◌<◌, ◌≡◌, ◌≢◌, ◌⊎◌, ap, some, List, [], ◌∷◌, ◌++◌, length, arith,
  ◌==◌, if◌then◌else◌,
}
use systemcommander.Libc.Memory.{Memory, store, mempcpy}
use systemcommander.Libc.Memory.Copies.{within, memcpy-Moved}
use systemcommander.Libc.Strings.{strlen_loop, strlen, strcat}

-- The string `cs` stands at address `p`: its characters, none of them NUL, and then a NUL.
abbrev pub IsString : Memory → ℕ → List ℕ → Type 0
IsString m p [] = m p ≡ 0
IsString m p (c ∷ cs) = (m p ≡ c) × (c ≢ 0) × IsString m (p + 1) cs

strlen_loop_lem :
    (fuel p len : ℕ) (m : Memory) (cs : List ℕ)
    → IsString m p cs
    → length cs < fuel
    → strlen_loop fuel p len m ≡ some (len + length cs)
unfolding strlen_loop
strlen_loop_lem zero p len m cs h lt = absurd (omega arith)
strlen_loop_lem (suc fuel) p len m [] h lt = ground (arith, h)
strlen_loop_lem (suc fuel) p len m (c ∷ cs) h lt =
    ground (arith, h.0, h.1, strlen_loop_lem fuel (p + 1) (len + 1) m cs h.2 (omega arith))

pub strlen-length :
    (fuel p : ℕ) (m : Memory) (cs : List ℕ)
    → IsString m p cs
    → length cs < fuel
    → strlen fuel p m ≡ some (length cs)
unfolding strlen
strlen-length fuel p m cs h lt = ground (arith, strlen_loop_lem fuel p 0 m cs h lt)

-- A string stays where no byte of it changes.
IsString-frame :
    (m t : Memory) (p q : ℕ) (cs : List ℕ)
    → ((i : ℕ) → i ≤ length cs → t (q + i) ≡ m (p + i))
    → IsString m p cs
    → IsString t q cs
IsString-frame m t p q [] same h = ground (arith, same 0, h)
IsString-frame m t p q (c ∷ cs) same h = (
  ground (arith, same 0, h.0),
  h.1,
  IsString-frame m t (p + 1) (q + 1) cs (λ i le. ground (arith, same (i + 1))) h.2,
)

-- Two strings one behind the other.
IsString-append :
    (t : Memory) (p : ℕ) (cs ds : List ℕ)
    → ((i : ℕ) → i < length cs → (t (p + i) ≢ 0))
    → IsString t (p + length cs) ds
    → (m : Memory) → ((i : ℕ) → i < length cs → t (p + i) ≡ m (p + i))
    → IsString m p cs
    → IsString t p (cs ++ ds)
IsString-append t p [] ds nz h m same s = let e : p + 0 ≡ p = omega arith in rw e at h
IsString-append t p (c ∷ cs) ds nz h m same s = (
  ground (arith, same 0, s.0),
  s.1,
  IsString-append t (p + 1) cs ds
      (λ i lt. let e : p + 1 + i ≡ p + (i + 1) = omega arith in rw e (nz (i + 1) (omega arith)))
      (let e : p + suc (length cs) ≡ p + 1 + length cs = omega arith in rw e at h) m
      (λ i lt. let e : p + 1 + i ≡ p + (i + 1) = omega arith in rw e (same (i + 1) (omega arith)))
      s.2,
)

IsString-nonzero :
    (m : Memory) (p : ℕ) (cs : List ℕ) → IsString m p cs → (i : ℕ) → i < length cs → m (p + i) ≢ 0
IsString-nonzero m p [] h i lt = absurd (omega arith)
IsString-nonzero m p (c ∷ cs) h zero lt = let e : p + 0 ≡ p = omega arith in rw (e, h.0) h.1
IsString-nonzero m p (c ∷ cs) h (suc i) lt =
    let e : p + suc i ≡ p + 1 + i = omega arith in
    rw e (IsString-nonzero m (p + 1) cs h.2 i (omega arith))

IsString-end : (m : Memory) (p : ℕ) (cs : List ℕ) → IsString m p cs → m (p + length cs) ≡ 0
IsString-end m p [] h = let e : p + 0 ≡ p = omega arith in rw e h
IsString-end m p (c ∷ cs) h =
    let e : p + suc (length cs) ≡ p + 1 + length cs = omega arith in
    rw e (IsString-end m (p + 1) cs h.2)

module _ (fuel dst src : ℕ) (m : Memory) (cs ds : List ℕ) (front : IsString m dst cs)
    (back : IsString m src ds) (enough : length cs + length ds < fuel)
    (apart : (dst + length cs + length ds < src) ⊎ (src + length ds < dst)) where
  result : Memory
  result = store (mempcpy (dst + length cs) src (length ds) m).0 (dst + length cs + length ds) 0

  result_at :
      (a : ℕ)
      → result a ≡ (
          if a == dst + length cs + length ds
          then 0
          else if within (dst + length cs) (length ds) a
          then m (src + (a - (dst + length cs)))
          else m a)
  unfolding result
  result_at a =
      ground (arith, (memcpy-Moved (dst + length cs) src (length ds) m (ground arith)).2 a)

  strcat-result : strcat fuel dst src m ≡ some (result, dst)
  unfolding strcat result
  strcat-result = rw (
    strlen-length fuel dst m cs front (omega arith),
    strlen-length fuel src m ds back (omega arith),
    (memcpy-Moved (dst + length cs) src (length ds) m (ground arith)).1,
  )

  -- `strcat` appends the string at `src` to the one at `dst`, if the two do not overlap, and changes
  -- no byte outside the new string.
  pub strcat-append :
      (t : Memory) × (strcat fuel dst src m ≡ some (t, dst))
      × IsString t dst (cs ++ ds)
      × ((a : ℕ) → (a < dst) ⊎ (dst + length cs + length ds < a) → t a ≡ m a)
  strcat-append = (
    result,
    strcat-result,
    IsString-append result dst cs ds
        (λ i lt z. IsString-nonzero m dst cs front i lt (ground (arith, z, result_at (dst + i))))
        (IsString-frame m result src (dst + length cs) ds
          (λ i le. ground (arith, result_at (dst + length cs + i), nul_at_end, i_end i)) back)
        m (λ i lt. ground (arith, result_at (dst + i))) front,
    λ a out. ground (arith, result_at a, out),
  )
    where
      nul_at_end : m (src + length ds) ≡ 0
      nul_at_end = IsString-end m src ds back

      i_end : (i : ℕ) → i ≡ length ds → m (src + i) ≡ m (src + length ds)
      i_end i e = ap (λ (t : ℕ). m (src + t)) e
