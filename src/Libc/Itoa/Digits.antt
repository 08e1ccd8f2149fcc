-- ===== src/Libc/Itoa/Digits.antt =====
-- The digits that `itoa` writes.
use Prim.Native.Nat.pow
use native.Mathlib.Nat.{pow-suc, div-add-mod', mod-lt}
use systemcommander.Common.{
  ℕ, zero, suc, ◌+◌, ◌-◌, ◌*◌, ◌/◌, ◌%◌, ◌^◌, ◌≤◌, ◌<◌, ◌≡◌, refl, ◌∙◌, arith, ltb, ◌⊎◌, true, ◌==◌,
  if◌then◌else◌, inl, inr, Bool-cases, false,
}
use systemcommander.Libc.Itoa.{Buffer, CharPtr, zero_text, in_buf, digit, put, itoa_loop, itoa}

-- The value of a digit's character.
abbrev pub undigit : ℕ → ℕ
undigit c = if ltb c 58 then c - 48 else c - 87

-- `c` is the character of a digit in the base, 0 to 9 and then a to f.
abbrev pub IsDigit : (base c : ℕ) → Type 0
IsDigit base c = ((48 ≤ c × (c ≤ 57)) ⊎ (97 ≤ c × (c ≤ 102))) × (undigit c < base)

-- The number that `n` digits from index `p` on stand for.
pub number : ℕ → Buffer → ℕ → ℕ → ℕ
number base buf p zero = 0
number base buf p (suc n) = number base buf p n * base + undigit (buf (p + n))

number_ext :
    (base : ℕ) (b c : Buffer) (p n : ℕ)
    → ((i : ℕ) → i < n → b (p + i) ≡ c (p + i))
    → number base b p n ≡ number base c p n
unfolding number
number_ext base b c p zero same = refl
number_ext base b c p (suc n) same =
    rw (number_ext base b c p n (λ i lt. same i (omega arith)), same n (omega arith))

div_lt_pow : (base j val : ℕ) → 0 < base → val < base ^ suc j → val / base < base ^ j
div_lt_pow base j val h lt = grind (arith, pow-suc base j)

digit_value : (d : ℕ) → d < 16 → undigit (digit d) ≡ d
digit_value d h = ground arith

digit-IsDigit : (base d : ℕ) → base ≤ 16 → d < base → IsDigit base (digit d)
digit-IsDigit base d small h = elim (Bool-cases (ltb d 10)) [
  | inl e ↦ rw e (inl (omega arith, ground (arith, e)), ground (arith, h, small, e))
  | inr e ↦ rw e (inr (ground (arith, e), omega (arith, h, small)), ground (arith, h, small, e))
]

record Written (base i val : ℕ) (buf : Buffer) (out : Buffer × ℕ) : Type 0 where
  stop : out.1 ≤ i
  value : number base out.0 (out.1 + 1) (i - out.1) ≡ val
  digits : (k : ℕ) → out.1 < k → k ≤ i → IsDigit base (out.0 k)
  above : (k : ℕ) → i < k → out.0 k ≡ buf k

module _ (base : ℕ) (pos : 0 < base) (small : base ≤ 16) where
  Written-step :
      (i val : ℕ) (buf : Buffer) (out : Buffer × ℕ)
      → Written base i (val / base) (put buf (suc i) (digit (val % base))) out
      → Written base (suc i) val buf out
  unfolding number
  Written-step i val buf out w = record {
    stop = omega (arith, w.stop);
    value =
        let e : suc i - out.1 ≡ suc (i - out.1) = omega (arith, w.stop) in
        let at : out.1 + 1 + (i - out.1) ≡ suc i = omega (arith, w.stop) in
        rw (e, w.value, at, w.above (suc i) (omega arith))
          (ground (arith, digit_value (val % base), mod-lt val pos, div-add-mod' val base));
    digits = λ k lo hi. elim (Bool-cases (k == suc i)) [
      | inl e ↦
          let at : k ≡ suc i = ground (arith, e) in
          let self : (suc i == suc i) ≡ true = ground arith in
          rw (at, w.above (suc i) (omega arith), self)
            (digit-IsDigit base (val % base) small (mod-lt val pos))
      | inr e ↦ w.digits k lo (ground (arith, e, hi))
    ];
    above = λ k lt. ground (arith, w.above k (omega arith));
  }

  itoa_loop-Written :
      (i val : ℕ) (buf : Buffer)
      → val < base ^ i
      → Written base i val buf (itoa_loop base i val buf)
  unfolding itoa_loop number
  itoa_loop-Written zero val buf lt = record {
    stop = omega arith;
    value = omega (arith, pow.zero base);
    digits = λ k lo hi. absurd (omega arith);
    above = λ k h. refl;
  }
  itoa_loop-Written (suc i) val buf lt = elim (Bool-cases (val == 0)) [
    | inl z ↦ rw z (record {
      stop = omega arith;
      value = let e : suc i - suc i ≡ 0 = omega arith in rw e (ground (arith, z));
      digits = λ k lo hi. absurd (omega arith);
      above = λ k h. refl;
    })
    | inr nz ↦ rw nz (
        Written-step i val buf _
          (itoa_loop-Written i (val / base) _ (div_lt_pow base i val pos lt)))
  ]

-- The text from index `p` up to index 22 is digits, ends there with a NUL, and is the number `val`.
abbrev pub Prints : ℕ → ℕ → Buffer × CharPtr → Type 0
Prints base val (buf, zero_text) = val ≡ 0
Prints base val (buf, in_buf p) =
    (p ≤ 23)
    × (number base buf p (23 - p) ≡ val)
    × ((k : ℕ) → p ≤ k → k ≤ 22 → IsDigit base (buf k))
    × (buf 23 ≡ 0)

-- `itoa` prints a number that has at most 22 digits in the base, 2 to 16, into a buffer with a NUL at
-- index 23: what it points at is a text of digits of the base up to that NUL, which reads back as the
-- number, or, for 0, the constant "0".
pub itoa-Prints :
    (base val : ℕ) (buf : Buffer)
    → 2 ≤ base
    → base ≤ 16
    → val < base ^ 22
    → buf 23 ≡ 0
    → Prints base val (itoa buf val base)
unfolding itoa
itoa-Prints base val buf lo hi lt nul =
    let e : ltb 16 base ≡ false = ground arith in
    elim (Bool-cases (val == 0)) [
      | inl z ↦ rw (e, z) (ground (arith, z))
      | inr nz ↦ rw (e, nz) (finish (itoa_loop-Written base (omega arith) hi 22 val buf lt))
    ]
  where
    finish :
        Written base 22 val buf (itoa_loop base 22 val buf)
        → ((itoa_loop base 22 val buf).1 + 1 ≤ 23)
          × (number base
                (itoa_loop base 22 val buf).0
                ((itoa_loop base 22 val buf).1 + 1)
                (23 - ((itoa_loop base 22 val buf).1 + 1))
              ≡ val)
          × ((k : ℕ)
              → (itoa_loop base 22 val buf).1 + 1 ≤ k
              → k ≤ 22
              → IsDigit base ((itoa_loop base 22 val buf).0 k))
          × ((itoa_loop base 22 val buf).0 23 ≡ 0)
    finish w =
        let q : 23 - ((itoa_loop base 22 val buf).1 + 1) ≡ 22 - (itoa_loop base 22 val buf).1 =
          omega arith in
        (
          omega (arith, w.stop),
          rw q w.value,
          λ k lo hi. w.digits k (omega arith) hi,
          w.above 23 (omega arith) ∙ nul,
        )
