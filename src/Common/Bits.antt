-- ===== src/Common/Bits.antt =====
-- Facts about the bit operations at variables, by their lowest digit and by tables over a byte.
use Prim.Native.Nat.{
  ℕ, zero, suc, ◌+◌, ◌*◌, ◌/◌, ◌%◌, ◌^◌, ◌≤◌, ◌<◌, min, max, bit_and, bit_or, bitwise, digits,
  bit_and-bitwise, bit_or-bitwise,
}
use mathlib.Core.Path.{◌≡◌, refl, ap, sym, ◌∙◌}
use mathlib.Core.Bool.{Bool, true, ◌&&◌}
use native.Mathlib.Omega.{arith}
use native.Mathlib.Nat.{
  div-div-eq-div-mul, pow-suc, div-add-mod, mul-add-mod_self_left, mod-eq_of_lt, mod-lt,
}

-- A test that every value under a bound passes, which evaluation decides.
unfoldable pub all_below : (bound : ℕ) (test : ℕ → Bool) → Bool
all_below zero test = true
all_below (suc last) test = all_below last test && test last

pub all_below_sound :
    (bound : ℕ) (test : ℕ → Bool) (v : ℕ) → all_below bound test ≡ true → v < bound → test v ≡ true
unfolding all_below
all_below_sound zero test v ok below = absurd (omega arith)
all_below_sound (suc last) test v ok below = ground (arith, all_below_sound last test v)

-- Both operations are the library's `digits`: a first number without digits ends it on any fuel.
digits_done : (base : ℕ → ℕ) (op : ℕ → ℕ → ℕ) (fuel b : ℕ) → digits base op fuel 0 b ≡ base b
digits_done base op zero b = refl
digits_done base op (suc fuel) b = refl

-- Two amounts of fuel that are both enough give the same digits.
digits_agree :
    (base : ℕ → ℕ) (op : ℕ → ℕ → ℕ) (a b fuel other : ℕ)
    → a ≤ fuel
    → a ≤ other
    → digits base op fuel a b ≡ digits base op other a b
digits_agree base op zero b fuel other le le' =
    digits_done base op fuel b ∙ sym (digits_done base op other b)
digits_agree base op (suc a) b zero other le le' = absurd (omega arith)
digits_agree base op (suc a) b (suc fuel) zero le le' = absurd (omega arith)
digits_agree base op (suc a) b (suc fuel) (suc other) le le' =
    ap (λ (t : ℕ). t * 2 + op (suc a % 2) (b % 2))
      (digits_agree base op (suc a / 2) (b / 2) fuel other (omega arith) (omega arith))

-- The lowest digit splits off.
bitwise_step :
    (base : ℕ → ℕ) (op : ℕ → ℕ → ℕ) (a b : ℕ)
    → bitwise base op (suc a) b ≡ bitwise base op (suc a / 2) (b / 2) * 2 + op (suc a % 2) (b % 2)
bitwise_step base op a b =
    ap (λ (t : ℕ). t * 2 + op (suc a % 2) (b % 2))
      (digits_agree base op (suc a / 2) (b / 2) a (suc a / 2) (omega arith) (omega arith))

pub zero-bit_or : (b : ℕ) → bit_or 0 b ≡ b
zero-bit_or = bit_or-bitwise 0

pub bit_or_step : (x y : ℕ) → bit_or x y ≡ bit_or (x / 2) (y / 2) * 2 + max (x % 2) (y % 2)
bit_or_step zero y = omega (arith, zero-bit_or (y / 2), zero-bit_or y)
bit_or_step (suc x) y =
    bit_or-bitwise (suc x) y
    ∙ bitwise_step (λ d. d) max x y
    ∙ ap (λ (t : ℕ). t * 2 + max (suc x % 2) (y % 2)) (sym (bit_or-bitwise (suc x / 2) (y / 2)))

bit_or-zero_fuel : (fuel x : ℕ) → x ≤ fuel → bit_or x 0 ≡ x
bit_or-zero_fuel fuel zero le = zero-bit_or 0
bit_or-zero_fuel zero (suc x) le = absurd (omega arith)
bit_or-zero_fuel (suc fuel) (suc x) le =
    omega (arith, bit_or-zero_fuel fuel (suc x / 2) (omega arith), bit_or_step (suc x) 0)

high_twice : (hi k : ℕ) → hi * 2 ^ suc k ≡ hi * 2 ^ k * 2
high_twice hi k = omega (arith, ap (λ (t : ℕ). hi * t) (pow-suc 2 k))

half_twice : (n : ℕ) → n * 2 / 2 ≡ n
half_twice n = omega arith

-- Where the high operand ends in k zeros and the low one has k digits, `|` adds.
pub bit_or_disjoint : (k hi lo : ℕ) → lo < 2 ^ k → bit_or (hi * 2 ^ k) lo ≡ hi * 2 ^ k + lo
bit_or_disjoint zero hi lo h =
    let e : lo ≡ 0 = omega arith in rw e (omega (arith, bit_or-zero_fuel (hi * 1) (hi * 1)))
bit_or_disjoint (suc k) hi lo h = rw (high_twice hi k) (
    omega (
      arith,
      bit_or_step (hi * 2 ^ k * 2) lo,
      pow-suc 2 k,
      ap (λ (t : ℕ). bit_or t (lo / 2)) (half_twice (hi * 2 ^ k)),
      bit_or_disjoint k hi (lo / 2) (omega (arith, pow-suc 2 k)),
    ))

bit_or_low_fuel : (n lo hi : ℕ) → lo ≤ n → bit_or lo hi ≡ bit_or hi lo
bit_or_low_fuel n zero hi h = omega (arith, zero-bit_or hi, bit_or-zero_fuel hi hi)
bit_or_low_fuel zero (suc lo) hi h = absurd (omega arith)
bit_or_low_fuel (suc n) (suc lo) hi h = omega (
  arith,
  bit_or_step (suc lo) hi,
  bit_or_step hi (suc lo),
  bit_or_low_fuel n (suc lo / 2) (hi / 2) (omega arith),
)

pub bit_or_comm : (a b : ℕ) → bit_or a b ≡ bit_or b a
bit_or_comm a b = bit_or_low_fuel a a b (omega arith)

pub bit_or_disjoint_low : (k hi lo : ℕ) → lo < 2 ^ k → bit_or lo (hi * 2 ^ k) ≡ hi * 2 ^ k + lo
bit_or_disjoint_low k hi lo h = bit_or_comm lo (hi * 2 ^ k) ∙ bit_or_disjoint k hi lo h

bit_and_step : (x y : ℕ) → bit_and x y ≡ bit_and (x / 2) (y / 2) * 2 + min (x % 2) (y % 2)
bit_and_step zero y = omega (arith, bit_and-bitwise 0 (y / 2), bit_and-bitwise 0 y)
bit_and_step (suc x) y =
    bit_and-bitwise (suc x) y
    ∙ bitwise_step (λ d. 0) min x y
    ∙ ap (λ (t : ℕ). t * 2 + min (suc x % 2) (y % 2)) (sym (bit_and-bitwise (suc x / 2) (y / 2)))

no_mask_fuel : (fuel x : ℕ) → x ≤ fuel → bit_and x 0 ≡ 0
no_mask_fuel fuel zero le = bit_and-bitwise 0 0
no_mask_fuel zero (suc x) le = absurd (omega arith)
no_mask_fuel (suc fuel) (suc x) le =
    omega (arith, no_mask_fuel fuel (suc x / 2) (omega arith), bit_and_step (suc x) 0)

-- One more binary digit at the low end.
pub bit_and_even : (a m : ℕ) → bit_and a (m * 2) ≡ bit_and (a / 2) m * 2
bit_and_even a m =
    omega (arith, bit_and_step a (m * 2), ap (λ (t : ℕ). bit_and (a / 2) t) (half_twice m))

half_twice_one : (n : ℕ) → (n * 2 + 1) / 2 ≡ n
half_twice_one n = omega arith

bit_and_odd : (a m : ℕ) → bit_and a (m * 2 + 1) ≡ bit_and (a / 2) m * 2 + a % 2
bit_and_odd a m =
    omega (arith, bit_and_step a (m * 2 + 1), ap (λ (t : ℕ). bit_and (a / 2) t) (half_twice_one m))

-- k ones.
abbrev pub ones : ℕ → ℕ
ones zero = 0
ones (suc k) = ones k * 2 + 1

mod_twice : (a m : ℕ) → 0 < m → a % (m * 2) ≡ a / 2 % m * 2 + a % 2
mod_twice a m h =
    let e : a ≡ m * 2 * (a / 2 / m) + (a / 2 % m * 2 + a % 2) =
      omega (arith, ap (λ (t : ℕ). t * 2) (div-add-mod (a / 2) m)) in
    ap (λ (t : ℕ). t % (m * 2)) e
    ∙ mul-add-mod_self_left (m * 2) (a / 2 / m) (a / 2 % m * 2 + a % 2)
    ∙ mod-eq_of_lt (omega (arith, mod-lt (a / 2) h))

pow_pos : (k : ℕ) → 0 < 2 ^ k
pow_pos zero = omega arith
pow_pos (suc k) = omega (arith, pow-suc 2 k, pow_pos k)

-- A mask of k ones is a remainder.
pub bit_and-ones : (k a : ℕ) → bit_and a (ones k) ≡ a % 2 ^ k
bit_and-ones zero a = omega (arith, no_mask_fuel a a (omega arith))
bit_and-ones (suc k) a =
    bit_and_odd a (ones k)
    ∙ (let e : 2 ^ suc k ≡ 2 ^ k * 2 = omega (arith, pow-suc 2 k) in
        rw (e, bit_and-ones k (a / 2)) (sym (mod_twice a (2 ^ k) (pow_pos k))))

pub bit_and_ff : (a : ℕ) → bit_and a 0xff ≡ a % 2 ^ 8
bit_and_ff = bit_and-ones 8

pub bit_and_1ff : (a : ℕ) → bit_and a 0x1ff ≡ a % 2 ^ 9
bit_and_1ff = bit_and-ones 9

pub bit_and_3fffff : (a : ℕ) → bit_and a 0x3f_ffff ≡ a % 2 ^ 22
bit_and_3fffff = bit_and-ones 22

-- A mask with k zeros at the low end.
pub bit_and_shifted : (k a m : ℕ) → bit_and a (m * 2 ^ k) ≡ bit_and (a / 2 ^ k) m * 2 ^ k
bit_and_shifted zero a m =
    let times : m * 1 ≡ m = omega arith in
    let over : a / 1 ≡ a = omega arith in rw (times, over) omega arith
bit_and_shifted (suc k) a m =
    let low : a / 2 / 2 ^ k ≡ a / 2 ^ suc k =
      div-div-eq-div-mul a 2 (2 ^ k) ∙ ap (λ (t : ℕ). a / t) (omega (arith, pow-suc 2 k)) in
    rw (high_twice m k, bit_and_even a (m * 2 ^ k), bit_and_shifted k (a / 2) m, low)
      (sym (high_twice (bit_and (a / 2 ^ suc k) m) k))

-- `|` with a number of k digits changes only the k lowest digits.
pub bit_or_low :
    (k hi lo flags : ℕ)
    → lo < 2 ^ k
    → flags < 2 ^ k
    → (bit_or (hi * 2 ^ k + lo) flags ≡ hi * 2 ^ k + bit_or lo flags) × (bit_or lo flags < 2 ^ k)
bit_or_low zero hi lo flags h h' =
    let e : lo ≡ 0 = omega arith in
    let e' : flags ≡ 0 = omega arith in
    rw (e, e')
      (
        omega (arith, bit_or-zero_fuel (hi * 1 + 0) (hi * 1 + 0) (omega arith), zero-bit_or 0),
        omega (arith, zero-bit_or 0),
      )
bit_or_low (suc k) hi lo flags h h' =
    let ih =
      bit_or_low k hi (lo / 2) (flags / 2) (omega (arith, pow-suc 2 k))
        (omega (arith, pow-suc 2 k)) in
    let half : (hi * 2 ^ k * 2 + lo) / 2 ≡ hi * 2 ^ k + lo / 2 = omega arith in
    let odd : (hi * 2 ^ k * 2 + lo) % 2 ≡ lo % 2 = omega arith in
    rw
      (
        high_twice hi k,
        bit_or_step (hi * 2 ^ k * 2 + lo) flags,
        half,
        odd,
        bit_or_step lo flags,
        ih.0,
      )
      (omega arith, omega (arith, ih.1, pow-suc 2 k))
