-- ===== src/Base/Bits.antt =====
-- Registers as words: the binary digits of a native number, setting and clearing one of them,
-- and what these have to do with the operators `|` and `&` of the source.
use Prim.Native.Nat.{
  ℕ, zero, suc, ◌+◌, ◌*◌, ◌/◌, ◌%◌, ◌^◌, ◌≤◌, ◌<◌, min, max, bit_and, bit_or, digits, bitwise,
  bit_and-bitwise, bit_or-bitwise,
}
use mathlib.Core.Path.{◌≡◌, refl, ap, ◌∙◌}
use mathlib.Core.Logic.{◌≢◌}
use mathlib.Core.Bool.{Bool, ◌&&◌}
use native.Mathlib.Nat.{pow-suc}
use native.Mathlib.Omega.{arith}
use native.Mathlib.Decide.{ℕ_discrete}
use emulador_n64emu.Base.Tests.{ltb, leb, ◌==◌, if◌then◌else◌}

-- The binary digit number `k` of `x`.
unfoldable pub bit : ℕ → ℕ → ℕ
bit zero x = x % 2
bit (suc k) x = bit k (x / 2)

-- `x & (1u << k)` as a condition.
unfoldable pub has_bit : ℕ → ℕ → Bool
has_bit k x = bit k x == 1

-- `x | (1u << k)`
unfoldable pub set_bit : ℕ → ℕ → ℕ
set_bit zero x = x / 2 * 2 + 1
set_bit (suc k) x = set_bit k (x / 2) * 2 + x % 2

-- `x & ~(1u << k)`
unfoldable pub clear_bit : ℕ → ℕ → ℕ
clear_bit zero x = x / 2 * 2
clear_bit (suc k) x = clear_bit k (x / 2) * 2 + x % 2

halve : (q r : ℕ) → r < 2 → (q * 2 + r) / 2 ≡ q
halve q r h = omega arith

suc_test : (j k a b : ℕ) → (if j == k then a else b) ≡ (if suc j == suc k then a else b)
suc_test j k a b = ground arith

suc_ne_zero : (j a b : ℕ) → b ≡ (if suc j == 0 then a else b)
suc_ne_zero j a b = ground arith

pub bit-lt : (k x : ℕ) → bit k x < 2
unfolding bit
bit-lt zero x = omega arith
bit-lt (suc k) x = bit-lt k (x / 2)

pub bit-set_bit : (j k x : ℕ) → bit j (set_bit k x) ≡ (if j == k then 1 else bit j x)
unfolding bit set_bit
bit-set_bit zero zero x = ground arith
bit-set_bit zero (suc k) x = ground arith
bit-set_bit (suc j) zero x =
    ap (bit j) (halve (x / 2) 1 (omega arith)) ∙ suc_ne_zero j 1 (bit j (x / 2))
bit-set_bit (suc j) (suc k) x =
    ap (bit j) (halve (set_bit k (x / 2)) (x % 2) (omega arith))
    ∙ bit-set_bit j k (x / 2)
    ∙ suc_test j k 1 (bit j (x / 2))

pub bit-clear_bit : (j k x : ℕ) → bit j (clear_bit k x) ≡ (if j == k then 0 else bit j x)
unfolding bit clear_bit
bit-clear_bit zero zero x = ground arith
bit-clear_bit zero (suc k) x = ground arith
bit-clear_bit (suc j) zero x = ap (bit j) (ground arith) ∙ suc_ne_zero j 0 (bit j (x / 2))
bit-clear_bit (suc j) (suc k) x =
    ap (bit j) (halve (clear_bit k (x / 2)) (x % 2) (omega arith))
    ∙ bit-clear_bit j k (x / 2)
    ∙ suc_test j k 0 (bit j (x / 2))

-- `if (b) x |= 1u << k` and `if (b) x &= ~(1u << k)`
unfoldable pub set_if : Bool → ℕ → ℕ → ℕ
set_if b k x = if b then set_bit k x else x

unfoldable pub clear_if : Bool → ℕ → ℕ → ℕ
clear_if b k x = if b then clear_bit k x else x

pub bit-set_if :
    (j : ℕ) (b : Bool) (k x : ℕ) → bit j (set_if b k x) ≡ (if b && j == k then 1 else bit j x)
unfolding set_if
bit-set_if j b k x = ground (arith, bit-set_bit j k x)

pub bit-clear_if :
    (j : ℕ) (b : Bool) (k x : ℕ) → bit j (clear_if b k x) ≡ (if b && j == k then 0 else bit j x)
unfolding clear_if
bit-clear_if j b k x = ground (arith, bit-clear_bit j k x)

-- A number is its digits.
bit_ext_fuel : (n x y : ℕ) → x ≤ n → y ≤ n → ((k : ℕ) → bit k x ≡ bit k y) → x ≡ y
unfolding bit
bit_ext_fuel zero x y p q h = omega arith
bit_ext_fuel (suc n) x y p q h =
    omega (arith, bit_ext_fuel n (x / 2) (y / 2) (omega arith) (omega arith) (λ k. h (suc k)), h 0)

pub bit_ext : (x y : ℕ) → ((k : ℕ) → bit k x ≡ bit k y) → x ≡ y
bit_ext x y h = bit_ext_fuel (x + y) x y (omega arith) (omega arith) h

zero_below : (k : ℕ) → k ≤ zero → k ≡ zero
zero_below k h = omega arith

-- `digits` is given fuel for the binary digits of its first number. More of it changes nothing.
module _ (rest : ℕ → ℕ) (on_digits : ℕ → ℕ → ℕ) where
  one_more : (n x y : ℕ) → x ≤ n → digits rest on_digits (suc n) x y ≡ digits rest on_digits n x y
  one_more zero zero y h = refl
  one_more (suc n) zero y h = refl
  one_more zero (suc x) y h = absurd (omega arith)
  one_more (suc n) (suc x) y h =
      ap (λ high. high * 2 + on_digits (suc x % 2) (y % 2))
        (one_more n (suc x / 2) (y / 2) (omega arith))

  any_more :
      (n x y k : ℕ) → x ≤ k → k ≤ n → digits rest on_digits n x y ≡ digits rest on_digits k x y
  any_more zero x y k enough less = rw (zero_below k less) refl
  any_more (suc n) x y k enough less = elim (ℕ_discrete k (suc n)) [
    | yes same ↦ rw same refl
    | no fewer ↦ one_more n x y (omega arith) ∙ any_more n x y k enough (omega arith)
  ]

  pub lowest_digit :
      (x y : ℕ)
      → bitwise rest on_digits (suc x) y
        ≡ on_digits (suc x % 2) (y % 2) + bitwise rest on_digits (suc x / 2) (y / 2) * 2
  lowest_digit x y =
      omega (arith, any_more x (suc x / 2) (y / 2) (suc x / 2) (omega arith) (omega arith))

pub bit_or_step : (x y : ℕ) → bit_or x y ≡ max (x % 2) (y % 2) + bit_or (x / 2) (y / 2) * 2
bit_or_step zero y = simp bit_or-bitwise (omega arith)
bit_or_step (suc x) y = simp bit_or-bitwise (lowest_digit (λ high. high) max x y)

pub bit_and_step : (x y : ℕ) → bit_and x y ≡ min (x % 2) (y % 2) + bit_and (x / 2) (y / 2) * 2
bit_and_step zero y = simp bit_and-bitwise (omega arith)
bit_and_step (suc x) y = simp bit_and-bitwise (lowest_digit (λ _. 0) min x y)

-- Each digit of `a & b` and of `a | b`.
pub bit-bit_and : (k a b : ℕ) → bit k (bit_and a b) ≡ min (bit k a) (bit k b)
unfolding bit
bit-bit_and zero a b = omega (arith, bit_and_step a b)
bit-bit_and (suc k) a b =
    ap (bit k) (omega (arith, bit_and_step a b)) ∙ bit-bit_and k (a / 2) (b / 2)

pub bit-bit_or : (k a b : ℕ) → bit k (bit_or a b) ≡ max (bit k a) (bit k b)
unfolding bit
bit-bit_or zero a b = omega (arith, bit_or_step a b)
bit-bit_or (suc k) a b = ap (bit k) (omega (arith, bit_or_step a b)) ∙ bit-bit_or k (a / 2) (b / 2)

bit-zero : (k : ℕ) → bit k 0 ≡ 0
unfolding bit
bit-zero zero = refl
bit-zero (suc k) = bit-zero k

-- The digits of a one-bit mask, and of its complement in `w` bits.
bit-pow : (j k : ℕ) → bit j (2 ^ k) ≡ (if j == k then 1 else 0)
unfolding bit
bit-pow zero zero = refl
bit-pow zero (suc k) = ground (arith, pow-suc 2 k)
bit-pow (suc j) zero = bit-zero j ∙ suc_ne_zero j 1 0
bit-pow (suc j) (suc k) = ap (bit j) (omega (arith, pow-suc 2 k)) ∙ bit-pow j k ∙ suc_test j k 1 0

-- `set_bit` is the `|` with a one-bit mask that it stands for.
set_bit-eq-or : (k x : ℕ) → bit_or x (2 ^ k) ≡ set_bit k x
set_bit-eq-or k x =
    bit_ext _ _
      (λ j. ground (arith, bit-bit_or j x (2 ^ k), bit-pow j k, bit-set_bit j k x, bit-lt j x))

-- A mask without bit `k`, and with ones wherever `x` has them, clears that bit and no other.
clear_bit-eq-and :
    (k x m : ℕ)
    → ((j : ℕ) → bit j m ≡ (if j == k then 0 else max (bit j x) (bit j m)))
    → bit_and x m ≡ clear_bit k x
clear_bit-eq-and k x m h =
    bit_ext _ _
      (λ j. ground (arith, bit-bit_and j x m, h j, bit-clear_bit j k x, bit-lt j x, bit-lt j m))

-- The `w` low digits: `x & ((1u << w) - 1)`, which is `x % 2 ^ w`.
unfoldable pub low : ℕ → ℕ → ℕ
low zero x = 0
low (suc w) x = low w (x / 2) * 2 + x % 2

pub bit-low : (k w x : ℕ) → bit k (low w x) ≡ (if ltb k w then bit k x else 0)
unfolding bit low
bit-low k zero x = bit-zero k ∙ ground arith
bit-low zero (suc w) x = ground arith
bit-low (suc k) (suc w) x =
    ap (bit k) (halve (low w (x / 2)) (x % 2) (omega arith)) ∙ bit-low k w (x / 2) ∙ ground arith

-- A number that is not zero has a digit one.
set_digit_fuel : (n x : ℕ) → x ≤ n → x ≢ 0 → (k : ℕ) × (bit k x ≡ 1)
unfolding bit
set_digit_fuel zero x h ne = absurd (omega arith)
set_digit_fuel (suc n) x h ne = elim (ℕ_discrete (x % 2) 1) [
  | yes e ↦ (0, e)
  | no e ↦ (let (k, one) = set_digit_fuel n (x / 2) (omega arith) (omega arith) in (suc k, one))
]

pub set_digit : (x : ℕ) → x ≢ 0 → (k : ℕ) × (bit k x ≡ 1)
set_digit x ne = set_digit_fuel x x (omega arith) ne

pub ne_zero_of_bit : (k x : ℕ) → bit k x ≡ 1 → x ≢ 0
ne_zero_of_bit k x h e = omega (arith, bit-zero k, ap (bit k) e)

-- A mask of `w` ones from bit `lo` on.
unfoldable pub field_mask : ℕ → ℕ → ℕ
field_mask zero zero = 0
field_mask zero (suc w) = field_mask zero w * 2 + 1
field_mask (suc lo) w = field_mask lo w * 2

pub bit-field_mask :
    (lo w k : ℕ) → bit k (field_mask lo w) ≡ (if leb lo k && ltb k (lo + w) then 1 else 0)
unfolding field_mask bit
bit-field_mask zero zero k = bit-zero k ∙ ground arith
bit-field_mask zero (suc w) zero = ground arith
bit-field_mask zero (suc w) (suc k) =
    ap (bit k) (halve (field_mask zero w) 1 (omega arith)) ∙ bit-field_mask zero w k ∙ ground arith
bit-field_mask (suc lo) w zero = ground arith
bit-field_mask (suc lo) w (suc k) = ap (bit k) (omega arith) ∙ bit-field_mask lo w k ∙ ground arith
