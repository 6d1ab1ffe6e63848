-- ===== src/Cpu/Word/Size.antt =====
-- The values that instructions compute are words of 64 bits.
use emulador_n64emu.Base.{ℕ, ◌/◌, ◌%◌, ◌^◌, ◌<◌, arith}
use native.Mathlib.Nat.{div-le_self, mod-le}
use emulador_n64emu.Cpu.Word.{
  sext, sext8, sext16, sext32, simm, add64, sub64, is_negative, negate, magnitude,
  shift_right_signed, add_overflow_s64, sub_overflow_s64, mult_u64, mult_s64, quotient_signed,
  remainder_signed,
}

module _ (x : ℕ) where
  pub sext8-lt : sext8 x < 2 ^ 64
  unfolding sext8 sext
  sext8-lt = ground arith

  pub sext16-lt : sext16 x < 2 ^ 64
  unfolding sext16 sext
  sext16-lt = ground arith

  pub simm-lt : simm x < 2 ^ 64
  unfolding simm sext
  simm-lt = ground arith

  pub sext32-lt : sext32 x < 2 ^ 64
  unfolding sext32 sext
  sext32-lt = ground arith

  negate-lt : negate 64 x < 2 ^ 64
  unfolding negate
  negate-lt = omega arith

  magnitude-lt : x < 2 ^ 64 → magnitude 64 x < 2 ^ 64
  unfolding magnitude is_negative
  magnitude-lt h = ground (arith, negate-lt)

  pub truncate-lt : x % 2 ^ 64 < 2 ^ 64
  truncate-lt = omega arith

pub add64-lt : (a b : ℕ) → add64 a b < 2 ^ 64
unfolding add64
add64-lt a b = omega arith

pub sub64-lt : (a b : ℕ) → sub64 a b < 2 ^ 64
unfolding sub64
sub64-lt a b = omega arith

pub div-lt : (x s : ℕ) → x < 2 ^ 64 → x / s < 2 ^ 64
div-lt x s h = omega (arith, div-le_self x s)

pub mod-lt : (x s : ℕ) → x < 2 ^ 64 → x % s < 2 ^ 64
mod-lt x s h = omega (arith, mod-le x s)

pub shift_right_signed-lt : (x s : ℕ) → x < 2 ^ 64 → shift_right_signed 64 x s < 2 ^ 64
unfolding shift_right_signed
shift_right_signed-lt x s h = ground (arith, div-lt x (2 ^ s) h)

pub add_overflow_s64-lt : (a b : ℕ) → (add_overflow_s64 a b).1 < 2 ^ 64
unfolding add_overflow_s64
add_overflow_s64-lt a b = ground (arith, add64-lt a b)

pub sub_overflow_s64-lt : (a b : ℕ) → (sub_overflow_s64 a b).1 < 2 ^ 64
unfolding sub_overflow_s64
sub_overflow_s64-lt a b = ground (arith, sub64-lt a b)

pub mult_u64-lt : (a b : ℕ) → ((mult_u64 a b).0 < 2 ^ 64) × ((mult_u64 a b).1 < 2 ^ 64)
unfolding mult_u64
mult_u64-lt a b = (omega arith, omega arith)

pub mult_s64-lt : (a b : ℕ) → ((mult_s64 a b).0 < 2 ^ 64) × ((mult_s64 a b).1 < 2 ^ 64)
unfolding mult_s64
mult_s64-lt a b = (omega arith, omega arith)

pub quotient_signed-lt : (a b : ℕ) → a < 2 ^ 64 → quotient_signed 64 a b < 2 ^ 64
unfolding quotient_signed
quotient_signed-lt a b h =
    let q = magnitude 64 a / magnitude 64 b in
    ground (arith, negate-lt q, div-lt (magnitude 64 a) (magnitude 64 b) (magnitude-lt a h))

pub remainder_signed-lt : (a b : ℕ) → a < 2 ^ 64 → remainder_signed 64 a b < 2 ^ 64
unfolding remainder_signed
remainder_signed-lt a b h =
    let r = magnitude 64 a % magnitude 64 b in
    ground (arith, negate-lt r, mod-lt (magnitude 64 a) (magnitude 64 b) (magnitude-lt a h))
