-- ===== src/Rsp/Vector/Saturate.antt =====
-- Saturation: the sums of VADD and VSUB, clamped to 16 bits, on the lanes' values counted from the
-- least one.
use emulador_n64emu.Base.{ℕ, ◌+◌, ◌-◌, ◌%◌, ◌^◌, ◌<◌, min, ltb, if◌then◌else◌, ◌≡◌, ap, ◌∙◌, arith}
use emulador_n64emu.Cpu.Word.{
  sext, add64, sub64, is_negative, negate, less_signed, shift_right_signed,
}
use emulador_n64emu.Rsp.Lane.{signed_lane, lane_bits, accumulator_shift16, signed_clamp}
use emulador_n64emu.Rsp.Vector.Compare.{vadd_lane, vsub_lane}

-- The signed value of a lane plus 2 ^ 15.
abbrev pub offset_lane : ℕ → ℕ
offset_lane x = if ltb x 0x8000 then x + 0x8000 else x - 0x8000

-- The clamp of the value `x - 2 ^ 17`, as a word of 64 bits.
signed_clamp_lem :
    (x : ℕ)
    → x < 2 ^ 18
    → offset_lane (signed_clamp ((x + 2 ^ 64 - 2 ^ 17) % 2 ^ 64)) ≡ min 0xffff (x - 0x1_8000)
unfolding signed_clamp lane_bits less_signed is_negative negate
signed_clamp_lem x h = ground arith

signed_lane_lem : (x : ℕ) → x < 2 ^ 16 → signed_lane x ≡ (offset_lane x + 2 ^ 64 - 0x8000) % 2 ^ 64
unfolding signed_lane sext
signed_lane_lem x h = ground arith

offset_lane-lt : (x : ℕ) → x < 2 ^ 16 → offset_lane x < 2 ^ 16
offset_lane-lt x h = ground arith

sum_word :
    (a b c : ℕ)
    → a < 2 ^ 16
    → b < 2 ^ 16
    → c < 2
    → add64 (add64 ((a + 2 ^ 64 - 0x8000) % 2 ^ 64) ((b + 2 ^ 64 - 0x8000) % 2 ^ 64)) c
      ≡ (a + b + c + 2 ^ 16 + 2 ^ 64 - 2 ^ 17) % 2 ^ 64
unfolding add64
sum_word a b c p q r = omega arith

difference_word :
    (a b c : ℕ)
    → a < 2 ^ 16
    → b < 2 ^ 16
    → c < 2
    → sub64 (sub64 ((a + 2 ^ 64 - 0x8000) % 2 ^ 64) ((b + 2 ^ 64 - 0x8000) % 2 ^ 64)) c
      ≡ (a + 2 ^ 17 - b - c + 2 ^ 64 - 2 ^ 17) % 2 ^ 64
unfolding sub64
difference_word a b c p q r = omega arith

-- On lanes of 16 bits and a carry of 0 or 1, VADD gives the sum of the signed values and of the carry,
-- and VSUB the difference less the carry, each clamped to the least and to the greatest lane.
pub vadd_lane-vsub_lane :
    (s t carry : ℕ)
    → s < 2 ^ 16
    → t < 2 ^ 16
    → carry < 2
    → (offset_lane (vadd_lane carry s t)
        ≡ min 0xffff (offset_lane s + offset_lane t + carry - 0x8000))
      × (offset_lane (vsub_lane carry s t)
          ≡ min 0xffff (offset_lane s + 0x8000 - offset_lane t - carry))
unfolding vadd_lane vsub_lane
vadd_lane-vsub_lane s t carry p q r =
    let a = offset_lane s in
    let b = offset_lane t in
    let a_fits = offset_lane-lt s p in
    let b_fits = offset_lane-lt t q in
    let sum = signed_clamp_lem (a + b + carry + 2 ^ 16) (omega (arith, a_fits, b_fits)) in
    let difference = signed_clamp_lem (a + 2 ^ 17 - b - carry) (omega (arith, a_fits, b_fits)) in
    rw (signed_lane_lem s p, signed_lane_lem t q)
      (
        ap (λ x. offset_lane (signed_clamp x)) (sum_word a b carry a_fits b_fits r)
            ∙ sum
            ∙ ap (min 0xffff) (omega arith),
        ap (λ x. offset_lane (signed_clamp x)) (difference_word a b carry a_fits b_fits r)
            ∙ difference
            ∙ ap (min 0xffff) (omega (arith, a_fits, b_fits)),
      )

-- The shift of an accumulator, written with divisions, is the arithmetic shift.
accumulator_shift16_lem : (x : ℕ) → x < 2 ^ 64 → accumulator_shift16 x ≡ shift_right_signed 64 x 16
unfolding accumulator_shift16 shift_right_signed is_negative negate
accumulator_shift16_lem x h = ground arith
