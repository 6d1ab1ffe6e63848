-- ===== src/Rsp/Vector/Multiply.antt =====
-- src/rcp/rsp/rsp_vector.cpp, `exec_vector`: rounding and multiplication with the accumulator.
use emulador_n64emu.Base.{
  ℕ, ◌+◌, ◌-◌, ◌*◌, ◌/◌, ◌%◌, ◌^◌, ◌==◌, if◌then◌else◌, switch, Bool, not, ◌&&◌, [], ◌∷◌, has_bit,
}
use emulador_n64emu.Cpu.Word.{sext, is_negative, negate, less_signed}
use emulador_n64emu.Rsp.{VectorUnit}
use emulador_n64emu.Rsp.Lane.{
  signed_lane, accumulator_value, wrap_accumulator, arithmetic_shift1, replace_accumulator_upper,
  signed_clamp, signed_accumulator_clamp, unsigned_accumulator_clamp, accumulator_low_clamp,
}
use emulador_n64emu.Rsp.Vector.{Lanes, set_register}

-- The accumulators `acc` and the result that `clamp` makes of them.
unfoldable pub set_accumulators : ℕ → Lanes → (ℕ → ℕ) → VectorUnit → VectorUnit
set_accumulators vd acc clamp u =
    set_register vd (λ lane. clamp (acc lane)) (record u { accumulator = acc })

-- VRNDP where `positive` and VRNDN where not; `vs` is the number of the register.
unfoldable pub vrnd : Bool → ℕ → ℕ → Lanes → VectorUnit → VectorUnit
vrnd positive vs vd t u =
    let value =
      λ (lane : ℕ). if vs % 2 == 0 then signed_lane (t lane) else signed_lane (t lane) * 0x1_0000 in
    let acc = λ (lane : ℕ). accumulator_value (u.accumulator lane) in
    let add = λ (lane : ℕ).
      if positive then not (is_negative 64 (acc lane)) else is_negative 64 (acc lane) in
    set_accumulators vd
      (λ lane. if add lane then wrap_accumulator (acc lane + value lane) else u.accumulator lane)
      signed_accumulator_clamp u

-- `value & 0xFFF0`
abbrev upper_bits : ℕ → ℕ
upper_bits value = value / 16 * 16

unfoldable pub vmulq : ℕ → Lanes → Lanes → VectorUnit → VectorUnit
vmulq vd s t u =
    let exact = λ (lane : ℕ). signed_lane (s lane) * signed_lane (t lane) % 2 ^ 32 in
    let product = λ (lane : ℕ).
      if is_negative 32 (exact lane) then (exact lane + 31) % 2 ^ 32 else exact lane in
    set_register vd (λ lane. upper_bits (signed_clamp (arithmetic_shift1 (sext 32 (product lane)))))
      (record u { accumulator = λ lane. wrap_accumulator (product lane * 0x1_0000) })

-- The upper 32 bits of an accumulator, moved towards 0 by 32 unless bit 5 is set.
unfoldable pub vmacq_upper : ℕ → ℕ
vmacq_upper acc =
    let upper = acc / 2 ^ 16 % 2 ^ 32 in
    if less_signed (sext 32 upper) (negate 64 0x20) && not (has_bit 5 upper)
    then (upper + 0x20) % 2 ^ 32
    else if less_signed 0x20 (sext 32 upper) && not (has_bit 5 upper)
    then upper - 0x20
    else upper

unfoldable pub vmacq : ℕ → VectorUnit → VectorUnit
vmacq vd u =
    let upper = λ (lane : ℕ). vmacq_upper (u.accumulator lane) in
    set_register vd (λ lane. upper_bits (signed_clamp (arithmetic_shift1 (sext 32 (upper lane)))))
      (record u {
        accumulator = λ lane. replace_accumulator_upper (u.accumulator lane) (upper lane);
      })

-- The value of the accumulator, from that before it and the lanes of both sources.
unfoldable pub multiply_lane : ℕ → ℕ → ℕ → ℕ → ℕ
multiply_lane function acc s t =
    let ss = signed_lane s in
    let st = signed_lane t in
    switch function
      ((0x00, ss * st * 2 + 0x8000)
        ∷ (0x01, ss * st * 2 + 0x8000)
        ∷ (0x04, s * t / 2 ^ 16)
        ∷ (0x05, ss * t)
        ∷ (0x06, s * st)
        ∷ (0x07, ss * st * 2 ^ 16)
        ∷ (0x08, acc + ss * st * 2)
        ∷ (0x09, acc + ss * st * 2)
        ∷ (0x0c, acc + s * t / 2 ^ 16)
        ∷ (0x0d, acc + ss * t)
        ∷ (0x0e, acc + s * st)
        ∷ (0x0f, acc + ss * st * 2 ^ 16)
        ∷ [])
      acc

unfoldable pub multiply_clamp : ℕ → ℕ → ℕ
multiply_clamp function acc =
    let signed = signed_accumulator_clamp acc in
    let unsigned = unsigned_accumulator_clamp acc in
    switch function
      ((0x00, signed)
        ∷ (0x05, signed)
        ∷ (0x07, signed)
        ∷ (0x08, signed)
        ∷ (0x0d, signed)
        ∷ (0x0f, signed)
        ∷ (0x01, unsigned)
        ∷ (0x09, unsigned)
        ∷ [])
      (accumulator_low_clamp acc)

-- VMULF to VMADH.
unfoldable pub multiply : ℕ → ℕ → Lanes → Lanes → VectorUnit → VectorUnit
multiply function vd s t u =
    set_accumulators vd
      (λ lane.
        wrap_accumulator
          (multiply_lane function (accumulator_value (u.accumulator lane)) (s lane) (t lane)))
      (multiply_clamp function) u
