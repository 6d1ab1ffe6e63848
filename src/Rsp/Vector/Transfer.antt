-- ===== src/Rsp/Vector/Transfer.antt =====
-- src/rcp/rsp/rsp_vector.cpp: the bytes of a vector register, and `exec_cop2`, the moves between the
-- registers and the vector unit.
use emulador_n64emu.Base.{
  ℕ, ◌+◌, ◌*◌, ◌/◌, ◌%◌, ◌^◌, ◌==◌, if◌then◌else◌, switch, [], ◌∷◌, has_bit, update,
}
use emulador_n64emu.Cpu.Word.{rs, rt, rd}
use emulador_n64emu.Rsp.{VectorUnit, Rsp, write_gpr}
use emulador_n64emu.Rsp.Lane.{signed_lane}
use emulador_n64emu.Rsp.Vector.Exec.{exec_vector}

-- Byte 0 is the upper one of lane 0.
unfoldable pub vector_byte : ℕ → ℕ → VectorUnit → ℕ
vector_byte reg byte u =
    let value = u.vpr (reg % 32) (byte % 16 / 2) in
    if byte % 2 == 0 then value / 2 ^ 8 else value % 2 ^ 8

unfoldable pub set_lane : ℕ → ℕ → ℕ → VectorUnit → VectorUnit
set_lane reg lane value u = record u { vpr = update u.vpr reg (update (u.vpr reg) lane value) }

unfoldable pub set_vector_byte : ℕ → ℕ → ℕ → VectorUnit → VectorUnit
set_vector_byte reg byte value u =
    let lane = u.vpr (reg % 32) (byte % 16 / 2) in
    set_lane (reg % 32) (byte % 16 / 2)
      (if byte % 2 == 0 then lane % 2 ^ 8 + value * 2 ^ 8 else lane / 2 ^ 8 * 2 ^ 8 + value) u

-- `static_cast<u32>(static_cast<s32>(signed_lane(value)))`
abbrev sext_lane : ℕ → ℕ
sext_lane value = signed_lane value % 2 ^ 32

unfoldable pub mfc2_value : ℕ → ℕ → VectorUnit → ℕ
mfc2_value reg element u =
    sext_lane (vector_byte reg element u * 2 ^ 8 + vector_byte reg ((element + 1) % 16) u)

unfoldable pub cfc2_value : ℕ → VectorUnit → ℕ
cfc2_value reg u = sext_lane (if reg % 4 == 0 then u.vco else if reg % 4 == 1 then u.vcc else u.vce)

-- The second byte does not go to the start of the register.
unfoldable pub mtc2 : ℕ → ℕ → ℕ → VectorUnit → VectorUnit
mtc2 reg element value u =
    let first = set_vector_byte reg element (value % 2 ^ 16 / 2 ^ 8) u in
    if element == 15 then first else set_vector_byte reg (element + 1) (value % 2 ^ 8) first

unfoldable pub ctc2 : ℕ → ℕ → VectorUnit → VectorUnit
ctc2 reg value u =
    if reg % 4 == 0
    then record u { vco = value % 2 ^ 16 }
    else if reg % 4 == 1
    then record u { vcc = value % 2 ^ 16 }
    else record u { vce = value % 2 ^ 8 }

abbrev pub with_vectors : VectorUnit → Rsp → Rsp
with_vectors u r = record r { vu = u }

unfoldable pub exec_cop2 : ℕ → Rsp → Rsp
exec_cop2 i r =
    let element = i / 2 ^ 7 % 16 in
    if has_bit 4 (rs i)
    then with_vectors (exec_vector i r.vu) r
    else switch (rs i)
        ((0x00, write_gpr (rt i) (mfc2_value (rd i) element r.vu) r)
          ∷ (0x02, write_gpr (rt i) (cfc2_value (rd i) r.vu) r)
          ∷ (0x04, with_vectors (mtc2 (rd i) element (r.gpr (rt i)) r.vu) r)
          ∷ (0x06, with_vectors (ctc2 (rd i) (r.gpr (rt i)) r.vu) r)
          ∷ [])
        r
