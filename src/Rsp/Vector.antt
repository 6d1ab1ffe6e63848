-- ===== src/Rsp/Vector.antt =====
-- src/rcp/rsp/rsp_vector.cpp: `exec_vector`, the instructions on all eight lanes. A loop over the
-- lanes that reads and writes its own lane only is a function of the lane.
pub mod Multiply
pub mod Compare
pub mod Exec
pub mod Transfer
pub mod Saturate
use emulador_n64emu.Base.{ℕ, update}
use emulador_n64emu.Rsp.{VectorUnit}
use emulador_n64emu.Rsp.Lane.{replace_accumulator_low}

-- One value for each lane.
abbrev pub Lanes : Type 0
Lanes = ℕ → ℕ

-- `vpr_[vd] = result`
unfoldable pub set_register : ℕ → Lanes → VectorUnit → VectorUnit
set_register vd result u = record u { vpr = update u.vpr vd result }

-- `replace_accumulator_low` of every lane.
unfoldable pub set_low : Lanes → VectorUnit → VectorUnit
set_low result u = record u {
  accumulator = λ lane. replace_accumulator_low (u.accumulator lane) (result lane);
}

-- The result goes to the register and to the low part of the accumulator.
unfoldable pub set_both : ℕ → Lanes → VectorUnit → VectorUnit
set_both vd result u = set_register vd result (set_low result u)
