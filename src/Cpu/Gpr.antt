-- ===== src/Cpu/Gpr.antt =====
-- src/cpu/cpu.cpp, include/n64/cpu/cpu.hpp: the general registers as an instruction names them,
-- and the branches.
use emulador_n64emu.Base.{ℕ, ◌+◌, ◌*◌, ◌%◌, ◌^◌, ◌==◌, if◌then◌else◌, Bool, true, false, update}
use emulador_n64emu.Cpu.{Cpu}
use emulador_n64emu.Cpu.Word.{rs, rt, simm, add64}
use emulador_n64emu.Cpu.ExcCode.{ri}
use emulador_n64emu.Cpu.Exception.{raise_exception}

unfoldable pub rs64 : ℕ → Cpu → ℕ
rs64 i c = c.gpr (rs i)

unfoldable pub rt64 : ℕ → Cpu → ℕ
rt64 i c = c.gpr (rt i)

unfoldable pub rs32 : ℕ → Cpu → ℕ
rs32 i c = c.gpr (rs i) % 2 ^ 32

unfoldable pub rt32 : ℕ → Cpu → ℕ
rt32 i c = c.gpr (rt i) % 2 ^ 32

-- `rs64(insn) + simm(insn)`
unfoldable pub address : ℕ → Cpu → ℕ
address i c = add64 (rs64 i c) (simm i)

unfoldable pub write_gpr : ℕ → ℕ → Cpu → Cpu
write_gpr i v c = if i == 0 then c else record c { gpr = update c.gpr i v }

unfoldable pub branch_abs : ℕ → Cpu → Cpu
branch_abs target_pc c = record c { next_pc = target_pc; branch_pending = true }

-- The offset is the signed immediate as a 64-bit word.
unfoldable pub branch_rel : ℕ → Cpu → Cpu
branch_rel offset c = record c {
  next_pc = ((c.pc + 4) % 2 ^ 64 + offset * 4 % 2 ^ 64) % 2 ^ 64;
  branch_pending = true;
}

unfoldable pub link : ℕ → Cpu → Cpu
link i c = write_gpr i ((c.pc + 8) % 2 ^ 64) c

-- `next_pc_ = pc_ + 8; branch_pending_ = false;`
unfoldable pub skip_delay_slot : Cpu → Cpu
skip_delay_slot c = record c { next_pc = (c.pc + 8) % 2 ^ 64; branch_pending = false }

-- A branch and a branch-likely by their condition.
unfoldable pub branch_if : Bool → ℕ → Cpu → Cpu
branch_if taken i c = if taken then branch_rel (simm i) c else branch_abs ((c.pc + 8) % 2 ^ 64) c

unfoldable pub branch_likely_if : Bool → ℕ → Cpu → Cpu
branch_likely_if taken i c = if taken then branch_rel (simm i) c else skip_delay_slot c

-- `raise_exception(code)` and `raise_exception(code)` under a condition.
unfoldable pub raise : ℕ → Cpu → Cpu
raise code c = raise_exception code 0 0 false c

unfoldable pub raise_if : Bool → ℕ → Cpu → Cpu
raise_if holds code c = if holds then raise code c else c

-- The `default` of the switches.
unfoldable pub reserved : Cpu → Cpu
reserved c = raise ri (record c { unknown_opcode_count = (c.unknown_opcode_count + 1) % 2 ^ 64 })
