-- ===== src/Cpu/Control.antt =====
-- src/cpu/cpu.cpp: `exec_cop0` and `exec_cop2`.
use emulador_n64emu.Base.{ℕ, ◌%◌, ◌^◌, ◌==◌, leb, if◌then◌else◌, switch, false, not, ◌&&◌, [], ◌∷◌}
use emulador_n64emu.Cpu.{Cpu}
use emulador_n64emu.Cpu.Word.{rs, rt, rd, fn, sext32}
use emulador_n64emu.Cpu.Gpr.{rt64, rt32, write_gpr}
use emulador_n64emu.Cpu.Cop0Reg.{index, random}
use emulador_n64emu.Cpu.ExcCode.{cpu_unusable}
use emulador_n64emu.Cpu.Exception.{raise_exception, coprocessor_usable, do_eret}
use emulador_n64emu.Cpu.Cop0.{set_cop0}
use emulador_n64emu.Cpu.Tlb.{tlb_read_indexed, tlb_write_indexed, tlb_probe}

-- `raise_exception(ExcCode::CpU, 0, cop)`
unfoldable pub raise_unusable : ℕ → Cpu → Cpu
raise_unusable cop c = raise_exception cpu_unusable 0 cop false c

-- The function field of an instruction whose rs field is 0x10.
unfoldable pub exec_co : ℕ → Cpu → Cpu
exec_co i c =
    switch (fn i)
      ((0x01, tlb_read_indexed c)
        ∷ (0x02, tlb_write_indexed (c.cop0 index) c)
        ∷ (0x06, tlb_write_indexed (c.cop0 random) c)
        ∷ (0x08, tlb_probe c)
        ∷ (0x18, do_eret c)
        ∷ [])
      c

unfoldable pub exec_cop0 : ℕ → Cpu → Cpu
exec_cop0 i c =
    if not (coprocessor_usable 0 c)
    then raise_unusable 0 c
    else switch (rs i)
        ((0x00, write_gpr (rt i) (sext32 (c.cop0 (rd i))) c)
          ∷ (0x01, write_gpr (rt i) (c.cop0 (rd i)) c)
          ∷ (0x04, set_cop0 (rd i) (rt32 i c) c)
          ∷ (0x05, set_cop0 (rd i) (rt64 i c % 2 ^ 32) c)
          ∷ (0x10, exec_co i c)
          ∷ [])
        (if leb 0x10 (rs i) && (fn i == 0x18) then do_eret c else c)

unfoldable pub exec_cop2 : ℕ → Cpu → Cpu
exec_cop2 i c = if not (coprocessor_usable 2 c) then raise_unusable 2 c else c
