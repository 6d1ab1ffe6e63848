-- ===== src/Cpu/Regimm.antt =====
-- src/cpu/cpu.cpp: `exec_regimm`, the branches and traps that the rt field chooses.
use emulador_n64emu.Base.{ℕ, ◌==◌, ltb, leb, switch, not, [], ◌∷◌}
use emulador_n64emu.Cpu.Rt
use emulador_n64emu.Cpu.{Cpu}
use emulador_n64emu.Cpu.Word.{rt, simm, less_signed, is_negative}
use emulador_n64emu.Cpu.Gpr.{rs64, branch_if, branch_likely_if, link, raise_if, reserved}
use emulador_n64emu.Cpu.ExcCode.{tr}

unfoldable pub trap_immediate : Cpu → ℕ → Cpu → Cpu
trap_immediate other i c =
    let a = rs64 i c in
    switch (rt i)
      ((Rt.tgei, raise_if (not (less_signed a (simm i))) tr c)
        ∷ (Rt.tgeiu, raise_if (leb (simm i) a) tr c)
        ∷ (Rt.tlti, raise_if (less_signed a (simm i)) tr c)
        ∷ (Rt.tltiu, raise_if (ltb a (simm i)) tr c)
        ∷ (Rt.teqi, raise_if (a == simm i) tr c)
        ∷ (Rt.tnei, raise_if (not (a == simm i)) tr c)
        ∷ [])
      other

-- The condition is that of the register before the link.
unfoldable pub branch_and_link : Cpu → ℕ → Cpu → Cpu
branch_and_link other i c =
    let rs_neg = is_negative 64 (rs64 i c) in
    switch (rt i)
      ((Rt.bltzal, branch_if rs_neg i (link 31 c))
        ∷ (Rt.bgezal, branch_if (not rs_neg) i (link 31 c))
        ∷ (Rt.bltzall, branch_likely_if rs_neg i (link 31 c))
        ∷ (Rt.bgezall, branch_likely_if (not rs_neg) i (link 31 c))
        ∷ [])
      other

unfoldable pub exec_regimm : ℕ → Cpu → Cpu
exec_regimm i c =
    let rs_neg = is_negative 64 (rs64 i c) in
    switch (rt i)
      ((Rt.bltz, branch_if rs_neg i c)
        ∷ (Rt.bgez, branch_if (not rs_neg) i c)
        ∷ (Rt.bltzl, branch_likely_if rs_neg i c)
        ∷ (Rt.bgezl, branch_likely_if (not rs_neg) i c)
        ∷ [])
      (trap_immediate (branch_and_link (reserved c) i c) i c)
