-- ===== src/Mi/Tests.antt =====
-- The MIPS interface on concrete registers.
use emulador_n64emu.Base.{ltb, if◌then◌else◌, ◌≡◌, refl, true, bit}
use emulador_n64emu.Mi.{Mi, cpu_irq_level, write}
use emulador_n64emu.Mi.Mask.{enabled, bit-write_mask}

-- The SI and VI lines are pending, the VI line is enabled.
abbrev busy : Mi
busy = record { mode = 0; intr = 10; intr_mask = 8; line = true }

bit-write_mask_example :
    let m' = write 0x0c 0x24 busy in
    (bit 1 m'.intr_mask ≡ (if ltb 1 6 then enabled 0x24 1 (bit 1 busy.intr_mask) else 0))
    × (m'.intr ≡ busy.intr)
    × (m'.mode ≡ busy.mode)
    × (m'.line ≡ cpu_irq_level m')
bit-write_mask_example = bit-write_mask 0x24 0x0c 1 busy refl
