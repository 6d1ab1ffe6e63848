-- ===== src/Rsp/Tests.antt =====
-- A step of the RSP that starts a DMA, and sums at the border of a lane.
use emulador_n64emu.Base.{
  ℕ, ◌-◌, ◌==◌, ltb, if◌then◌else◌, ◌≡◌, refl, arith, false, some, [], ◌∷◌, get_or,
}
use emulador_n64emu.BlockCache.{empty_cache}
use emulador_n64emu.Bus.{word32}
use emulador_n64emu.Rdp.Raster.{Raster, no_image, no_tile}
use emulador_n64emu.Rsp.{at_reset}
use emulador_n64emu.Rsp.Vector.Compare.{vadd_lane, vsub_lane}
use emulador_n64emu.Rsp.Vector.Saturate.{offset_lane, vadd_lane-vsub_lane}
use emulador_n64emu.Rsp.Execute.{step}
use emulador_n64emu.Rsp.Placed.Store.{IsPlaced}
use emulador_n64emu.Rsp.Registers.{Devices, Connected, registers}
use emulador_n64emu.Rsp.Registers.Kept.{step_registers-IsPlaced}

-- MTC0 of register 1 to SP_RD_LEN.
abbrev program : ℕ → ℕ
program a = get_or (0x40 ∷ 0x81 ∷ 0x10 ∷ 0x00 ∷ []) a 0

-- A DMA of eight bytes to byte 16 of the data memory is set up.
abbrev devices : Devices
devices = record {
  sp = record { mem_addr = 16; dram_addr = 8; status = 0; semaphore = 0; last_dma_bytes = 0 };
  dp = record { start = 0; end = 0; current = 0; status = 0x80 };
  rdp = record {
    busy = false;
    mi = record { mode = 0; intr = 0; intr_mask = 0; line = false };
    rest = record {
      color_image = no_image;
      texture_image = no_image;
      scissor = record { xh = 0; yh = 0; xl = 320; yl = 240; is_set = false };
      tiles = λ i. no_tile;
      tmem = λ i. 0;
      fill_color = 0;
      blend_color = 0;
      other_modes = 0;
      cmds_executed = 0;
      fill_pixels = 0;
      tex_pixels = 0;
      rdram = record { size = 64; bytes = λ a. a };
    };
  };
  cache = empty_cache;
}

abbrev list_read : (ℕ → ℕ) → ℕ → Raster → ℕ
list_read dmem addr r =
    if ltb addr 0x0400_0000 then word32 r.rdram.bytes addr else word32 dmem (addr - 0x0400_0000)

abbrev started : Connected
started = record {
  rsp = record at_reset { imem = program; gpr = λ i. if i == 1 then 7 else 0; halted = false };
  sp_dmem = λ a. 0;
  sp_imem = program;
  bus = some devices;
}

started-IsPlaced : IsPlaced started
started-IsPlaced = record {
  placed = record {
    same_dmem = refl;
    pc_fits = (refl, omega arith);
    next_fits = (refl, omega arith);
    zero_register = refl;
  };
}

step_registers-IsPlaced_example : IsPlaced (step (registers list_read) started)
step_registers-IsPlaced_example = step_registers-IsPlaced list_read started started-IsPlaced

-- The greatest lane plus 1, and less 1.
vadd_lane-vsub_lane_example :
    (offset_lane (vadd_lane 0 0x7fff 1) ≡ 0xffff) × (offset_lane (vsub_lane 0 0x7fff 1) ≡ 0xfffe)
vadd_lane-vsub_lane_example =
    vadd_lane-vsub_lane 0x7fff 1 0 (omega arith) (omega arith) (omega arith)
