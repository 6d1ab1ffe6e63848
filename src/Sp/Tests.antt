-- ===== src/Sp/Tests.antt =====
-- The RSP is started.
use emulador_n64emu.Base.{refl, true, bit, has_bit}
use emulador_n64emu.BlockCache.{empty_cache}
use emulador_n64emu.Rsp.{at_reset}
use emulador_n64emu.Sp.{Sp, World, apply_status_write}
use emulador_n64emu.Sp.Status.{IsCoherent, apply_status_write-IsCoherent}

-- Halted after a BREAK.
abbrev stopped : Sp
stopped = record { mem_addr = 0; dram_addr = 0; status = 3; semaphore = 0; last_dma_bytes = 0 }

abbrev small_world : World
small_world = record {
  rdram = record { size = 16; bytes = λ i. 0 };
  sp_dmem = λ i. 1;
  sp_imem = λ i. 2;
  rsp = record at_reset { broke = true };
  cache = empty_cache;
  mi = record { mode = 0; intr = 1; intr_mask = 1; line = true };
}

stopped-IsCoherent : IsCoherent stopped small_world.rsp
unfolding has_bit bit
stopped-IsCoherent = record { halt = refl; broken = refl; on_break = refl }

apply_status_write_example :
    let (s', w') = apply_status_write 0x10d stopped small_world in IsCoherent s' w'.rsp
apply_status_write_example =
    apply_status_write-IsCoherent 0x10d stopped small_world stopped-IsCoherent
