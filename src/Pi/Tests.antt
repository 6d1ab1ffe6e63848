-- ===== src/Pi/Tests.antt =====
-- A transfer from a small cartridge.
use emulador_n64emu.Base.{◌≡◌, arith, false, some, [], ◌∷◌}
use emulador_n64emu.BlockCache.{empty_cache}
use emulador_n64emu.BlockCache.Coherence.{empty_cache-IsValid}
use emulador_n64emu.Pi.{Pi, World, start_dma_to_rdram}
use emulador_n64emu.Pi.Transfer.{Transferred, start_dma_to_rdram_lem}

-- Four bytes of the cartridge go to address 8.
abbrev ready : Pi
ready = record {
  dram_addr = 9;
  cart_addr = 0x1000_0002;
  rd_len = 3;
  wr_len = 0;
  status = 6;
  dom1_lat = 0x40;
  dom1_pwd = 0x12;
  dom1_pgs = 0x07;
  dom1_rls = 0x03;
  dom2_lat = 0x40;
  dom2_pwd = 0x12;
  dom2_pgs = 0x07;
  dom2_rls = 0x03;
  last_dma_bytes = 0;
}

abbrev small_world : World
small_world = record {
  rdram = record { size = 16; bytes = λ _. 0xff };
  cart = 1 ∷ 2 ∷ 3 ∷ 4 ∷ 5 ∷ [];
  cache = empty_cache;
  mi = record { mode = 0; intr = 0; intr_mask = 0x10; line = false };
}

start_dma_to_rdram_example :
    (p' : Pi) × (w' : World) × (start_dma_to_rdram ready small_world ≡ some (p', w'))
    × Transferred 8 4 0x1000_0002 ready p' small_world w'
start_dma_to_rdram_example =
    start_dma_to_rdram_lem ready small_world empty_cache-IsValid (omega arith) (omega arith)
