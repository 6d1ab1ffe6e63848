-- ===== src/Si/Tests.antt =====
-- A small RDRAM of which 64 bytes go to the PIF and from there to another place.
use emulador_n64emu.Base.{
  ℕ, ◌+◌, ◌-◌, ◌*◌, ◌==◌, leb, ltb, if◌then◌else◌, ◌&&◌, ◌≡◌, refl, arith, false, some, bit,
  has_bit,
}
use emulador_n64emu.BlockCache.{empty_cache}
use emulador_n64emu.BlockCache.Coherence.{empty_cache-IsValid}
use emulador_n64emu.Pif.{no_input}
use emulador_n64emu.Si.{Si, World, dma_to_pif, dma_from_pif}
use emulador_n64emu.Si.Transfer.{dma_to_pif-dma_from_pif}

abbrev idle : Si
idle = record { dram_addr = 8; status = 0; last_dma_bytes = 0 }

abbrev small_world : World
small_world = record {
  rdram = record { size = 128; bytes = λ i. i * 2 };
  pif = record { controllers = λ i. no_input (i == 0); ram = λ i. 0; joybus_count = 0 };
  mirror = λ i. 0;
  cache = empty_cache;
  mi = record { mode = 0; intr = 0; intr_mask = 2; line = false };
}

even : has_bit 0 (small_world.rdram.bytes (8 + 0x3f)) ≡ false
unfolding has_bit bit
even = refl

dma_to_pif-dma_from_pif_example :
    let (s1, w1) = dma_to_pif idle small_world in
    (s' : Si) × (w' : World) × (dma_from_pif (record s1 { dram_addr = 64 }) w1 ≡ some (s', w'))
    × ((j : ℕ)
        → w'.rdram.bytes j ≡ (
            if leb 64 j && ltb j (64 + 64)
            then small_world.rdram.bytes (8 + (j - 64))
            else small_world.rdram.bytes j))
dma_to_pif-dma_from_pif_example =
    dma_to_pif-dma_from_pif idle small_world 64 empty_cache-IsValid (omega arith) (omega arith)
      (omega arith) even
