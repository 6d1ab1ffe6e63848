-- ===== src/Bus/Tests.antt =====
-- A bus with 32 bytes of RDRAM and an image of eight bytes; its devices count the notifications.
use emulador_n64emu.Base.{ℕ, ◌+◌, ◌==◌, ◌≡◌, refl, arith, true, List, [], ◌∷◌}
use emulador_n64emu.Pif.{no_input}
use emulador_n64emu.Bus.{Bus, DeviceInterface, physical, in_dmem, in_range}
use emulador_n64emu.Bus.Read.{read32_const, bytes32}
use emulador_n64emu.Bus.Write.{write32}
use emulador_n64emu.Bus.Bytes.{read32_const-bytes32}
use emulador_n64emu.Bus.Stored.{NotifyLaws, dmem_word, IsMirrored, write32-read32_const}
use emulador_n64emu.Bus.Cartridge.{normalize_cart_endian, Mirrors, normalize_cart_endian-Mirrors}

abbrev counters : DeviceInterface ℕ
counters = record {
  read = λ d offset b. b.devices;
  read_semaphore = λ b. (0, b);
  write = λ d offset value b. record b { devices = value };
  notify_memory_write = λ p size b. record b { devices = b.devices + 1 };
}

counters_laws : NotifyLaws counters
counters_laws = record { notified = λ p size b. b.devices + 1; notify_keeps = λ p size b. refl }

abbrev small_bus : Bus ℕ
small_bus = record {
  rdram = record { size = 32; bytes = λ a. a };
  cart = 0x80 ∷ 0x37 ∷ 0x12 ∷ 0x40 ∷ 1 ∷ 2 ∷ 3 ∷ 4 ∷ [];
  pif_rom = [];
  sp_dmem = λ a. 0;
  sp_imem = λ a. 0;
  rsp_dmem = λ a. 0;
  rsp_imem = λ a. 0;
  pif_ram = λ a. 0;
  pif = record { controllers = λ i. no_input (i == 0); ram = λ a. 0; joybus_count = 0 };
  devices = 0;
}

-- The second word of the cartridge, through KSEG1.
read32_const-bytes32_example : read32_const 0xb000_0004 small_bus ≡ bytes32 0xb000_0004 small_bus
read32_const-bytes32_example = read32_const-bytes32 small_bus 0xb000_0004 (omega arith) refl

-- The third word of the data memory.
in_third : in_dmem (physical 0xa400_0008) ≡ true
unfolding in_dmem in_range
in_third = refl

write32-read32_const_example :
    let after = write32 counters 0xa400_0008 0x1234_5678 small_bus in
    (read32_const 0xa400_0008 after ≡ 0x1234_5678) × IsMirrored after
write32-read32_const_example =
    write32-read32_const counters counters_laws 0xa400_0008 0x1234_5678 small_bus (omega arith)
      (dmem_word in_third refl) (record { same_dmem = refl; same_imem = refl })

normalize_cart_endian-Mirrors_example :
    let native : List ℕ = 0x80 ∷ 0x37 ∷ 0x12 ∷ 0x40 ∷ 1 ∷ 2 ∷ 3 ∷ 4 ∷ 5 ∷ [] in
    let paired : List ℕ = 0x37 ∷ 0x80 ∷ 0x40 ∷ 0x12 ∷ 1 ∷ 2 ∷ 3 ∷ 4 ∷ 5 ∷ [] in
    let little : List ℕ = 0x40 ∷ 0x12 ∷ 0x37 ∷ 0x80 ∷ 1 ∷ 2 ∷ 3 ∷ 4 ∷ 5 ∷ [] in
    (normalize_cart_endian native ≡ native)
    × Mirrors 2 paired (normalize_cart_endian paired)
    × Mirrors 4 little (normalize_cart_endian little)
normalize_cart_endian-Mirrors_example = normalize_cart_endian-Mirrors (1 ∷ 2 ∷ 3 ∷ 4 ∷ 5 ∷ [])
