-- ===== src/Cpu/Unaligned.antt =====
-- src/cpu/cpu.cpp: the loads and stores of a part of a word, LWL, LWR, SWL, SWR, LDL, LDR, SDL
-- and SDR.
use emulador_n64emu.Base.{
  ℕ, ◌-◌, ◌*◌, ◌/◌, ◌%◌, ◌^◌, bit_and, bit_or, Bool, true, false, Option, none, some,
}
use emulador_n64emu.Cpu.{Cpu}
use emulador_n64emu.Cpu.Word.{rt, sext32}
use emulador_n64emu.Cpu.Gpr.{address, rt64, rt32, write_gpr}
use emulador_n64emu.Cpu.Tlb.{translate_or_raise}
use emulador_n64emu.Cpu.Machine.{Machine, BusInterface, with_value, read_at, with_cpu, over}

-- `w` bits moved to the left and to the right.
unfoldable pub left : ℕ → ℕ → ℕ → ℕ
left w s x = x * 2 ^ s % 2 ^ w

unfoldable pub right : ℕ → ℕ → ℕ
right s x = x / 2 ^ s

-- `(old & ~mask) | (new & mask)` on `w` bits.
unfoldable pub merge : ℕ → ℕ → ℕ → ℕ → ℕ
merge w mask old new = bit_or (bit_and old (2 ^ w - 1 - mask)) (bit_and new mask)

abbrev ones32 : ℕ
ones32 = 0xffff_ffff

abbrev ones64 : ℕ
ones64 = 0xffff_ffff_ffff_ffff

-- The new register of a load: `n` is the byte in the aligned word.
unfoldable pub lwl_result : ℕ → ℕ → ℕ → ℕ
lwl_result n reg mem =
    let s = (3 - n) * 8 in sext32 (merge 32 (left 32 s ones32) reg (left 32 s mem))

unfoldable pub lwr_result : ℕ → ℕ → ℕ → ℕ
lwr_result n reg mem = let s = n * 8 in sext32 (merge 32 (right s ones32) reg (right s mem))

unfoldable pub ldl_result : ℕ → ℕ → ℕ → ℕ
ldl_result n reg mem = let s = (7 - n) * 8 in merge 64 (left 64 s ones64) reg (left 64 s mem)

unfoldable pub ldr_result : ℕ → ℕ → ℕ → ℕ
ldr_result n reg mem = let s = n * 8 in merge 64 (right s ones64) reg (right s mem)

-- The new word of memory of a store.
unfoldable pub swl_result : ℕ → ℕ → ℕ → ℕ
swl_result n reg mem = let s = (3 - n) * 8 in merge 32 (left 32 s ones32) mem (right s reg)

unfoldable pub swr_result : ℕ → ℕ → ℕ → ℕ
swr_result n reg mem = let s = n * 8 in merge 32 (right s ones32) mem (left 32 s reg)

unfoldable pub sdl_result : ℕ → ℕ → ℕ → ℕ
sdl_result n reg mem = let s = (7 - n) * 8 in merge 64 (left 64 s ones64) mem (right s reg)

unfoldable pub sdr_result : ℕ → ℕ → ℕ → ℕ
sdr_result n reg mem = let s = n * 8 in merge 64 (right s ones64) mem (left 64 s reg)

module _ {B : Type 0} where
  -- The word at the address is read, changed and written back; the register is that before the
  -- read.
  unfoldable pub modify_at :
      (ℕ → Machine B → ℕ × Machine B)
      → (ℕ → ℕ → Machine B → Machine B)
      → (ℕ → ℕ)
      → Option ℕ × Cpu
      → Machine B
      → Machine B
  modify_at read write f (none, c) m = with_cpu c m
  modify_at read write f (some p, c) m =
      let r = read p (with_cpu c m) in over (λ c. record c { ll_bit = false }) (write p (f r.0) r.1)

module _ {B : Type 0} (io : BusInterface B) where
  -- The aligned address is translated; a fault reports the address itself.
  abbrev probe_aligned : ℕ → Bool → ℕ → Machine B → Option ℕ × Cpu
  probe_aligned size is_store addr m = translate_or_raise (addr / size * size) addr is_store m.cpu

  unfoldable pub exec_lwl : ℕ → Machine B → Machine B
  exec_lwl i m =
      let addr = address i m.cpu in
      with_value (λ mem c. write_gpr (rt i) (lwl_result (addr % 4) (rt32 i c) mem) c)
        (read_at io.read32 (probe_aligned 4 false addr m) m)

  unfoldable pub exec_lwr : ℕ → Machine B → Machine B
  exec_lwr i m =
      let addr = address i m.cpu in
      with_value (λ mem c. write_gpr (rt i) (lwr_result (addr % 4) (rt32 i c) mem) c)
        (read_at io.read32 (probe_aligned 4 false addr m) m)

  unfoldable pub exec_ldl : ℕ → Machine B → Machine B
  exec_ldl i m =
      let addr = address i m.cpu in
      with_value (λ mem c. write_gpr (rt i) (ldl_result (addr % 8) (rt64 i c) mem) c)
        (read_at io.read64 (probe_aligned 8 false addr m) m)

  unfoldable pub exec_ldr : ℕ → Machine B → Machine B
  exec_ldr i m =
      let addr = address i m.cpu in
      with_value (λ mem c. write_gpr (rt i) (ldr_result (addr % 8) (rt64 i c) mem) c)
        (read_at io.read64 (probe_aligned 8 false addr m) m)

  unfoldable pub exec_swl : ℕ → Machine B → Machine B
  exec_swl i m =
      let addr = address i m.cpu in
      modify_at io.read32 io.write32 (swl_result (addr % 4) (rt32 i m.cpu))
        (probe_aligned 4 true addr m) m

  unfoldable pub exec_swr : ℕ → Machine B → Machine B
  exec_swr i m =
      let addr = address i m.cpu in
      modify_at io.read32 io.write32 (swr_result (addr % 4) (rt32 i m.cpu))
        (probe_aligned 4 true addr m) m

  unfoldable pub exec_sdl : ℕ → Machine B → Machine B
  exec_sdl i m =
      let addr = address i m.cpu in
      modify_at io.read64 io.write64 (sdl_result (addr % 8) (rt64 i m.cpu))
        (probe_aligned 8 true addr m) m

  unfoldable pub exec_sdr : ℕ → Machine B → Machine B
  exec_sdr i m =
      let addr = address i m.cpu in
      modify_at io.read64 io.write64 (sdr_result (addr % 8) (rt64 i m.cpu))
        (probe_aligned 8 true addr m) m
