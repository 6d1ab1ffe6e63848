-- ===== src/Si/Transfer.antt =====
-- The two transfers of the serial interface: what each copies, and that the one after the other is a copy.
use emulador_n64emu.Base.{
  ℕ, zero, suc, ◌+◌, ◌-◌, ◌*◌, ◌/◌, ◌%◌, ◌^◌, ◌≤◌, ◌<◌, ltb, leb, if◌then◌else◌, ◌≡◌, refl, ap, ◌∙◌,
  subst, arith, true, false, ◌&&◌, some, ==-ne, has_bit, set_bit, clear_bit, ℕ_discrete, update,
  if_false,
}
use native.Mathlib.Nat.{mod-eq_of_lt}
use emulador_n64emu.Base.{bit-set_bit, bit-clear_bit}
use emulador_n64emu.Mi
use emulador_n64emu.Mi.{si_intr}
use emulador_n64emu.Pif.{Pif, process_requested}
use emulador_n64emu.Pi.Transfer.{store_inside}
use emulador_n64emu.Rdram.{Rdram, load}
use emulador_n64emu.BlockCache.Invariant.{IsValid}
use emulador_n64emu.BlockCache.Coherence.{Invalidated}
use emulador_n64emu.BlockCache.Notify.{notify_memory_write_lem}
use emulador_n64emu.Si.{
  Si, World, finish_dma, from_pif_loop, to_pif_loop, answered, busy, with_cache, dma_from_pif,
  dma_to_pif,
}

-- A load inside of RDRAM.
load_inside : (i : ℕ) (m : Rdram) → i < m.size → m.size ≤ 2 ^ 32 → load (i % 2 ^ 32) m ≡ m.bytes i
load_inside i m h fits =
    let fits_32 : i % 2 ^ 32 ≡ i = omega arith in
    if_false _ _ (==-ne m.size 0 (omega arith))
    ∙ ap m.bytes (ap (λ k. k % m.size) fits_32 ∙ mod-eq_of_lt h)

-- What the loop leaves in byte `j` of RDRAM.
from_pif_loop_lem :
    (left i dram : ℕ) (ram : ℕ → ℕ) (m : Rdram) (j : ℕ)
    → dram + i + left ≤ m.size
    → m.size ≤ 2 ^ 32
    → (from_pif_loop left i dram ram m).bytes j
      ≡ (if leb (dram + i) j && ltb j (dram + i + left) then ram (j - dram) else m.bytes j)
unfolding from_pif_loop
from_pif_loop_lem zero i dram ram m j h fits = ground arith
from_pif_loop_lem (suc left) i dram ram m j h fits =
    let m1 : Rdram = record m { bytes = update m.bytes (dram + i) (ram i) } in
    let byte = from_pif_loop_lem left (i + 1) dram ram m1 j (omega arith) fits in
    rw (store_inside (dram + i) (ram i) m (omega arith) fits, from_pif_loop)
      (elim (ℕ_discrete j (dram + i)) [
        | yes e ↦
            (let back : j - dram ≡ i = omega arith in
              let same = ap ram back in ground (arith, byte, same))
        | no ne ↦ ground (arith, byte)
      ])

-- What the loop leaves in byte `j` of the PIF RAM.
to_pif_loop_lem :
    (left i dram : ℕ) (m : Rdram) (ram : ℕ → ℕ) (j : ℕ)
    → dram + i + left ≤ m.size
    → m.size ≤ 2 ^ 32
    → to_pif_loop left i dram m ram j
      ≡ (if leb i j && ltb j (i + left) then m.bytes (dram + j) else ram j)
unfolding to_pif_loop
to_pif_loop_lem zero i dram m ram j h fits = ground arith
to_pif_loop_lem (suc left) i dram m ram j h fits =
    let ram1 = update ram i (m.bytes (dram + i)) in
    let byte = to_pif_loop_lem left (i + 1) dram m ram1 j (omega arith) fits in
    rw (load_inside (dram + i) m (omega arith) fits, to_pif_loop)
      (elim (ℕ_discrete j i) [
        | yes e ↦ (let same = ap (λ k. m.bytes (dram + k)) e in ground (arith, byte, same))
        | no ne ↦ ground (arith, byte)
      ])

-- The state after a DMA of the PIF RAM to `dram`.
pub record Received (dram : ℕ) (s s' : Si) (w w' : World) : Type 0 where
  pub copied :
      (j : ℕ)
      → w'.rdram.bytes j ≡ (
          if leb dram j && ltb j (dram + 64)
          then (answered w.pif).ram (j - dram)
          else w.rdram.bytes j)
  pub exchanged : w'.pif ≡ answered w.pif
  pub mirrored : w'.mirror ≡ w'.pif.ram
  pub uncached : Invalidated dram 64 w.cache (some w'.cache)
  pub not_busy : has_bit 0 s'.status ≡ false
  pub done : has_bit 12 s'.status ≡ true
  pub interrupt : w'.mi ≡ Mi.raise si_intr w.mi

-- With a block cache in order and at most 512 MiB of RDRAM, a DMA from the PIF that ends inside of
-- RDRAM completes. It first makes the joybus exchange that was asked for, writes the 64 bytes of the
-- PIF RAM to its range and no other byte, leaves no valid cached block over that range, and raises
-- the SI interrupt with the busy bit clear.
pub dma_from_pif_lem :
    (s : Si) (w : World)
    → IsValid w.cache
    → s.dram_addr / 8 * 8 + 64 ≤ w.rdram.size
    → w.rdram.size ≤ 2 ^ 29
    → (s' : Si) × (w' : World) × (dma_from_pif s w ≡ some (s', w'))
      × Received (s.dram_addr / 8 * 8) s s' w w'
unfolding dma_from_pif finish_dma has_bit
dma_from_pif_lem s w v h fits =
    let dram = s.dram_addr / 8 * 8 in
    let p = answered w.pif in
    let i = notify_memory_write_lem dram 64 w.cache v (omega arith) in
    let (finished, mi) = finish_dma (busy s) w.mi in
    let copied = from_pif_loop 64 0 dram p.ram w.rdram in
    let moved : World = record w { rdram = copied; pif = p; mirror = p.ram; mi = mi } in
    (
      finished,
      record moved { cache = i.after },
      ap (with_cache finished moved) i.returns,
      record {
        copied = λ j.
            ground (arith, from_pif_loop_lem 64 0 dram p.ram w.rdram j (omega arith) (omega arith));
        exchanged = refl;
        mirrored = refl;
        uncached = subst (Invalidated dram 64 w.cache) i.returns i;
        not_busy = ground (
          arith,
          bit-set_bit 0 12 (clear_bit 0 (set_bit 0 s.status)),
          bit-clear_bit 0 0 (set_bit 0 s.status),
        );
        done = ground (arith, bit-set_bit 12 12 (clear_bit 0 (set_bit 0 s.status)));
        interrupt = refl;
      },
    )

answered-idle : (p : Pif) → process_requested p ≡ false → answered p ≡ p
unfolding answered
answered-idle p h = if_false _ _ h

-- With a block cache in order and at most 512 MiB of RDRAM, a DMA to the PIF of 64 bytes inside of
-- RDRAM that ask for no joybus exchange, followed by a DMA from the PIF to any range inside of RDRAM,
-- completes, leaves these 64 bytes in that range, in order, and no other byte of RDRAM changed.
pub dma_to_pif-dma_from_pif :
    (s : Si) (w : World) (dest : ℕ)
    → IsValid w.cache
    → s.dram_addr / 8 * 8 + 64 ≤ w.rdram.size
    → dest / 8 * 8 + 64 ≤ w.rdram.size
    → w.rdram.size ≤ 2 ^ 29
    → has_bit 0 (w.rdram.bytes (s.dram_addr / 8 * 8 + 0x3f)) ≡ false
    → let (s1, w1) = dma_to_pif s w in
      (s' : Si) × (w' : World) × (dma_from_pif (record s1 { dram_addr = dest }) w1 ≡ some (s', w'))
      × ((j : ℕ)
          → w'.rdram.bytes j ≡ (
              if leb (dest / 8 * 8) j && ltb j (dest / 8 * 8 + 64)
              then w.rdram.bytes (s.dram_addr / 8 * 8 + (j - dest / 8 * 8))
              else w.rdram.bytes j))
unfolding dma_to_pif finish_dma
dma_to_pif-dma_from_pif s w dest v h inside fits idle =
    let dram = s.dram_addr / 8 * 8 in
    let base = dest / 8 * 8 in
    let ram = to_pif_loop 64 0 dram w.rdram w.pif.ram in
    let p : Pif = record w.pif { ram = ram } in
    let byte =
      λ (j : ℕ). to_pif_loop_lem 64 0 dram w.rdram w.pif.ram j (omega arith) (omega arith) in
    let quiet : process_requested p ≡ false = ap (has_bit 0) (byte 0x3f) ∙ idle in
    let same = answered-idle p quiet in
    let (s1, w1) = dma_to_pif s w in
    let (s', w', e, r) = dma_from_pif_lem (record s1 { dram_addr = dest }) w1 v inside fits in
    let twice : answered w1.pif ≡ p = ap answered same ∙ same in
    (
      s',
      w',
      e,
      λ j.
          (let back = ap (λ q. q.ram (j - base)) twice in
            ground (arith, r.copied j, back, byte (j - base))),
    )
