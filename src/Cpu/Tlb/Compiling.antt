-- ===== src/Cpu/Tlb/Compiling.antt =====
-- `BlockCache::compile` with the address translation of the CPU.
use emulador_n64emu.Base.{ℕ, ◌%◌, ◌≡◌, subst, arith, false, Option, none, some}
use mathlib.Core.Option.{some-injective}
use emulador_n64emu.BlockCache.Fetch.{compile}
use emulador_n64emu.BlockCache.Invariant.{IsValid}
use emulador_n64emu.BlockCache.Compile.{Compiled, compile_lem}
use emulador_n64emu.Cpu.{Cpu}
use emulador_n64emu.Cpu.Tlb.{
  Translation, mapped, address_error, tlb_miss, tlb_invalid, tlb_modified, translate_address,
  translate,
}
use emulador_n64emu.Cpu.Tlb.Segments.{IfMapped}
use emulador_n64emu.Cpu.Tlb.Offset.{translate_address-offset}

-- The address of a translation that succeeds.
address_of : Translation → Option ℕ
address_of t = elim t [ mapped p ↦ some p | _ ↦ none ]

mapped_address :
    (t : Translation) (P : ℕ → Type 0) (p : ℕ) → IfMapped t P → address_of t ≡ some p → P p
unfolding address_of
mapped_address (mapped q) P p h e = subst P (some-injective _ _ e) h
mapped_address address_error P p h e = cc
mapped_address tlb_miss P p h e = cc
mapped_address tlb_invalid P p h e = cc
mapped_address tlb_modified P p h e = cc

-- A word-aligned address is translated to a word-aligned address.
pub translate-aligned : (c : Cpu) (v p : ℕ) → translate v false c ≡ some p → v % 4 ≡ 0 → p % 4 ≡ 0
unfolding translate address_of
translate-aligned c v p e word =
    let same =
      mapped_address (translate_address v false c) (λ q. q % 4096 ≡ v % 4096) p
        (translate_address-offset v false c) e in
    omega (arith, same)

abbrev pub translate_fetch : Cpu → ℕ → Option ℕ
translate_fetch c vaddr = translate vaddr false c

-- With the translation of the CPU, `compile` at a word-aligned address either finds no
-- translation and leaves the cache alone, or returns a block of 1 to 33 words fetched from the
-- address on, keeps the invariant, and leaves the block where `lookup` of the address finds it.
pub compile-translate :
    (read32 : ℕ → ℕ) (vaddr : ℕ) (c : Cpu)
    → vaddr % 4 ≡ 0
    → IsValid c.cache
    → Compiled
        (translate_fetch c)
        read32
        (translate-aligned c)
        vaddr
        c.cache
        (compile (translate_fetch c) read32 vaddr c.cache)
compile-translate read32 vaddr c word v =
    compile_lem (translate_fetch c) read32 (translate-aligned c) vaddr c.cache word v
