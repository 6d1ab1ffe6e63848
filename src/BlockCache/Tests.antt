-- ===== src/BlockCache/Tests.antt =====
-- A cache with one block of the kernel in it.
use emulador_n64emu.Base.{◌≡◌, refl, arith, true, some, [], ◌∷◌}
use emulador_n64emu.BlockCache.{BlockCache, BasicBlock, empty_cache, lookup, invalidate}
use emulador_n64emu.BlockCache.Fetch.{install}
use emulador_n64emu.BlockCache.Invariant.{IsValid}
use emulador_n64emu.BlockCache.Install.{install-IsValid}
use emulador_n64emu.BlockCache.Notify.{notify_memory_write, notify_memory_write_lem}
use emulador_n64emu.BlockCache.Coherence.{Invalidated, empty_cache-IsValid, invalidate_lem}

abbrev loop_block : BasicBlock
loop_block = record {
  start_pc = 0x8000_0100;
  paddr = 0x100;
  insns = 0x2508_0001 ∷ 0x1000_fffe ∷ 0 ∷ [];
  ends_with_branch = true;
}

abbrev pub cached : BlockCache
cached = install loop_block empty_cache

cached-IsValid : IsValid cached
cached-IsValid =
    install-IsValid loop_block empty_cache empty_cache-IsValid
      (record { aligned = omega arith; not_empty = omega arith; short = omega arith })

found_before : ((lookup 0x8000_0100 cached).0) ≡ some loop_block
unfolding install lookup
found_before = refl

invalidate_example : Invalidated 0x104 4 cached (invalidate 0x104 4 cached)
invalidate_example = invalidate_lem 0x104 4 cached cached-IsValid

notify_memory_write_example : Invalidated 0x104 4 cached (notify_memory_write 0x104 4 cached)
notify_memory_write_example = notify_memory_write_lem 0x104 4 cached cached-IsValid (omega arith)
