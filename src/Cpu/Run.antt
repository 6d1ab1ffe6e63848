-- ===== src/Cpu/Run.antt =====
-- src/cpu/cpu.cpp: `run`, which takes blocks of the cache where it can and single steps where it
-- cannot. The trace is not set; the bus and the cache are connected.
pub mod Ending
mod Tests
use emulador_n64emu.Base.{
  ℕ, zero, suc, ◌+◌, ◌-◌, ◌*◌, ◌/◌, ◌%◌, ◌^◌, ◌≤◌, ◌<◌, min, max, bit_and, bit_or, bit_xor, ◌==◌,
  ltb, leb, if◌then◌else◌, ◌≡◌, ◌≢◌, ◌↔◌, ◌⊎◌, inl, inr, refl, sym, ap, ◌∙◌, subst, arith, Bool,
  Bool-cases, true, false, not, ◌&&◌, ◌||◌, Option, Option-cases, none, some, List, [], ◌∷◌, ◌++◌,
  map, length, get_or, set, replicate, ltb→lt, lt→ltb, leb→le, ==_iff, ==-ne, bit, has_bit, set_bit,
  clear_bit, low, ℕ_discrete, dec_lt, dec_le, update, if_true, if_false,
}
use emulador_n64emu.BlockCache.{BasicBlock, BlockCache, lookup}
use emulador_n64emu.BlockCache.Fetch.{compile}
use emulador_n64emu.Cpu.{Cpu}
use emulador_n64emu.Cpu.Tlb.{translate}
use emulador_n64emu.Cpu.Machine.{Machine, BusInterface, with_cpu, over}
use emulador_n64emu.Cpu.Step.{step, execute_block}

module _ {B : Type 0} (io : BusInterface B) (exec_cop1_format : ℕ → Cpu → Cpu) where
  abbrev set_cache : BlockCache → Machine B → Machine B
  set_cache cache m = over (λ c. record c { cache = cache }) m

  -- The block of the address, from the cache or compiled.
  unfoldable pub find_block : Machine B → Option BasicBlock × Machine B
  find_block m =
      let found = lookup m.cpu.pc m.cpu.cache in
      elim found.0 [
        | some block ↦ (some block, set_cache found.1 m)
        | none ↦
            (let compiled =
                compile (λ v. translate v false m.cpu) (λ p. io.read32_const p m.bus) m.cpu.pc
                  found.1 in
              (compiled.0, set_cache compiled.1 m))
      ]

  abbrev single_step : ℕ → Machine B → ℕ × Machine B
  single_step taken m = (taken + 1, step io exec_cop1_format m)

  -- A block that the remaining cycles allow; where its first instruction is not at the address it
  -- takes none, and a step is taken.
  unfoldable pub take_block : ℕ → ℕ → Option BasicBlock × Machine B → ℕ × Machine B
  take_block n taken (none, m) = single_step taken m
  take_block n taken (some block, m) =
      let r = execute_block io exec_cop1_format block m in
      if not (length block.insns == 0) && leb (taken + length block.insns) n
      then (if r.0 == 0 then single_step taken r.1 else (taken + r.0, r.1))
      else single_step taken m

  unfoldable pub round : ℕ → ℕ → Machine B → ℕ × Machine B
  round n taken m =
      if m.cpu.block_cache_enabled && not m.cpu.branch_pending
      then take_block n taken (find_block m)
      else single_step taken m

  -- The loop on fuel; `none` is a loop that has not ended.
  unfoldable pub run_loop : ℕ → ℕ → ℕ → Machine B → Option (ℕ × Machine B)
  run_loop zero n taken m = none
  run_loop (suc fuel) n taken m = elim (ltb taken n && not m.cpu.halted) [
    | false ↦ some (taken, m)
    | true ↦ (let r = round n taken m in run_loop fuel n r.0 r.1)
  ]

  -- A round takes at least one cycle.
  unfoldable pub run : ℕ → Machine B → Option (ℕ × Machine B)
  run n m = run_loop (n + 1) n 0 m
