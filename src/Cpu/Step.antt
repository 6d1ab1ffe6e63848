-- ===== src/Cpu/Step.antt =====
-- src/cpu/cpu.cpp: `step`, one instruction with its branch delay slot, and `execute_block`, the
-- instructions of a block of the cache.
pub mod Block
use emulador_n64emu.Base.{
  ℕ, zero, suc, ◌+◌, ◌-◌, ◌*◌, ◌/◌, ◌%◌, ◌^◌, ◌≤◌, ◌<◌, min, max, bit_and, bit_or, bit_xor, ◌==◌,
  ltb, leb, if◌then◌else◌, ◌≡◌, ◌≢◌, ◌↔◌, ◌⊎◌, inl, inr, refl, sym, ap, ◌∙◌, subst, arith, Bool,
  Bool-cases, true, false, not, ◌&&◌, ◌||◌, Option, Option-cases, none, some, List, [], ◌∷◌, ◌++◌,
  map, length, get_or, set, replicate, ltb→lt, lt→ltb, leb→le, ==_iff, ==-ne, bit, has_bit, set_bit,
  clear_bit, low, ℕ_discrete, dec_lt, dec_le, update, if_true, if_false,
}
use emulador_n64emu.BlockCache.{BasicBlock}
use emulador_n64emu.Cpu.{Cpu}
use emulador_n64emu.Cpu.Cop0.{advance_count}
use emulador_n64emu.Cpu.Exception.{check_interrupts, interrupt_due}
use emulador_n64emu.Cpu.Machine.{Machine, BusInterface, with_cpu, over, fetch}
use emulador_n64emu.Cpu.Execute.{execute}

-- `gpr_[0] = 0; advance_count(); ++cycles_; in_delay_slot_ = false;`
unfoldable pub end_step : Cpu → Cpu
end_step c =
    let c' = advance_count (record c { gpr = update c.gpr 0 0 }) in
    record c' { cycles = (c'.cycles + 1) % 2 ^ 64; in_delay_slot = false }

-- An exception was counted since `before`.
abbrev pub excepted : ℕ → Cpu → Bool
excepted before c = not (c.exception_count == before)

-- The addresses after an instruction that raised none.
unfoldable pub advance_pc : ℕ → Bool → Cpu → Cpu
advance_pc insn_pc delay_slot c =
    if delay_slot
    then record c { pc = c.next_pc; next_pc = (c.next_pc + 4) % 2 ^ 64; branch_pending = false }
    else if c.branch_pending
    then record c { pc = (insn_pc + 4) % 2 ^ 64 }
    else record c { pc = c.next_pc; next_pc = (c.next_pc + 4) % 2 ^ 64 }

-- The next address is the following one, but in a delay slot.
unfoldable pub prepare : ℕ → Bool → Cpu → Cpu
prepare insn_pc delay_slot c =
    if delay_slot then c else record c { next_pc = (insn_pc + 4) % 2 ^ 64; branch_pending = false }

-- The interrupt that `step` takes before it fetches.
unfoldable pub service : Cpu → Cpu
service c = if c.branch_pending then c else check_interrupts c

-- The same in a block, where the test of `check_interrupts` is made first.
unfoldable pub service_in_block : Cpu → Cpu
service_in_block c = if not c.branch_pending && interrupt_due c then check_interrupts c else c

abbrev pub enter : Cpu → Cpu
enter c = record c { in_delay_slot = c.branch_pending }

module _ {B : Type 0} (io : BusInterface B) (exec_cop1_format : ℕ → Cpu → Cpu) where
  -- From `next_pc_ = insn_pc + 4` on; whether `insn` raised an exception.
  unfoldable pub run_insn : ℕ → ℕ → Bool → ℕ → Machine B → Bool × Machine B
  run_insn insn insn_pc delay_slot before m =
      let m' = execute io exec_cop1_format insn (over (prepare insn_pc delay_slot) m) in
      if excepted before m'.cpu
      then (true, over (λ c. record (end_step c) { branch_pending = false }) m')
      else (false, over (λ c. end_step (advance_pc insn_pc delay_slot c)) m')

  unfoldable pub fetch_and_run : Machine B → Machine B
  fetch_and_run m =
      let insn_pc = m.cpu.pc in
      let before = m.cpu.exception_count in
      let fetched = fetch io insn_pc (over enter m) in
      if excepted before fetched.1.cpu
      then over end_step fetched.1
      else (run_insn fetched.0 insn_pc m.cpu.branch_pending before fetched.1).1

  unfoldable pub step : Machine B → Machine B
  step m =
      if m.cpu.halted
      then over (λ c. record c { cycles = (c.cycles + 1) % 2 ^ 64 }) m
      else if excepted m.cpu.exception_count (service m.cpu)
      then over (λ c. end_step (service c)) m
      else fetch_and_run (over service m)

  -- The instructions of a block from the expected address on; the number of those taken.
  unfoldable pub block_loop : List ℕ → ℕ → Machine B → ℕ × Machine B
  block_loop [] expected_pc m = (0, m)
  block_loop (insn ∷ rest) expected_pc m =
      let c = service_in_block m.cpu in
      let ran = run_insn insn c.pc c.branch_pending c.exception_count (with_cpu (enter c) m) in
      let next = block_loop rest ((expected_pc + 4) % 2 ^ 64) ran.1 in
      if not (m.cpu.pc == expected_pc)
      then (0, m)
      else if excepted m.cpu.exception_count c
      then (1, with_cpu (end_step c) m)
      else if ran.0
      then (1, ran.1)
      else if ran.1.cpu.halted
      then (1, ran.1)
      else (suc next.0, next.1)

  unfoldable pub execute_block : BasicBlock → Machine B → ℕ × Machine B
  execute_block block m = block_loop block.insns block.start_pc m
