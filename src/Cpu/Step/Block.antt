-- ===== src/Cpu/Step/Block.antt =====
-- A block of the cache does what single steps do.
use emulador_n64emu.Base.{
  ℕ, zero, suc, ◌+◌, ◌%◌, ◌^◌, ◌≤◌, ◌<◌, ◌==◌, if◌then◌else◌, ◌≡◌, inl, inr, refl, sym, ap, ◌∙◌,
  subst, arith, Bool, Bool-cases, true, false, not, List, [], ◌∷◌, length, if_true, if_false,
}
use emulador_n64emu.BlockCache.{BasicBlock}
use emulador_n64emu.Cpu.{Cpu}
use emulador_n64emu.Cpu.Exception.{check_interrupts}
use emulador_n64emu.Cpu.Machine.{Machine, BusInterface, with_cpu, over, fetch}
use emulador_n64emu.Cpu.Step.{
  end_step, excepted, service, service_in_block, enter, run_insn, fetch_and_run, step, block_loop,
  execute_block,
}

same_count : (n : ℕ) → not (n == n) ≡ false
same_count n = ground arith

-- Testing for the interrupt first changes nothing.
service_in_block-service : (c : Cpu) → service_in_block c ≡ service c
unfolding service service_in_block check_interrupts
service_in_block-service c = ground arith

module _ {B : Type 0} (io : BusInterface B) (exec_cop1_format : ℕ → Cpu → Cpu) where
  unfoldable pub steps : ℕ → Machine B → Machine B
  steps zero m = m
  steps (suc k) m = steps k (step io exec_cop1_format m)

  -- The machine that fetches, when no interrupt is taken.
  abbrev entered : Machine B → Machine B
  entered m = over enter (over service m)

  -- Single steps fetch the instructions from `pc` on, as long as they come to these addresses and
  -- no interrupt is taken, and fetching one does nothing else.
  pub data StillThere : List ℕ → ℕ → Machine B → Type 0 where
    ended : (pc : ℕ) (m : Machine B) → StillThere [] pc m
    elsewhere :
        (insns : List ℕ) (pc : ℕ) (m : Machine B) → m.cpu.pc == pc ≡ false → StillThere insns pc m
    interrupted :
        (insns : List ℕ) (pc : ℕ) (m : Machine B)
        → excepted m.cpu.exception_count (service m.cpu) ≡ true
        → StillThere insns pc m
    fetched :
        (insn : ℕ) (rest : List ℕ) (pc : ℕ) (m : Machine B)
        → fetch io (service m.cpu).pc (entered m) ≡ (insn, entered m)
        → StillThere rest ((pc + 4) % 2 ^ 64) (step io exec_cop1_format m)
        → StillThere (insn ∷ rest) pc m

  -- One round of the loop with the tests that it makes.
  abbrev ran : ℕ → Machine B → Bool × Machine B
  ran insn m =
      let c = service m.cpu in
      run_insn io exec_cop1_format insn c.pc c.branch_pending c.exception_count
        (with_cpu (enter c) m)

  step-interrupt :
      (m : Machine B)
      → m.cpu.halted ≡ false
      → excepted m.cpu.exception_count (service m.cpu) ≡ true
      → step io exec_cop1_format m ≡ with_cpu (end_step (service m.cpu)) m
  unfolding step
  step-interrupt m h e = if_false _ _ h ∙ if_true _ _ e

  step-ran :
      (insn : ℕ) (m : Machine B)
      → m.cpu.halted ≡ false
      → excepted m.cpu.exception_count (service m.cpu) ≡ false
      → fetch io (service m.cpu).pc (entered m) ≡ (insn, entered m)
      → step io exec_cop1_format m ≡ (ran insn m).1
  unfolding step fetch_and_run
  step-ran insn m h e f =
      let before = (service m.cpu).exception_count in
      let after : ℕ × Machine B → Machine B = λ r.
        if excepted before r.1.cpu
        then over end_step r.1
        else (run_insn io exec_cop1_format r.0 (service m.cpu).pc (service m.cpu).branch_pending
            before r.1).1 in
      if_false _ _ h ∙ if_false _ _ e ∙ ap after f ∙ if_false _ _ (same_count before)

  -- The rounds that stop before the instruction.
  no_round :
      (insns : List ℕ) (pc : ℕ) (m : Machine B)
      → m.cpu.pc == pc ≡ false
      → (block_loop io exec_cop1_format insns pc m).1
        ≡ steps (block_loop io exec_cop1_format insns pc m).0 m
  unfolding block_loop steps
  no_round [] pc m n = refl
  no_round (insn ∷ rest) pc m n = rw n refl

  interrupt_round :
      (insns : List ℕ) (pc : ℕ) (m : Machine B)
      → m.cpu.halted ≡ false
      → excepted m.cpu.exception_count (service m.cpu) ≡ true
      → (block_loop io exec_cop1_format insns pc m).1
        ≡ steps (block_loop io exec_cop1_format insns pc m).0 m
  unfolding block_loop steps
  interrupt_round [] pc m h e = refl
  interrupt_round (insn ∷ rest) pc m h e = elim (Bool-cases (m.cpu.pc == pc)) [
    | inr n ↦ rw n refl
    | inl q ↦ rw (service_in_block-service m.cpu) (rw (q, e) (sym (step-interrupt m h e)))
  ]

  pub block_loop-steps :
      (insns : List ℕ) (pc : ℕ) (m : Machine B)
      → m.cpu.halted ≡ false
      → StillThere insns pc m
      → (block_loop io exec_cop1_format insns pc m).1
        ≡ steps (block_loop io exec_cop1_format insns pc m).0 m
  unfolding block_loop steps
  block_loop-steps insns pc m h (elsewhere _ _ _ n) = no_round insns pc m n
  block_loop-steps insns pc m h (interrupted _ _ _ e) = interrupt_round insns pc m h e
  block_loop-steps [] pc m h (ended _ _) = refl
  block_loop-steps (insn ∷ rest) pc m h (fetched _ _ _ _ here there) =
      elim (Bool-cases (excepted m.cpu.exception_count (service m.cpu))) [
        | inl e ↦ interrupt_round (insn ∷ rest) pc m h e
        | inr e ↦ elim (Bool-cases (m.cpu.pc == pc)) [
          | inr n ↦ no_round (insn ∷ rest) pc m n
          | inl q ↦
              (let stepped : step io exec_cop1_format m ≡ (ran insn m).1 =
                  step-ran insn m h e here in
                rw (service_in_block-service m.cpu) (elim (Bool-cases (ran insn m).0) [
                  | inl x ↦ rw (q, e, x) (sym stepped)
                  | inr x ↦ elim (Bool-cases (ran insn m).1.cpu.halted) [
                    | inl s ↦ rw (q, e, x, s) (sym stepped)
                    | inr s ↦
                        rw (q, e, x, s)
                          (block_loop-steps rest ((pc + 4) % 2 ^ 64) (ran insn m).1 s
                              (subst (StillThere rest ((pc + 4) % 2 ^ 64)) stepped there)
                            ∙ ap
                                (steps
                                  (block_loop io exec_cop1_format rest ((pc + 4) % 2 ^ 64)
                                    (ran insn m).1).0)
                                (sym stepped))
                  ]
                ]))
        ]
      ]

  -- On a machine that is not halted, executing a block of the cache leaves the state that as many
  -- single steps leave as it says it took, provided that memory still holds the block's
  -- instructions where those steps come to them.
  pub execute_block-steps :
      (block : BasicBlock) (m : Machine B)
      → m.cpu.halted ≡ false
      → StillThere block.insns block.start_pc m
      → (execute_block io exec_cop1_format block m).1
        ≡ steps (execute_block io exec_cop1_format block m).0 m
  unfolding execute_block
  execute_block-steps block m h t = block_loop-steps block.insns block.start_pc m h t

  block_loop-le :
      (insns : List ℕ) (pc : ℕ) (m : Machine B)
      → (block_loop io exec_cop1_format insns pc m).0 ≤ length insns
  unfolding block_loop
  block_loop-le [] pc m = omega arith
  block_loop-le (insn ∷ rest) pc m =
      let c = service_in_block m.cpu in
      let r =
        run_insn io exec_cop1_format insn c.pc c.branch_pending c.exception_count
          (with_cpu (enter c) m) in
      ground (arith, block_loop-le rest ((pc + 4) % 2 ^ 64) r.1)

  block_loop-pos :
      (insns : List ℕ) (pc : ℕ) (m : Machine B)
      → m.cpu.pc ≡ pc
      → 0 < length insns
      → 0 < (block_loop io exec_cop1_format insns pc m).0
  unfolding block_loop
  block_loop-pos [] pc m e h = h
  block_loop-pos (insn ∷ rest) pc m e h = ground arith

  -- A block takes at most as many cycles as it has instructions, and at least one if it is not
  -- empty and begins at the address that the machine has come to.
  pub execute_block-le :
      (block : BasicBlock) (m : Machine B)
      → let taken = (execute_block io exec_cop1_format block m).0 in
        (taken ≤ length block.insns)
        × (m.cpu.pc ≡ block.start_pc → 0 < length block.insns → 0 < taken)
  unfolding execute_block
  execute_block-le block m =
      (block_loop-le block.insns block.start_pc m, block_loop-pos block.insns block.start_pc m)
