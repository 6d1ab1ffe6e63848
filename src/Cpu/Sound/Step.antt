-- ===== src/Cpu/Sound/Step.antt =====
-- A step of the CPU keeps the widths, and `reset` establishes them.
use emulador_n64emu.Base.{
  ℕ, ◌+◌, ◌%◌, ◌^◌, if◌then◌else◌, refl, arith, Bool, true, false, Option, none, some, update,
}
use emulador_n64emu.Cpu.{Cpu, reset}
use emulador_n64emu.Cpu.Machine.{Machine, BusInterface, fetch, over}
use emulador_n64emu.Cpu.Execute.{execute}
use emulador_n64emu.Cpu.Step.{
  end_step, excepted, advance_pc, prepare, service, run_insn, fetch_and_run, step, enter,
}
use emulador_n64emu.Cpu.Sound.{IsTlb, IsSound, IsSound-if, set_general, update-IsWords}
use emulador_n64emu.Cpu.Sound.Cop0.{check_interrupts-IsSound, advance_count-IsSound}
use emulador_n64emu.Cpu.Sound.Memory.{IsWordBus, IsRead, read_at-IsRead, probe-IsSound}
use emulador_n64emu.Cpu.Sound.Access.{IsSoundMachine, IsSoundMachine-if}
use emulador_n64emu.Cpu.Sound.Execute.{execute-IsSound}

-- The CPU is sound after a reset.
pub reset-IsSound : (c : Cpu) → IsSound (reset c)
unfolding reset IsTlb
reset-IsSound c = record {
  sized = record {
    zero_register = refl;
    general = λ i. omega arith;
    high = omega arith;
    low_word = omega arith;
    floating = λ i. omega arith;
    control = λ i. ground arith;
    entries = omega arith;
    size = refl;
  };
}

end_step-IsSound : (c : Cpu) → IsSound c → IsSound (end_step c)
unfolding end_step
end_step-IsSound c s =
    let zeroed : IsSound (record c { gpr = update c.gpr 0 0 }) = record {
      sized =
          set_general s.sized _ refl (update-IsWords 64 c.gpr 0 0 s.sized.general (omega arith));
    } in
    record { sized = (advance_count-IsSound _ zeroed).sized }

moved-IsSound :
    (c : Cpu)
    → IsSound c
    → (pc next_pc : ℕ) (branch_pending : Bool)
    → IsSound (record c { pc = pc; next_pc = next_pc; branch_pending = branch_pending })
moved-IsSound c s pc next_pc branch_pending = record { sized = s.sized }

advance_pc-IsSound :
    (insn_pc : ℕ) (delay_slot : Bool) (c : Cpu)
    → IsSound c
    → IsSound (advance_pc insn_pc delay_slot c)
unfolding advance_pc
advance_pc-IsSound insn_pc delay_slot c s =
    let after = (c.next_pc + 4) % 2 ^ 64 in
    IsSound-if _ _ _ (moved-IsSound c s c.next_pc after false) (
      IsSound-if _ _ _ (moved-IsSound c s ((insn_pc + 4) % 2 ^ 64) c.next_pc c.branch_pending)
        (moved-IsSound c s c.next_pc after c.branch_pending))

prepare-IsSound :
    (insn_pc : ℕ) (delay_slot : Bool) (c : Cpu) → IsSound c → IsSound (prepare insn_pc delay_slot c)
unfolding prepare
prepare-IsSound insn_pc delay_slot c s =
    IsSound-if _ c _ s (moved-IsSound c s c.pc ((insn_pc + 4) % 2 ^ 64) false)

service-IsSound : (c : Cpu) → IsSound c → IsSound (service c)
unfolding service
service-IsSound c s = IsSound-if _ c _ s (check_interrupts-IsSound c s)

either_way :
    {B : Type 0} (b : Bool) (x y : Bool × Machine B)
    → IsSoundMachine x.1
    → IsSoundMachine y.1
    → IsSoundMachine (if b then x else y).1
either_way true x y s t = s
either_way false x y s t = t

module _ {B : Type 0} (io : BusInterface B) (words : IsWordBus io)
    (exec_cop1_format : ℕ → Cpu → Cpu)
    (format_sound : (i : ℕ) (c : Cpu) → IsSound c → IsSound (exec_cop1_format i c)) where
  fetch-IsSound : (vaddr : ℕ) (m : Machine B) → IsSound m.cpu → IsSound (fetch io vaddr m).1.cpu
  unfolding fetch
  fetch-IsSound vaddr m s =
      let read = read_at-IsRead 32 _ _ m words.reads32 (probe-IsSound false vaddr 4 m.cpu s) in
      is_read _ read
    where
      is_read : (r : Option ℕ × Machine B) → IsRead 32 r → IsSound r.1.cpu
      is_read (none, m) h = h
      is_read (some v, m) h = h.1

  run_insn-IsSound :
      (insn insn_pc : ℕ) (delay_slot : Bool) (before : ℕ) (m : Machine B)
      → IsSound m.cpu
      → IsSoundMachine (run_insn io exec_cop1_format insn insn_pc delay_slot before m).1
  unfolding run_insn
  run_insn-IsSound insn insn_pc delay_slot before m s =
      let m' = execute io exec_cop1_format insn (over (prepare insn_pc delay_slot) m) in
      let ran : IsSoundMachine m' =
        execute-IsSound io words insn (over (prepare insn_pc delay_slot) m)
          (prepare-IsSound insn_pc delay_slot m.cpu s) exec_cop1_format format_sound in
      either_way (excepted before m'.cpu) _ _
        (record { registers = record { sized = (end_step-IsSound m'.cpu ran.registers).sized } })
        (record {
          registers =
              end_step-IsSound (advance_pc insn_pc delay_slot m'.cpu)
                (advance_pc-IsSound insn_pc delay_slot m'.cpu ran.registers);
        })

  fetch_and_run-IsSound :
      (m : Machine B) → IsSound m.cpu → IsSoundMachine (fetch_and_run io exec_cop1_format m)
  unfolding fetch_and_run
  fetch_and_run-IsSound m s =
      let fetched = fetch-IsSound m.cpu.pc (over enter m) (record { sized = s.sized }) in
      IsSoundMachine-if _ _ _ (record { registers = end_step-IsSound _ fetched })
        (run_insn-IsSound _ _ _ _ _ fetched)

  -- After a step of a sound CPU on a bus that delivers words, and where the arithmetic of the
  -- floating-point unit keeps the CPU sound, register 0 is 0 again, every register holds a word of
  -- its width, and the TLB has its 32 entries.
  pub step-IsSound : (m : Machine B) → IsSound m.cpu → IsSoundMachine (step io exec_cop1_format m)
  unfolding step
  step-IsSound m s =
      IsSoundMachine-if _ _ _ (record { registers = record { sized = s.sized } })
        (IsSoundMachine-if _ _ _
          (record { registers = end_step-IsSound _ (service-IsSound m.cpu s) })
          (fetch_and_run-IsSound _ (service-IsSound m.cpu s)))
