-- ===== src/Cpu/Run/Tests.antt =====
-- A CPU after a reset with a small memory on its bus.
use emulador_n64emu.Base.{
  ℕ, ◌/◌, ◌%◌, ◌^◌, ◌==◌, if◌then◌else◌, switch, ◌≡◌, refl, arith, true, false, [], ◌∷◌, update,
}
use emulador_n64emu.BlockCache.{empty_cache, BasicBlock}
use emulador_n64emu.Cpu.{Cpu, reset}
use emulador_n64emu.Cpu.Fn
use emulador_n64emu.Cpu.Word.{op, fn, rs, rt, simm, sext, sext32, mult_u64, mult_u64_portable}
use emulador_n64emu.Cpu.Word.Product.{mult_u64_portable_lem}
use emulador_n64emu.Cpu.Gpr.{rs32, write_gpr}
use emulador_n64emu.Cpu.Cop0.{advance_count}
use emulador_n64emu.Cpu.Exception.{check_interrupts}
use emulador_n64emu.Cpu.Tlb.{
  translate_or_raise, translate, translate_address, raise_translation_fault,
}
use emulador_n64emu.Cpu.Machine.{Machine, BusInterface, fetch, read_at, probe}
use emulador_n64emu.Cpu.Execute.{
  execute, exec_load, exec_store, exec_linked, exec_fpu_memory, exec_registers, exec_branch,
  exec_immediate,
}
use emulador_n64emu.Cpu.Execute.Reservation.{
  IsStore, IsConditional, sw, sc, execute-store-conditional,
}
use emulador_n64emu.Cpu.Special.{exec_special}
use emulador_n64emu.Cpu.Special.Trapping.{add, fits, result, checked, exec_special-overflow}
use emulador_n64emu.Cpu.Sound.{IsSound, set_general}
use emulador_n64emu.Cpu.Sound.Memory.{IsWordBus}
use emulador_n64emu.Cpu.Sound.Step.{reset-IsSound}
use emulador_n64emu.Cpu.Step.{
  service, service_in_block, end_step, advance_pc, prepare, run_insn, fetch_and_run, step,
  block_loop, execute_block,
}
use emulador_n64emu.Cpu.Step.Block.{StillThere, steps, ended, fetched, execute_block-steps}
use emulador_n64emu.Cpu.Run.{run}
use emulador_n64emu.Cpu.Run.Ending.{Ran, run-Ran}

abbrev idle : Cpu
idle = record {
  gpr = λ _. 0;
  cop0 = λ _. 0;
  tlb = [];
  pc = 0;
  next_pc = 0;
  hi = 0;
  lo = 0;
  fpr = λ _. 0;
  fcr31 = 0;
  cycles = 0;
  halted = false;
  in_delay_slot = false;
  branch_pending = false;
  ll_bit = false;
  ll_addr = 0;
  exception_count = 0;
  unknown_opcode_count = 0;
  cache = empty_cache;
  block_cache_enabled = true;
}

-- After a reset, at an address of KSEG0.
abbrev started : Cpu
started = record (reset idle) { pc = 0x8000_1000; next_pc = 0x8000_1004 }

started-IsSound : IsSound started
started-IsSound = record { sized = (reset-IsSound idle).sized }

-- Memory as words of 32 bits, and every other width cut from or put into such a word.
abbrev words_bus : BusInterface (ℕ → ℕ)
words_bus = record {
  read8 = λ p m. (m.bus (p / 4) % 2 ^ 8, m);
  read16 = λ p m. (m.bus (p / 4) % 2 ^ 16, m);
  read32 = λ p m. (m.bus (p / 4) % 2 ^ 32, m);
  read64 = λ p m. (m.bus (p / 4) % 2 ^ 64, m);
  write8 = λ p v m. record m { bus = update m.bus (p / 4) v };
  write16 = λ p v m. record m { bus = update m.bus (p / 4) v };
  write32 = λ p v m. record m { bus = update m.bus (p / 4) v };
  write64 = λ p v m. record m { bus = update m.bus (p / 4) v };
  read32_const = λ p b. b (p / 4) % 2 ^ 32;
}

words_bus-IsWordBus : IsWordBus words_bus
words_bus-IsWordBus = record {
  reads8 = λ p m s. (omega arith, s);
  reads16 = λ p m s. (omega arith, s);
  reads32 = λ p m s. (omega arith, s);
  reads64 = λ p m s. (omega arith, s);
  writes8 = λ p v m s. s;
  writes16 = λ p v m s. s;
  writes32 = λ p v m s. s;
  writes64 = λ p v m s. s;
}

-- ADDIU r1, r0, 5 and ADDIU r2, r1, 1.
abbrev program : ℕ → ℕ
program i = if i == 0x400 then 0x2401_0005 else if i == 0x401 then 0x2422_0001 else 0

abbrev machine : Machine (ℕ → ℕ)
machine = record { cpu = started; bus = program }

abbrev no_format : ℕ → Cpu → Cpu
no_format i c = c

abbrev two_words : BasicBlock
two_words = record {
  start_pc = 0x8000_1000;
  paddr = 0x1000;
  insns = 0x2401_0005 ∷ 0x2422_0001 ∷ [];
  ends_with_branch = false;
}

both_run : (execute_block words_bus no_format two_words machine).1.cpu.gpr 2 ≡ 6
unfolding reset execute_block block_loop run_insn execute exec_load exec_store exec_linked
    exec_fpu_memory exec_registers exec_branch exec_immediate write_gpr advance_count end_step
    advance_pc prepare switch op rs rt simm sext sext32 rs32 service_in_block
both_run = refl

still_there : StillThere words_bus no_format two_words.insns two_words.start_pc machine
unfolding reset service check_interrupts fetch read_at probe translate_or_raise translate
    translate_address raise_translation_fault step fetch_and_run run_insn execute exec_load
    exec_store exec_linked exec_fpu_memory exec_registers exec_branch exec_immediate write_gpr
    advance_count end_step advance_pc prepare switch op rs rt simm sext sext32 rs32
still_there =
    let second = step words_bus no_format machine in
    fetched 0x2401_0005 (0x2422_0001 ∷ []) 0x8000_1000 machine refl (
      fetched 0x2422_0001 [] 0x8000_1004 second refl
        (ended 0x8000_1008 (step words_bus no_format second)))

not_halted : machine.cpu.halted ≡ false
unfolding reset
not_halted = refl

execute_block_example :
    (execute_block words_bus no_format two_words machine).1
    ≡ steps words_bus no_format (execute_block words_bus no_format two_words machine).0 machine
execute_block_example =
    execute_block-steps words_bus no_format two_words machine not_halted still_there

run_example : Ran words_bus no_format 3 (run words_bus no_format 3 machine)
run_example = run-Ran words_bus no_format 3 machine

mult_u64_example :
    mult_u64_portable 0xffff_ffff_ffff_ffff 0x8000_0000_0000_0003
    ≡ mult_u64 0xffff_ffff_ffff_ffff 0x8000_0000_0000_0003
mult_u64_example =
    mult_u64_portable_lem 0xffff_ffff_ffff_ffff 0x8000_0000_0000_0003 (omega arith) (omega arith)

-- ADD r3, r1, r2 where the sum does not fit.
abbrev full : Cpu
full = record started { gpr = λ i. if i == 1 then 0x7fff_ffff else if i == 2 then 1 else 0 }

full-IsSound : IsSound full
full-IsSound = record {
  sized = set_general started-IsSound.sized full.gpr refl (λ i. ground arith);
}

is_add : fn 0x0022_1820 ≡ Fn.add
unfolding fn
is_add = refl

exec_special_example :
    exec_special 0x0022_1820 full
    ≡ checked (fits add 0x0022_1820 full) (result add 0x0022_1820 full) 0x0022_1820 full
exec_special_example = exec_special-overflow 0x0022_1820 full Fn.add add is_add full-IsSound

-- SW r1, 0x20(r0), then SC r1, 0x20(r0).
is_sw : IsStore (op 0xac01_0020)
unfolding op
is_sw = sw

is_sc : IsConditional (op 0xe001_0020)
unfolding op
is_sc = sc

execute-store_example :
    let after = execute words_bus no_format 0xac01_0020 machine in
    (execute words_bus no_format 0xe001_0020 after).bus ≡ after.bus
execute-store_example =
    execute-store-conditional words_bus no_format 0xac01_0020 0xe001_0020 machine is_sw is_sc
