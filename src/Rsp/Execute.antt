-- ===== src/Rsp/Execute.antt =====
-- src/rcp/rsp/rsp.cpp: BREAK, COP0 and the stores, `execute`, `step` and `run`.
pub mod Ending
use emulador_n64emu.Base.{
  ℕ, zero, suc, ◌+◌, ◌-◌, ◌*◌, ◌/◌, ◌%◌, ◌^◌, ◌==◌, leb, if◌then◌else◌, switch, Bool, true, false,
  ◌&&◌, [], ◌∷◌, has_bit, update,
}
use emulador_n64emu.Cpu.Op
use emulador_n64emu.Cpu.Fn
use emulador_n64emu.Cpu.Rt
use emulador_n64emu.Cpu.Word.{
  op, rs, rt, rd, sa, fn, imm, simm, target, is_negative, less_signed, shift_right_signed, sext,
}
use emulador_n64emu.Cpu.Unaligned.{left, right, merge}
use emulador_n64emu.Rsp.{
  Rsp, imem_addr, set_halted, set_intr_on_break, write_gpr, branch_abs, branch_rel, link, fetch,
  load_byte, load_half, load_word,
}
use emulador_n64emu.Rsp.Vector.Transfer.{exec_cop2}
use emulador_n64emu.Rsp.Machine.{
  RspMachine, RspInterface, with_rsp, push_mem_to_bus, store_byte, store_half, store_word,
}
use emulador_n64emu.Rsp.VectorMemory.{exec_vector_memory}
use emulador_n64emu.Rsp.Scalar.{
  simm32, low32, less_signed32, address, branch_if, exec_special, exec_regimm, exec_immediate,
  exec_lwl, exec_lwr, exec_load, exec_alone,
}

module _ {B : Type 0} (io : RspInterface B) where
  unfoldable pub do_break : RspMachine B → RspMachine B
  do_break m =
      let stopped =
        push_mem_to_bus
          (with_rsp (record m.rsp { broke = true; halted = true; branch_pending = false }) m) in
      record stopped { bus = io.notify_break m.rsp.intr_on_break stopped.bus }

  -- SP_MEM_ADDR to SP_SEMAPHORE are registers 0 to 7, DPC_START to DPC_TMEM 8 to 15.
  unfoldable pub mfc0 : ℕ → RspMachine B → RspMachine B
  mfc0 i m =
      let (old, bus) = io.sp_read_semaphore m.bus in
      let write = λ (v : ℕ). write_gpr (rt i) v m.rsp in
      if rd i == 7
      then record m { rsp = write old; bus = bus }
      else if leb (rd i) 7
      then with_rsp (write (io.sp_read (rd i * 4) m.bus)) m
      else if leb (rd i) 15
      then with_rsp (write (io.dp_read ((rd i - 8) * 4) m.bus)) m
      else with_rsp (write 0) m

  -- The local flags after a write of SP_STATUS.
  unfoldable pub sync_flags : RspMachine B → RspMachine B
  sync_flags m =
      let status = io.sp_status m.bus in
      with_rsp (record m.rsp { halted = has_bit 0 status; intr_on_break = has_bit 6 status }) m

  unfoldable pub mtc0 : ℕ → RspMachine B → RspMachine B
  mtc0 i m =
      let value = m.rsp.gpr (rt i) in
      let written = io.sp_write (rd i * 4) value m in
      if leb (rd i) 7
      then if rd i == 4 then sync_flags written else written
      else if leb (rd i) 15
      then io.dp_write ((rd i - 8) * 4) value m
      else m

  unfoldable pub exec_cop0 : ℕ → RspMachine B → RspMachine B
  exec_cop0 i m = if rs i == 0 then mfc0 i m else if rs i == 4 then mtc0 i m else m

  unfoldable pub exec_swl : ℕ → RspMachine B → RspMachine B
  exec_swl i m =
      let addr = address i m.rsp in
      let s = (3 - addr % 4) * 8 in
      let mem = load_word (addr / 4 * 4) m.rsp in
      store_word io (addr / 4 * 4)
        (merge 32 (left 32 s 0xffff_ffff) mem (right s (m.rsp.gpr (rt i)))) m

  unfoldable pub exec_swr : ℕ → RspMachine B → RspMachine B
  exec_swr i m =
      let addr = address i m.rsp in
      let s = addr % 4 * 8 in
      let mem = load_word (addr / 4 * 4) m.rsp in
      store_word io (addr / 4 * 4)
        (merge 32 (right s 0xffff_ffff) mem (left 32 s (m.rsp.gpr (rt i)))) m

  -- OP_LWC2 and OP_SWC2 are 0x32 and 0x3A.
  unfoldable pub execute : ℕ → RspMachine B → RspMachine B
  execute i m =
      let addr = address i m.rsp in
      let t = m.rsp.gpr (rt i) in
      if op i == Op.special && fn i == Fn.break
      then do_break m
      else switch (op i)
          ((Op.cop0, exec_cop0 i m)
            ∷ (Op.sb, store_byte io addr (t % 2 ^ 8) m)
            ∷ (Op.sh, store_half io addr (t % 2 ^ 16) m)
            ∷ (Op.swl, exec_swl i m)
            ∷ (Op.sw, store_word io addr t m)
            ∷ (Op.swr, exec_swr i m)
            ∷ (0x32, exec_vector_memory io i false m)
            ∷ (0x3a, exec_vector_memory io i true m)
            ∷ [])
          (with_rsp (exec_alone i m.rsp) m)

  -- `++cycles_; ++retired_;` with register 0 at 0.
  unfoldable pub end_step : Rsp → Rsp
  end_step r = record r {
    gpr = update r.gpr 0 0;
    cycles = (r.cycles + 1) % 2 ^ 64;
    retired = (r.retired + 1) % 2 ^ 64;
    in_delay_slot = false;
  }

  unfoldable pub prepare : Rsp → Rsp
  prepare r =
      let entered = record r { in_delay_slot = r.branch_pending } in
      if r.branch_pending
      then entered
      else record entered { next_pc = imem_addr (r.pc + 4); branch_pending = false }

  -- Where the program goes on after the instruction at `insn_pc`.
  unfoldable pub advance_pc : Bool → ℕ → Rsp → Rsp
  advance_pc delay_slot insn_pc r =
      if delay_slot
      then record r { pc = r.next_pc; next_pc = imem_addr (r.next_pc + 4); branch_pending = false }
      else if r.branch_pending
      then record r { pc = imem_addr (insn_pc + 4) }
      else record r { pc = r.next_pc; next_pc = imem_addr (r.next_pc + 4) }

  unfoldable pub step : RspMachine B → RspMachine B
  step m =
      let ran = execute (fetch m.rsp.pc m.rsp) (with_rsp (prepare m.rsp) m) in
      if m.rsp.halted
      then with_rsp (record m.rsp { cycles = (m.rsp.cycles + 1) % 2 ^ 64 }) m
      else if ran.rsp.halted
      then push_mem_to_bus (with_rsp (end_step ran.rsp) ran)
      else with_rsp (end_step (advance_pc m.rsp.branch_pending m.rsp.pc ran.rsp)) ran

  -- The loop of `run` with `left` steps to go; `n` is the number of those made.
  unfoldable pub run_loop : ℕ → ℕ → RspMachine B → ℕ × RspMachine B
  run_loop zero n m = (n, m)
  run_loop (suc left) n m =
      let rest = run_loop left (n + 1) (step m) in if m.rsp.halted then (n, m) else rest

  unfoldable pub run : ℕ → RspMachine B → ℕ × RspMachine B
  run max_steps m = run_loop max_steps 0 m
