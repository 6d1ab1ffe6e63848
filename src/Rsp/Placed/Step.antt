-- ===== src/Rsp/Placed/Step.antt =====
-- A step of the RSP keeps its place and the two copies of the data memory.
use emulador_n64emu.Base.{
  ℕ, ◌+◌, ◌-◌, ◌*◌, ◌==◌, leb, inl, inr, refl, sym, subst, Bool, Bool-cases, true, false, if_true,
  if_false,
}
use emulador_n64emu.Base.{no_more, ◌▷◌, switch-case}
use emulador_n64emu.Cpu.Word.{rt, rd}
use emulador_n64emu.Rsp.{Rsp, write_gpr, fetch}
use emulador_n64emu.Rsp.Machine.{RspMachine, RspInterface, with_rsp, push_mem_to_bus}
use emulador_n64emu.Rsp.Execute.{
  do_break, mfc0, sync_flags, mtc0, exec_cop0, exec_swl, exec_swr, execute, end_step, prepare,
  advance_pc, step,
}
use emulador_n64emu.Rsp.Placed.{IsAt, imem_addr-IsImemAddr, exec_alone-IsAt, write_gpr-IsAt}
use emulador_n64emu.Rsp.Placed.Store.{
  IsPlaced, IsPlaced-if, with_rsp-IsPlaced, store_byte-IsPlaced, store_half-IsPlaced,
  store_word-IsPlaced, exec_vector_memory-IsPlaced,
}

-- A write of a register of the RSP or of the RDP keeps the copies and the place.
pub record RspLaws {B : Type 0} (io : RspInterface B) : Type 0 where
  pub sp_write_keeps :
      (offset value : ℕ) (m : RspMachine B) → IsPlaced m → IsPlaced (io.sp_write offset value m)
  pub dp_write_keeps :
      (offset value : ℕ) (m : RspMachine B) → IsPlaced m → IsPlaced (io.dp_write offset value m)

module _ {B : Type 0} (io : RspInterface B) (laws : RspLaws io) where
  do_break-IsPlaced : (m : RspMachine B) → IsPlaced m → IsPlaced (do_break io m)
  unfolding do_break push_mem_to_bus
  do_break-IsPlaced m h = record {
    placed = record {
      same_dmem = refl;
      pc_fits = h.placed.pc_fits;
      next_fits = h.placed.next_fits;
      zero_register = h.placed.zero_register;
    };
  }

  mfc0-IsPlaced : (i : ℕ) (m : RspMachine B) → IsPlaced m → IsPlaced (mfc0 io i m)
  unfolding mfc0
  mfc0-IsPlaced i m h =
      let (old, bus) = io.sp_read_semaphore m.bus in
      let at = λ (v : ℕ). write_gpr-IsAt m.sp_dmem (rt i) v m.rsp h.placed in
      let w = λ (v : ℕ). with_rsp-IsPlaced io (write_gpr (rt i) v m.rsp) m (at v) in
      let sp = w (io.sp_read (rd i * 4) m.bus) in
      let dp = w (io.dp_read ((rd i - 8) * 4) m.bus) in
      IsPlaced-if io (rd i == 7) (record m { rsp = write_gpr (rt i) old m.rsp; bus = bus }) _
        (record { placed = at old })
        (IsPlaced-if io (leb (rd i) 7) _ _ sp (IsPlaced-if io (leb (rd i) 15) _ _ dp (w 0)))

  sync_flags-IsPlaced : (m : RspMachine B) → IsPlaced m → IsPlaced (sync_flags io m)
  unfolding sync_flags
  sync_flags-IsPlaced m h = record {
    placed = record {
      same_dmem = h.placed.same_dmem;
      pc_fits = h.placed.pc_fits;
      next_fits = h.placed.next_fits;
      zero_register = h.placed.zero_register;
    };
  }

  mtc0-IsPlaced : (i : ℕ) (m : RspMachine B) → IsPlaced m → IsPlaced (mtc0 io i m)
  unfolding mtc0
  mtc0-IsPlaced i m h =
      let written = laws.sp_write_keeps _ _ m h in
      IsPlaced-if io _ _ _ (IsPlaced-if io _ _ _ (sync_flags-IsPlaced _ written) written)
        (IsPlaced-if io _ _ m (laws.dp_write_keeps _ _ m h) h)

  execute-IsPlaced : (i : ℕ) (m : RspMachine B) → IsPlaced m → IsPlaced (execute io i m)
  unfolding execute exec_cop0 exec_swl exec_swr
  execute-IsPlaced i m h = IsPlaced-if io _ _ _ (do_break-IsPlaced m h) (
      switch-case IsPlaced _ _ _
        (IsPlaced-if io _ _ _ (mfc0-IsPlaced i m h) (IsPlaced-if io _ _ m (mtc0-IsPlaced i m h) h)
          ▷ store_byte-IsPlaced io _ _ m h
          ▷ store_half-IsPlaced io _ _ m h
          ▷ store_word-IsPlaced io _ _ m h
          ▷ store_word-IsPlaced io _ _ m h
          ▷ store_word-IsPlaced io _ _ m h
          ▷ exec_vector_memory-IsPlaced io i false m h
          ▷ exec_vector_memory-IsPlaced io i true m h
          ▷ no_more)
        (with_rsp-IsPlaced io _ m (exec_alone-IsAt m.sp_dmem i m.rsp h.placed)))

  end_step-IsAt : (d : ℕ → ℕ) (r : Rsp) → IsAt d r → IsAt d (end_step io r)
  unfolding end_step
  end_step-IsAt d r h = record {
    same_dmem = h.same_dmem;
    pc_fits = h.pc_fits;
    next_fits = h.next_fits;
    zero_register = refl;
  }

  prepare-IsAt : (d : ℕ → ℕ) (r : Rsp) → IsAt d r → IsAt d (prepare io r)
  unfolding prepare
  prepare-IsAt d r h = elim (Bool-cases r.branch_pending) [
    | inl e ↦ subst (IsAt d) (sym (if_true _ _ e)) (record {
      same_dmem = h.same_dmem;
      pc_fits = h.pc_fits;
      next_fits = h.next_fits;
      zero_register = h.zero_register;
    })
    | inr e ↦ subst (IsAt d) (sym (if_false _ _ e)) (record {
      same_dmem = h.same_dmem;
      pc_fits = h.pc_fits;
      next_fits = imem_addr-IsImemAddr (r.pc + 4);
      zero_register = h.zero_register;
    })
  ]

  advance_pc-IsAt :
      (d : ℕ → ℕ) (slot : Bool) (pc : ℕ) (r : Rsp) → IsAt d r → IsAt d (advance_pc io slot pc r)
  unfolding advance_pc
  advance_pc-IsAt d true pc r h = record {
    same_dmem = h.same_dmem;
    pc_fits = h.next_fits;
    next_fits = imem_addr-IsImemAddr (r.next_pc + 4);
    zero_register = h.zero_register;
  }
  advance_pc-IsAt d false pc r h = elim (Bool-cases r.branch_pending) [
    | inl e ↦ subst (IsAt d) (sym (if_true _ _ e)) (record {
      same_dmem = h.same_dmem;
      pc_fits = imem_addr-IsImemAddr (pc + 4);
      next_fits = h.next_fits;
      zero_register = h.zero_register;
    })
    | inr e ↦ subst (IsAt d) (sym (if_false _ _ e)) (record {
      same_dmem = h.same_dmem;
      pc_fits = h.next_fits;
      next_fits = imem_addr-IsImemAddr (r.next_pc + 4);
      zero_register = h.zero_register;
    })
  ]

  push-IsPlaced : (m : RspMachine B) → IsPlaced m → IsPlaced (push_mem_to_bus m)
  unfolding push_mem_to_bus
  push-IsPlaced m h = record {
    placed = record {
      same_dmem = refl;
      pc_fits = h.placed.pc_fits;
      next_fits = h.placed.next_fits;
      zero_register = h.placed.zero_register;
    };
  }

  idle-IsAt : (d : ℕ → ℕ) (r : Rsp) (n : ℕ) → IsAt d r → IsAt d (record r { cycles = n })
  idle-IsAt d r n h = record {
    same_dmem = h.same_dmem;
    pc_fits = h.pc_fits;
    next_fits = h.next_fits;
    zero_register = h.zero_register;
  }

  -- Where the writes of the registers of the RSP and of the RDP keep them, a step of the RSP keeps its
  -- two program counters aligned and inside of the instruction memory, register 0 at 0, and the bus's
  -- copy of the data memory equal to the RSP's.
  pub step-IsPlaced : (m : RspMachine B) → IsPlaced m → IsPlaced (step io m)
  unfolding step
  step-IsPlaced m h =
      let i = fetch m.rsp.pc m.rsp in
      let ready = with_rsp-IsPlaced io _ m (prepare-IsAt m.sp_dmem m.rsp h.placed) in
      let ran = execute io i (with_rsp (prepare io m.rsp) m) in
      let after = execute-IsPlaced i (with_rsp (prepare io m.rsp) m) ready in
      let ended = with_rsp-IsPlaced io _ ran (end_step-IsAt ran.sp_dmem ran.rsp after.placed) in
      let moved = advance_pc-IsAt ran.sp_dmem m.rsp.branch_pending m.rsp.pc ran.rsp after.placed in
      IsPlaced-if io m.rsp.halted _ _
        (with_rsp-IsPlaced io _ m (idle-IsAt m.sp_dmem m.rsp _ h.placed))
        (IsPlaced-if io ran.rsp.halted _ _ (push-IsPlaced _ ended)
          (with_rsp-IsPlaced io _ ran (end_step-IsAt ran.sp_dmem _ moved)))
