-- ===== src/Cpu/Execute.antt =====
-- src/cpu/cpu.cpp: `execute`, the instructions that the major opcode chooses. Each part of the
-- switch takes what the other parts do as its last case; those without memory come last.
pub mod Reservation
use emulador_n64emu.Base.{
  ℕ, zero, suc, ◌+◌, ◌-◌, ◌*◌, ◌/◌, ◌%◌, ◌^◌, ◌≤◌, ◌<◌, min, max, bit_and, bit_or, bit_xor, ◌==◌,
  ltb, leb, if◌then◌else◌, switch, ◌≡◌, ◌≢◌, ◌↔◌, ◌⊎◌, inl, inr, refl, sym, ap, ◌∙◌, subst, arith,
  Bool, Bool-cases, true, false, not, ◌&&◌, ◌||◌, Option, Option-cases, none, some, List, [], ◌∷◌,
  ◌++◌, map, length, get_or, set, replicate, ltb→lt, lt→ltb, leb→le, ==_iff, ==-ne, bit, has_bit,
  set_bit, clear_bit, low, ℕ_discrete, dec_lt, dec_le, update, if_true, if_false,
}
use emulador_n64emu.Cpu.Op
use emulador_n64emu.Cpu.{Cpu}
use emulador_n64emu.Cpu.Word.{
  op, rt, imm, target, simm, sext32, add64, less_signed, add_overflow_s32, add_overflow_s64,
}
use emulador_n64emu.Cpu.Gpr.{
  address, rs64, rt64, rs32, rt32, write_gpr, branch_abs, branch_if, branch_likely_if, link,
  reserved,
}
use emulador_n64emu.Cpu.Special.{exec_special, write_checked, write_checked32}
use emulador_n64emu.Cpu.Regimm.{exec_regimm}
use emulador_n64emu.Cpu.Control.{exec_cop0, exec_cop2, raise_unusable}
use emulador_n64emu.Cpu.Fpu.{
  exec_cop1, fpu_fr_mode, read_fpr_word, write_fpr_word, read_fpr_double, write_fpr_double,
  raise_fpu_unimplemented,
}
use emulador_n64emu.Cpu.Exception.{coprocessor_usable}
use emulador_n64emu.Cpu.Machine.{
  Machine, BusInterface, probe_read, probe_write, with_cpu, over, with_value, read_at, load_byte,
  load_half, load_word, load_double, store_byte, store_half, store_word, store_double,
}
use emulador_n64emu.Cpu.Unaligned.{
  exec_lwl, exec_lwr, exec_swl, exec_swr, exec_ldl, exec_ldr, exec_sdl, exec_sdr,
}

-- `(pc_ & ~0xFFFFFFF) | (target << 2)`
abbrev jump_target : ℕ → Cpu → ℕ
jump_target i c = c.pc / 2 ^ 28 * 2 ^ 28 + target i * 4

unfoldable pub exec_branch : Cpu → ℕ → Cpu → Cpu
exec_branch other i c =
    let equal = rs64 i c == rt64 i c in
    let positive = less_signed 0 (rs64 i c) in
    switch (op i)
      ((Op.j, branch_abs (jump_target i c) c)
        ∷ (Op.jal, branch_abs (jump_target i c) (link 31 c))
        ∷ (Op.beq, branch_if equal i c)
        ∷ (Op.bne, branch_if (not equal) i c)
        ∷ (Op.blez, branch_if (not positive) i c)
        ∷ (Op.bgtz, branch_if positive i c)
        ∷ (Op.beql, branch_likely_if equal i c)
        ∷ (Op.bnel, branch_likely_if (not equal) i c)
        ∷ (Op.blezl, branch_likely_if (not positive) i c)
        ∷ (Op.bgtzl, branch_likely_if positive i c)
        ∷ [])
      other

unfoldable pub exec_immediate : Cpu → ℕ → Cpu → Cpu
exec_immediate other i c =
    switch (op i)
      ((Op.addi, write_checked32 (add_overflow_s32 (rs32 i c) (simm i)) (rt i) c)
        ∷ (Op.addiu, write_gpr (rt i) (sext32 (rs32 i c + simm i)) c)
        ∷ (Op.slti, write_gpr (rt i) (if less_signed (rs64 i c) (simm i) then 1 else 0) c)
        ∷ (Op.sltiu, write_gpr (rt i) (if ltb (rs64 i c) (simm i) then 1 else 0) c)
        ∷ (Op.andi, write_gpr (rt i) (bit_and (rs64 i c) (imm i)) c)
        ∷ (Op.ori, write_gpr (rt i) (bit_or (rs64 i c) (imm i)) c)
        ∷ (Op.xori, write_gpr (rt i) (bit_xor (rs64 i c) (imm i)) c)
        ∷ (Op.lui, write_gpr (rt i) (sext32 (imm i * 2 ^ 16)) c)
        ∷ (Op.daddi, write_checked (add_overflow_s64 (rs64 i c) (simm i)) (rt i) c)
        ∷ (Op.daddiu, write_gpr (rt i) (add64 (rs64 i c) (simm i)) c)
        ∷ [])
      other

-- The instructions that do not use the bus. CACHE does nothing.
module _ (exec_cop1_format : ℕ → Cpu → Cpu) where
  unfoldable pub exec_registers : ℕ → Cpu → Cpu
  exec_registers i c =
      switch (op i)
        ((Op.special, exec_special i c)
          ∷ (Op.regimm, exec_regimm i c)
          ∷ (Op.cop0, exec_cop0 i c)
          ∷ (Op.cop1, exec_cop1 exec_cop1_format i c)
          ∷ (Op.cop2, exec_cop2 i c)
          ∷ (Op.cache, c)
          ∷ [])
        (exec_branch (exec_immediate (reserved c) i c) i c)

module _ {B : Type 0} (io : BusInterface B) where
  unfoldable pub exec_load : Machine B → ℕ → Machine B → Machine B
  exec_load other i m =
      let addr = address i m.cpu in
      let write = with_value (write_gpr (rt i)) in
      switch (op i)
        ((Op.ldl, exec_ldl io i m)
          ∷ (Op.ldr, exec_ldr io i m)
          ∷ (Op.lb, write (load_byte io addr true m))
          ∷ (Op.lh, write (load_half io addr true m))
          ∷ (Op.lwl, exec_lwl io i m)
          ∷ (Op.lw, write (load_word io addr true m))
          ∷ (Op.lbu, write (load_byte io addr false m))
          ∷ (Op.lhu, write (load_half io addr false m))
          ∷ (Op.lwr, exec_lwr io i m)
          ∷ (Op.lwu, write (load_word io addr false m))
          ∷ (Op.ld, write (load_double io addr m))
          ∷ [])
        other

  unfoldable pub exec_store : Machine B → ℕ → Machine B → Machine B
  exec_store other i m =
      let addr = address i m.cpu in
      let v = rt64 i m.cpu in
      switch (op i)
        ((Op.sb, store_byte io addr (v % 2 ^ 8) m)
          ∷ (Op.sh, store_half io addr (v % 2 ^ 16) m)
          ∷ (Op.swl, exec_swl io i m)
          ∷ (Op.sw, store_word io addr (rt32 i m.cpu) m)
          ∷ (Op.sdl, exec_sdl io i m)
          ∷ (Op.sdr, exec_sdr io i m)
          ∷ (Op.swr, exec_swr io i m)
          ∷ (Op.sd, store_double io addr v m)
          ∷ [])
        other

module _ {B : Type 0} where
  -- A load that keeps the physical address as reserved.
  unfoldable pub load_linked :
      (ℕ → Machine B → ℕ × Machine B) → ℕ → (ℕ → ℕ) → ℕ → Machine B → Machine B
  load_linked read size extend i m =
      let probed = probe_read (address i m.cpu) size m.cpu in
      with_value
        (λ v c. record (write_gpr (rt i) (extend v) c) {
          ll_bit = true;
          ll_addr = elim probed.0 [ none ↦ c.ll_addr | some p ↦ p ];
        })
        (read_at read probed m)

  -- The write of a conditional store, and 1 or 0 in the register.
  unfoldable pub store_reserved :
      (ℕ → ℕ → Machine B → Machine B) → Bool → ℕ → ℕ → ℕ → Option ℕ × Cpu → Machine B → Machine B
  store_reserved write had_reservation reserved_addr t v (none, c) m = with_cpu c m
  store_reserved write had_reservation reserved_addr t v (some p, c) m =
      if had_reservation && (p == reserved_addr)
      then over (write_gpr t 1) (write p v (with_cpu c m))
      else with_cpu (write_gpr t 0 c) m

  -- The reservation is lost whether the store succeeds or not.
  unfoldable pub store_conditional :
      (ℕ → ℕ → Machine B → Machine B) → ℕ → ℕ → ℕ → Machine B → Machine B
  store_conditional write size v i m =
      let c = record (m.cpu) { ll_bit = false } in
      store_reserved write m.cpu.ll_bit m.cpu.ll_addr (rt i) v
        (probe_write (address i m.cpu) size c) m

-- `(void)write_fpr_double(…)`
unfoldable pub set_fpr_double : ℕ → ℕ → Cpu → Cpu
set_fpr_double t v c = elim (write_fpr_double t v c) [ none ↦ c | some c' ↦ c' ]

module _ {B : Type 0} (io : BusInterface B) where
  unfoldable pub exec_linked : Machine B → ℕ → Machine B → Machine B
  exec_linked other i m =
      switch (op i)
        ((Op.ll, load_linked io.read32 4 sext32 i m)
          ∷ (Op.lld, load_linked io.read64 8 (λ v. v) i m)
          ∷ (Op.sc, store_conditional io.write32 4 (rt32 i m.cpu) i m)
          ∷ (Op.scd, store_conditional io.write64 8 (rt64 i m.cpu) i m)
          ∷ [])
        other

  unfoldable pub store_fpr_double : Option ℕ → ℕ → Machine B → Machine B
  store_fpr_double none addr m = over raise_fpu_unimplemented m
  store_fpr_double (some v) addr m = store_double io addr v m

  unfoldable pub exec_lwc1 : ℕ → Machine B → Machine B
  exec_lwc1 i m =
      if not (coprocessor_usable 1 m.cpu)
      then over (raise_unusable 1) m
      else with_value (write_fpr_word (rt i)) (load_word io (address i m.cpu) false m)

  unfoldable pub exec_ldc1 : ℕ → Machine B → Machine B
  exec_ldc1 i m =
      if not (coprocessor_usable 1 m.cpu)
      then over (raise_unusable 1) m
      else if not (fpu_fr_mode m.cpu) && (rt i % 2 == 1)
      then over raise_fpu_unimplemented m
      else with_value (set_fpr_double (rt i)) (load_double io (address i m.cpu) m)

  unfoldable pub exec_swc1 : ℕ → Machine B → Machine B
  exec_swc1 i m =
      if not (coprocessor_usable 1 m.cpu)
      then over (raise_unusable 1) m
      else store_word io (address i m.cpu) (read_fpr_word (rt i) m.cpu) m

  unfoldable pub exec_sdc1 : ℕ → Machine B → Machine B
  exec_sdc1 i m =
      if not (coprocessor_usable 1 m.cpu)
      then over (raise_unusable 1) m
      else store_fpr_double (read_fpr_double (rt i) m.cpu) (address i m.cpu) m

  unfoldable pub exec_fpu_memory : Machine B → ℕ → Machine B → Machine B
  exec_fpu_memory other i m =
      switch (op i)
        ((Op.lwc1, exec_lwc1 i m)
          ∷ (Op.ldc1, exec_ldc1 i m)
          ∷ (Op.swc1, exec_swc1 i m)
          ∷ (Op.sdc1, exec_sdc1 i m)
          ∷ [])
        other

  module _ (exec_cop1_format : ℕ → Cpu → Cpu) where
    unfoldable pub execute : ℕ → Machine B → Machine B
    execute i m =
        let rest = over (exec_registers exec_cop1_format i) m in
        exec_load io (exec_store io (exec_linked (exec_fpu_memory rest i m) i m) i m) i m
