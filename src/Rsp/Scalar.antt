-- ===== src/Rsp/Scalar.antt =====
-- src/rcp/rsp/rsp.cpp: the instructions that change the RSP alone.
use emulador_n64emu.Base.{
  ℕ, ◌+◌, ◌-◌, ◌*◌, ◌/◌, ◌%◌, ◌^◌, bit_and, bit_or, bit_xor, ◌==◌, ltb, if◌then◌else◌, switch, Bool,
  not, ◌||◌, [], ◌∷◌,
}
use emulador_n64emu.Cpu.Op
use emulador_n64emu.Cpu.Fn
use emulador_n64emu.Cpu.Rt
use emulador_n64emu.Cpu.Word.{
  op, rs, rt, rd, sa, fn, imm, simm, target, is_negative, less_signed, shift_right_signed, sext,
}
use emulador_n64emu.Cpu.Unaligned.{left, right, merge}
use emulador_n64emu.Rsp.{
  Rsp, write_gpr, branch_abs, branch_rel, link, load_byte, load_half, load_word,
}
use emulador_n64emu.Rsp.Vector.Transfer.{exec_cop2}

-- The signed immediate as a word of 32 bits.
unfoldable pub simm32 : ℕ → ℕ
simm32 i = simm i % 2 ^ 32

abbrev pub low32 : ℕ → ℕ
low32 x = x % 2 ^ 32

-- `a < b` on signed words of 32 bits.
abbrev pub less_signed32 : ℕ → ℕ → Bool
less_signed32 a b = less_signed (sext 32 a) (sext 32 b)

-- `gpr_[rs(insn)] + simm(insn)`
unfoldable pub address : ℕ → Rsp → ℕ
address i r = low32 (r.gpr (rs i) + simm32 i)

unfoldable pub branch_if : Bool → ℕ → Rsp → Rsp
branch_if taken i r = if taken then branch_rel (simm32 i) r else r

-- The instructions of the function field but for BREAK.
unfoldable pub exec_special : ℕ → Rsp → Rsp
exec_special i r =
    let s = r.gpr (rs i) in
    let t = r.gpr (rt i) in
    let by = s % 32 in
    let write = λ (v : ℕ). write_gpr (rd i) v r in
    switch (fn i)
      ((Fn.sll, write (low32 (t * 2 ^ sa i)))
        ∷ (Fn.srl, write (t / 2 ^ sa i))
        ∷ (Fn.sra, write (shift_right_signed 32 t (sa i)))
        ∷ (Fn.sllv, write (low32 (t * 2 ^ by)))
        ∷ (Fn.srlv, write (t / 2 ^ by))
        ∷ (Fn.srav, write (shift_right_signed 32 t by))
        ∷ (Fn.jr, branch_abs s r)
        ∷ (Fn.jalr, branch_abs s (link (if rd i == 0 then 31 else rd i) r))
        ∷ (Fn.add, write (low32 (s + t)))
        ∷ (Fn.addu, write (low32 (s + t)))
        ∷ (Fn.sub, write (low32 (s + 2 ^ 32 - t)))
        ∷ (Fn.subu, write (low32 (s + 2 ^ 32 - t)))
        ∷ (Fn.and, write (bit_and s t))
        ∷ (Fn.or, write (bit_or s t))
        ∷ (Fn.xor, write (bit_xor s t))
        ∷ (Fn.nor, write (2 ^ 32 - 1 - bit_or s t))
        ∷ (Fn.slt, write (if less_signed32 s t then 1 else 0))
        ∷ (Fn.sltu, write (if ltb s t then 1 else 0))
        ∷ [])
      r

unfoldable pub exec_regimm : ℕ → Rsp → Rsp
exec_regimm i r =
    let neg = is_negative 32 (r.gpr (rs i)) in
    switch (rt i)
      ((Rt.bltz, branch_if neg i r)
        ∷ (Rt.bgez, branch_if (not neg) i r)
        ∷ (Rt.bltzal, branch_if neg i (link 31 r))
        ∷ (Rt.bgezal, branch_if (not neg) i (link 31 r))
        ∷ [])
      r

-- The branches and the operations with an immediate.
unfoldable pub exec_immediate : Rsp → ℕ → Rsp → Rsp
exec_immediate other i r =
    let s = r.gpr (rs i) in
    let t = r.gpr (rt i) in
    let write = λ (v : ℕ). write_gpr (rt i) v r in
    switch (op i)
      ((Op.j, branch_abs (target i * 4) r)
        ∷ (Op.jal, branch_abs (target i * 4) (link 31 r))
        ∷ (Op.beq, branch_if (s == t) i r)
        ∷ (Op.bne, branch_if (not (s == t)) i r)
        ∷ (Op.blez, branch_if (is_negative 32 s || s == 0) i r)
        ∷ (Op.bgtz, branch_if (not (is_negative 32 s || s == 0)) i r)
        ∷ (Op.addi, write (low32 (s + simm32 i)))
        ∷ (Op.addiu, write (low32 (s + simm32 i)))
        ∷ (Op.slti, write (if less_signed32 s (simm32 i) then 1 else 0))
        ∷ (Op.sltiu, write (if ltb s (simm32 i) then 1 else 0))
        ∷ (Op.andi, write (bit_and s (imm i)))
        ∷ (Op.ori, write (bit_or s (imm i)))
        ∷ (Op.xori, write (bit_xor s (imm i)))
        ∷ (Op.lui, write (imm i * 2 ^ 16))
        ∷ [])
      other

-- LWL and LWR: the register after the part of the aligned word.
unfoldable pub exec_lwl : ℕ → Rsp → Rsp
exec_lwl i r =
    let addr = address i r in
    let s = (3 - addr % 4) * 8 in
    let mem = load_word (addr / 4 * 4) r in
    write_gpr (rt i) (merge 32 (left 32 s 0xffff_ffff) (r.gpr (rt i)) (left 32 s mem)) r

unfoldable pub exec_lwr : ℕ → Rsp → Rsp
exec_lwr i r =
    let addr = address i r in
    let s = addr % 4 * 8 in
    let mem = load_word (addr / 4 * 4) r in
    write_gpr (rt i) (merge 32 (right s 0xffff_ffff) (r.gpr (rt i)) (right s mem)) r

unfoldable pub exec_load : Rsp → ℕ → Rsp → Rsp
exec_load other i r =
    let addr = address i r in
    let write = λ (v : ℕ). write_gpr (rt i) v r in
    switch (op i)
      ((Op.lb, write (low32 (sext 8 (load_byte addr r))))
        ∷ (Op.lh, write (low32 (sext 16 (load_half addr r))))
        ∷ (Op.lwl, exec_lwl i r)
        ∷ (Op.lw, write (load_word addr r))
        ∷ (Op.lbu, write (load_byte addr r))
        ∷ (Op.lhu, write (load_half addr r))
        ∷ (Op.lwr, exec_lwr i r)
        ∷ [])
      other

-- All that changes the RSP alone.
unfoldable pub exec_alone : ℕ → Rsp → Rsp
exec_alone i r =
    if op i == Op.special
    then exec_special i r
    else if op i == Op.regimm
    then exec_regimm i r
    else if op i == Op.cop2
    then exec_cop2 i r
    else exec_immediate (exec_load r i r) i r
