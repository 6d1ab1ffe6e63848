-- ===== src/Cpu/Fpu.antt =====
-- src/cpu/cop1.cpp: the floating-point registers, the control register and the branches on its
-- condition. The arithmetic, which the host's floating-point unit does, is a parameter.
use emulador_n64emu.Base.{
  ℕ, ◌+◌, ◌*◌, ◌/◌, ◌%◌, ◌^◌, bit_and, bit_or, ◌==◌, leb, if◌then◌else◌, switch, Bool, true, false,
  not, ◌||◌, Option, none, some, [], ◌∷◌, update,
}
use emulador_n64emu.Cpu.{Cpu, get_field, put_field}
use emulador_n64emu.Cpu.Word.{rs, rt, rd, simm, sext32}
use emulador_n64emu.Cpu.Gpr.{rt64, write_gpr, branch_rel, branch_abs, skip_delay_slot, raise}
use emulador_n64emu.Cpu.Control.{raise_unusable}
use emulador_n64emu.Cpu.Cop0Reg.{status}
use emulador_n64emu.Cpu.ExcCode.{fpe}
use emulador_n64emu.Cpu.Exception.{coprocessor_usable}

unfoldable pub fpu_fr_mode : Cpu → Bool
fpu_fr_mode c = get_field 26 1 (c.cop0 status) == 1

unfoldable pub read_fpr_word : ℕ → Cpu → ℕ
read_fpr_word i c = c.fpr (i % 32) % 2 ^ 32

unfoldable pub write_fpr_word : ℕ → ℕ → Cpu → Cpu
write_fpr_word i v c = record c {
  fpr = update c.fpr (i % 32) (c.fpr (i % 32) / 2 ^ 32 * 2 ^ 32 + v);
}

-- Without FR a double is a pair of words, the even register low; an odd one is refused.
unfoldable pub read_fpr_double : ℕ → Cpu → Option ℕ
read_fpr_double i c =
    let index = i % 32 in
    if fpu_fr_mode c
    then some (c.fpr index)
    else if index % 2 == 1
    then none
    else some (read_fpr_word index c + read_fpr_word (index + 1) c * 2 ^ 32)

unfoldable pub write_fpr_double : ℕ → ℕ → Cpu → Option Cpu
write_fpr_double i v c =
    let index = i % 32 in
    if fpu_fr_mode c
    then some (record c { fpr = update c.fpr index v })
    else if index % 2 == 1
    then none
    else some (write_fpr_word (index + 1) (v / 2 ^ 32) (write_fpr_word index (v % 2 ^ 32) c))

-- Sets the cause field, and either raises the exception of an enabled flag or keeps the flags.
-- `flags` are bits 2 to 6.
unfoldable pub finish_fpu_operation : ℕ → Cpu → Bool × Cpu
finish_fpu_operation flags c =
    let raised = get_field 2 5 flags in
    let with_cause = put_field 12 6 raised c.fcr31 in
    if bit_and raised (get_field 7 5 with_cause) == 0
    then (true, record c { fcr31 = bit_or with_cause (raised * 4) })
    else (false, raise fpe (record c { fcr31 = with_cause }))

unfoldable pub raise_fpu_unimplemented : Cpu → Cpu
raise_fpu_unimplemented c = raise fpe (record c { fcr31 = put_field 12 6 0x20 c.fcr31 })

-- CTC1 to register 31: the exception of an enabled cause is raised at once.
unfoldable pub write_fcr31 : ℕ → Cpu → Cpu
write_fcr31 v c =
    let written = bit_and (v % 2 ^ 32) 0x0183_ffff in
    let c' = record c { fcr31 = written } in
    if get_field 17 1 written == 1
      || not (bit_and (get_field 12 5 written) (get_field 7 5 written) == 0)
    then raise fpe c'
    else c'

-- BC1F, BC1T, BC1FL and BC1TL.
unfoldable pub branch_on_condition : ℕ → Cpu → Cpu
branch_on_condition i c =
    let condition = get_field 23 1 c.fcr31 in
    if leb 4 (rt i)
    then raise_fpu_unimplemented c
    else if condition == rt i % 2
    then branch_rel (simm i) c
    else if rt i / 2 % 2 == 1
    then skip_delay_slot c
    else branch_abs ((c.pc + 8) % 2 ^ 64) c

-- CFC1: the implementation number, the control register, or 0.
unfoldable pub read_control : ℕ → Cpu → ℕ
read_control fs c = if fs == 31 then c.fcr31 else if fs == 0 then 0xb00 else 0

unfoldable pub move_from_double : Option ℕ → ℕ → Cpu → Cpu
move_from_double none t c = raise_fpu_unimplemented c
move_from_double (some v) t c = write_gpr t v c

unfoldable pub move_to_double : Option Cpu → Cpu → Cpu
move_to_double none c = raise_fpu_unimplemented c
move_to_double (some c') c = c'

-- `exec_cop1_format`
module _ (exec_cop1_format : ℕ → Cpu → Cpu) where
  unfoldable pub exec_cop1 : ℕ → Cpu → Cpu
  exec_cop1 i c =
      let fs = rd i in
      if not (coprocessor_usable 1 c)
      then raise_unusable 1 c
      else switch (rs i)
          ((0x00, write_gpr (rt i) (sext32 (read_fpr_word fs c)) c)
            ∷ (0x01, move_from_double (read_fpr_double fs c) (rt i) c)
            ∷ (0x02, write_gpr (rt i) (sext32 (read_control fs c)) c)
            ∷ (0x04, write_fpr_word fs (rt64 i c % 2 ^ 32) c)
            ∷ (0x05, move_to_double (write_fpr_double fs (rt64 i c) c) c)
            ∷ (0x06, if fs == 31 then write_fcr31 (rt64 i c) c else c)
            ∷ (0x08, branch_on_condition i c)
            ∷ (0x10, exec_cop1_format i c)
            ∷ (0x11, exec_cop1_format i c)
            ∷ (0x14, exec_cop1_format i c)
            ∷ (0x15, exec_cop1_format i c)
            ∷ [])
          (raise_fpu_unimplemented c)
