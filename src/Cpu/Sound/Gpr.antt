-- ===== src/Cpu/Sound/Gpr.antt =====
-- The instructions without memory keep the widths.
use emulador_n64emu.Base.{
  ℕ, ◌+◌, ◌^◌, ◌<◌, ◌==◌, if◌then◌else◌, inl, inr, sym, subst, arith, Bool, Bool-cases, true, false,
  if_true, if_false,
}
use emulador_n64emu.Cpu.{Cpu}
use emulador_n64emu.Cpu.Word.{rs, rt, sext32}
use emulador_n64emu.Cpu.Word.Size.{sext32-lt, truncate-lt}
use emulador_n64emu.Cpu.Gpr.{
  rs64, rt64, write_gpr, branch_abs, branch_rel, link, skip_delay_slot, branch_if, branch_likely_if,
  raise, raise_if, reserved,
}
use emulador_n64emu.Cpu.Special.{write_checked, write_checked32}
use emulador_n64emu.Cpu.Sound.{IsSound, IsSound-if, update-IsWords, set_general}
use emulador_n64emu.Cpu.Sound.Cop0.{raise_exception-IsSound}

pub rs64-lt : (i : ℕ) (c : Cpu) → IsSound c → rs64 i c < 2 ^ 64
unfolding rs64
rs64-lt i c s = s.sized.general (rs i)

pub rt64-lt : (i : ℕ) (c : Cpu) → IsSound c → rt64 i c < 2 ^ 64
unfolding rt64
rt64-lt i c s = s.sized.general (rt i)

pub write_gpr-IsSound : (i v : ℕ) (c : Cpu) → v < 2 ^ 64 → IsSound c → IsSound (write_gpr i v c)
unfolding write_gpr
write_gpr-IsSound i v c h s = elim (Bool-cases (i == 0)) [
  | inl e ↦ subst IsSound (sym (if_true _ _ e)) s
  | inr e ↦ subst IsSound (sym (if_false _ _ e)) (record {
    sized =
        set_general s.sized _ (ground (arith, s.sized.zero_register))
          (update-IsWords 64 c.gpr i v s.sized.general h);
  })
]

pub branch_abs-IsSound : (t : ℕ) (c : Cpu) → IsSound c → IsSound (branch_abs t c)
unfolding branch_abs
branch_abs-IsSound t c s = record { sized = s.sized }

pub branch_rel-IsSound : (t : ℕ) (c : Cpu) → IsSound c → IsSound (branch_rel t c)
unfolding branch_rel
branch_rel-IsSound t c s = record { sized = s.sized }

pub skip_delay_slot-IsSound : (c : Cpu) → IsSound c → IsSound (skip_delay_slot c)
unfolding skip_delay_slot
skip_delay_slot-IsSound c s = record { sized = s.sized }

pub link-IsSound : (i : ℕ) (c : Cpu) → IsSound c → IsSound (link i c)
unfolding link
link-IsSound i c s = write_gpr-IsSound i _ c (truncate-lt (c.pc + 8)) s

pub branch_if-IsSound : (b : Bool) (i : ℕ) (c : Cpu) → IsSound c → IsSound (branch_if b i c)
unfolding branch_if
branch_if-IsSound b i c s = IsSound-if b _ _ (branch_rel-IsSound _ c s) (branch_abs-IsSound _ c s)

pub branch_likely_if-IsSound :
    (b : Bool) (i : ℕ) (c : Cpu) → IsSound c → IsSound (branch_likely_if b i c)
unfolding branch_likely_if
branch_likely_if-IsSound b i c s =
    IsSound-if b _ _ (branch_rel-IsSound _ c s) (skip_delay_slot-IsSound c s)

pub raise-IsSound : (code : ℕ) (c : Cpu) → IsSound c → IsSound (raise code c)
unfolding raise
raise-IsSound code c s = raise_exception-IsSound code 0 0 false c s

pub raise_if-IsSound : (b : Bool) (code : ℕ) (c : Cpu) → IsSound c → IsSound (raise_if b code c)
unfolding raise_if
raise_if-IsSound b code c s = IsSound-if b _ c (raise-IsSound code c s) s

pub reserved-IsSound : (c : Cpu) → IsSound c → IsSound (reserved c)
unfolding reserved
reserved-IsSound c s = raise-IsSound _ _ (record { sized = s.sized })

pub write_checked-IsSound :
    (r : Bool × ℕ) (d : ℕ) (c : Cpu) → r.1 < 2 ^ 64 → IsSound c → IsSound (write_checked r d c)
unfolding write_checked
write_checked-IsSound (overflow, v) d c h s =
    IsSound-if overflow _ _ (raise-IsSound _ c s) (write_gpr-IsSound d v c h s)

pub write_checked32-IsSound :
    (r : Bool × ℕ) (d : ℕ) (c : Cpu) → IsSound c → IsSound (write_checked32 r d c)
unfolding write_checked32
write_checked32-IsSound (overflow, v) d c s =
    write_checked-IsSound (overflow, sext32 v) d c (sext32-lt v) s

pub flag-lt : (b : Bool) → (if b then 1 else 0) < 2 ^ 64
flag-lt true = omega arith
flag-lt false = omega arith
