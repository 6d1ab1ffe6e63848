-- ===== src/Cpu/Sound/Memory.antt =====
-- Loads, stores, single steps, blocks and `run` keep the widths, if the bus does.
use emulador_n64emu.Base.{
  ℕ, ◌%◌, ◌^◌, ◌<◌, ◌==◌, inl, inr, sym, subst, Bool, Bool-cases, false, not, Option, none, some,
  if_true, if_false,
}
use emulador_n64emu.Cpu.{Cpu}
use emulador_n64emu.Cpu.Machine.{
  Machine, BusInterface, probe, with_cpu, read_at, write_at, with_value, extend,
}
use emulador_n64emu.Cpu.Sound.{IsSound}
use emulador_n64emu.Cpu.Sound.Cop0.{raise_exception-IsSound, translate_or_raise-IsSound}

-- A read of `w` bits gives a word of `w` bits, and leaves the registers sound.
abbrev pub ReadsWords : {B : Type 0} → ℕ → (ℕ → Machine B → ℕ × Machine B) → Type 0
ReadsWords {B} w read =
    (p : ℕ) (m : Machine B) → IsSound m.cpu → ((read p m).0 < 2 ^ w) × IsSound (read p m).1.cpu

abbrev pub WritesSound : {B : Type 0} → (ℕ → ℕ → Machine B → Machine B) → Type 0
WritesSound {B} write = (p v : ℕ) (m : Machine B) → IsSound m.cpu → IsSound (write p v m).cpu

-- What the widths need of the bus.
pub record IsWordBus {B : Type 0} (io : BusInterface B) : Type 0 where
  pub reads8 : ReadsWords 8 io.read8
  pub reads16 : ReadsWords 16 io.read16
  pub reads32 : ReadsWords 32 io.read32
  pub reads64 : ReadsWords 64 io.read64
  pub writes8 : WritesSound io.write8
  pub writes16 : WritesSound io.write16
  pub writes32 : WritesSound io.write32
  pub writes64 : WritesSound io.write64

pub probe-IsSound :
    (is_store : Bool) (vaddr size : ℕ) (c : Cpu)
    → IsSound c
    → IsSound (probe is_store vaddr size c).1
unfolding probe
probe-IsSound is_store vaddr size c s = elim (Bool-cases (not (vaddr % size == 0))) [
  | inl e ↦
      subst (λ (r : Option ℕ × Cpu). IsSound r.1) (sym (if_true _ _ e))
        (raise_exception-IsSound _ vaddr 0 false c s)
  | inr e ↦
      subst (λ (r : Option ℕ × Cpu). IsSound r.1) (sym (if_false _ _ e))
        (translate_or_raise-IsSound vaddr vaddr is_store c s)
]

module _ {B : Type 0} where
  -- A value that was read is a word, and the registers are sound.
  abbrev pub IsRead : ℕ → Option ℕ × Machine B → Type 0
  IsRead w (none, m) = IsSound m.cpu
  IsRead w (some v, m) = (v < 2 ^ w) × IsSound m.cpu

  pub read_at-IsRead :
      (w : ℕ) (read : ℕ → Machine B → ℕ × Machine B) (probed : Option ℕ × Cpu) (m : Machine B)
      → ReadsWords w read
      → IsSound probed.1
      → IsRead w (read_at read probed m)
  unfolding read_at
  read_at-IsRead w read (none, c) m h s = s
  read_at-IsRead w read (some p, c) m h s = h p (with_cpu c m) s

  pub write_at-IsSound :
      (write : ℕ → ℕ → Machine B → Machine B) (probed : Option ℕ × Cpu) (v : ℕ) (m : Machine B)
      → WritesSound write
      → IsSound probed.1
      → IsSound (write_at write probed v m).cpu
  unfolding write_at
  write_at-IsSound write (none, c) v m h s = s
  write_at-IsSound write (some p, c) v m h s = record { sized = (h p v (with_cpu c m) s).sized }

  pub with_value-IsSound :
      (w : ℕ) (f : ℕ → Cpu → Cpu) (r : Option ℕ × Machine B)
      → ((v : ℕ) (c : Cpu) → v < 2 ^ w → IsSound c → IsSound (f v c))
      → IsRead w r
      → IsSound (with_value f r).cpu
  unfolding with_value
  with_value-IsSound w f (none, m) h s = s
  with_value-IsSound w f (some v, m) h (p, s) = h v m.cpu p s

  pub extend-IsRead :
      (w w' : ℕ) (f : ℕ → ℕ) (r : Option ℕ × Machine B)
      → ((v : ℕ) → v < 2 ^ w → f v < 2 ^ w')
      → IsRead w r
      → IsRead w' (extend f r)
  unfolding extend
  extend-IsRead w w' f (none, m) h s = s
  extend-IsRead w w' f (some v, m) h (p, s) = (h v p, s)
