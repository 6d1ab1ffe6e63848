-- ===== src/Cpu/Machine.antt =====
-- src/cpu/cpu.cpp: the CPU and the bus it is connected to, and the reads and writes of an
-- instruction: `fetch`, `probe_read`, `probe_write`, `load_…` and `store_…`.
use emulador_n64emu.Base.{ℕ, ◌%◌, ◌==◌, if◌then◌else◌, Bool, true, false, not, Option, none, some}
use emulador_n64emu.Cpu.{Cpu}
use emulador_n64emu.Cpu.Word.{sext8, sext16, sext32}
use emulador_n64emu.Cpu.ExcCode.{adel, ades}
use emulador_n64emu.Cpu.Exception.{raise_exception}
use emulador_n64emu.Cpu.Tlb.{translate_or_raise}

-- `B` is the state of everything behind the bus.
pub record Machine (B : Type 0) : Type 0 where
  pub cpu : Cpu
  pub bus : B

-- What the CPU calls of the bus. An access may change the CPU as well: a write invalidates blocks
-- of the cache, and a device's register moves the interrupt line.
pub record BusInterface (B : Type 0) : Type 0 where
  pub read8 : ℕ → Machine B → ℕ × Machine B
  pub read16 : ℕ → Machine B → ℕ × Machine B
  pub read32 : ℕ → Machine B → ℕ × Machine B
  pub read64 : ℕ → Machine B → ℕ × Machine B
  pub write8 : ℕ → ℕ → Machine B → Machine B
  pub write16 : ℕ → ℕ → Machine B → Machine B
  pub write32 : ℕ → ℕ → Machine B → Machine B
  pub write64 : ℕ → ℕ → Machine B → Machine B
  pub read32_const : ℕ → B → ℕ

-- `vaddr` is not a multiple of `size`, or its translation.
unfoldable pub probe : Bool → ℕ → ℕ → Cpu → Option ℕ × Cpu
probe is_store vaddr size c =
    if not (vaddr % size == 0)
    then (none, raise_exception (if is_store then ades else adel) vaddr 0 false c)
    else translate_or_raise vaddr vaddr is_store c

abbrev pub probe_read : ℕ → ℕ → Cpu → Option ℕ × Cpu
probe_read vaddr size c = probe false vaddr size c

abbrev pub probe_write : ℕ → ℕ → Cpu → Option ℕ × Cpu
probe_write vaddr size c = probe true vaddr size c

module _ {B : Type 0} where
  abbrev pub with_cpu : Cpu → Machine B → Machine B
  with_cpu c m = record m { cpu = c }

  abbrev pub over : (Cpu → Cpu) → Machine B → Machine B
  over f m = record m { cpu = f m.cpu }

  -- The access after a probe: none, or that of the physical address.
  unfoldable pub read_at :
      (ℕ → Machine B → ℕ × Machine B) → Option ℕ × Cpu → Machine B → Option ℕ × Machine B
  read_at read (none, c) m = (none, with_cpu c m)
  read_at read (some p, c) m = let r = read p (with_cpu c m) in (some r.0, r.1)

  unfoldable pub write_at :
      (ℕ → ℕ → Machine B → Machine B) → Option ℕ × Cpu → ℕ → Machine B → Machine B
  write_at write (none, c) v m = with_cpu c m
  write_at write (some p, c) v m =
      over (λ c. record c { ll_bit = false }) (write p v (with_cpu c m))

  -- `if (load_…(…, value)) …`
  unfoldable pub with_value : (ℕ → Cpu → Cpu) → Option ℕ × Machine B → Machine B
  with_value f (none, m) = m
  with_value f (some v, m) = over (f v) m

  -- A value sign-extended, or as it is.
  unfoldable pub extend : (ℕ → ℕ) → Option ℕ × Machine B → Option ℕ × Machine B
  extend f (none, m) = (none, m)
  extend f (some v, m) = (some (f v), m)

module _ {B : Type 0} (io : BusInterface B) where
  unfoldable pub fetch : ℕ → Machine B → ℕ × Machine B
  fetch vaddr m =
      let r = read_at io.read32 (probe_read vaddr 4 m.cpu) m in
      (elim r.0 [ none ↦ 0 | some insn ↦ insn ], r.1)

  unfoldable pub load_byte : ℕ → Bool → Machine B → Option ℕ × Machine B
  load_byte vaddr sign_extend m =
      extend (λ v. if sign_extend then sext8 v else v)
        (read_at io.read8 (probe_read vaddr 1 m.cpu) m)

  unfoldable pub load_half : ℕ → Bool → Machine B → Option ℕ × Machine B
  load_half vaddr sign_extend m =
      extend (λ v. if sign_extend then sext16 v else v)
        (read_at io.read16 (probe_read vaddr 2 m.cpu) m)

  unfoldable pub load_word : ℕ → Bool → Machine B → Option ℕ × Machine B
  load_word vaddr sign_extend m =
      extend (λ v. if sign_extend then sext32 v else v)
        (read_at io.read32 (probe_read vaddr 4 m.cpu) m)

  unfoldable pub load_double : ℕ → Machine B → Option ℕ × Machine B
  load_double vaddr m = read_at io.read64 (probe_read vaddr 8 m.cpu) m

  unfoldable pub store_byte : ℕ → ℕ → Machine B → Machine B
  store_byte vaddr v m = write_at io.write8 (probe_write vaddr 1 m.cpu) v m

  unfoldable pub store_half : ℕ → ℕ → Machine B → Machine B
  store_half vaddr v m = write_at io.write16 (probe_write vaddr 2 m.cpu) v m

  unfoldable pub store_word : ℕ → ℕ → Machine B → Machine B
  store_word vaddr v m = write_at io.write32 (probe_write vaddr 4 m.cpu) v m

  unfoldable pub store_double : ℕ → ℕ → Machine B → Machine B
  store_double vaddr v m = write_at io.write64 (probe_write vaddr 8 m.cpu) v m
