-- ===== src/Cpu/Sound/Access.antt =====
-- The values that loads merge and the accesses of the bus are sound.
use emulador_n64emu.Base.{
  ℕ, ◌-◌, ◌^◌, ◌<◌, bit_and-lt, bit_or-lt, ◌==◌, if◌then◌else◌, arith, Bool, true, false, ◌&&◌,
  Option, none, some,
}
use emulador_n64emu.Cpu.{Cpu}
use emulador_n64emu.Cpu.Word.Size.{div-lt, sext32-lt}
use emulador_n64emu.Cpu.Gpr.{address}
use emulador_n64emu.Cpu.Tlb.{translate_or_raise}
use emulador_n64emu.Cpu.Machine.{Machine, BusInterface, probe, with_cpu, extend}
use emulador_n64emu.Cpu.Unaligned.{
  left, right, merge, lwl_result, lwr_result, ldl_result, ldr_result, modify_at,
}
use emulador_n64emu.Cpu.Execute.{store_reserved}
use emulador_n64emu.Cpu.Sound.{IsSound, if-lt}
use emulador_n64emu.Cpu.Sound.Cop0.{translate_or_raise-IsSound}
use emulador_n64emu.Cpu.Sound.Gpr.{write_gpr-IsSound}
use emulador_n64emu.Cpu.Sound.Memory.{ReadsWords, WritesSound, IsWordBus, probe-IsSound}

-- The value that a partial load merges is a word.
pub left-lt : (s x : ℕ) → left 64 s x < 2 ^ 64
unfolding left
left-lt s x = omega arith

pub right-lt : (s x : ℕ) → x < 2 ^ 64 → right s x < 2 ^ 64
unfolding right
right-lt s x h = div-lt x (2 ^ s) h

pub merge-lt :
    (mask old new : ℕ)
    → mask < 2 ^ 64
    → old < 2 ^ 64
    → new < 2 ^ 64
    → merge 64 mask old new < 2 ^ 64
unfolding merge
merge-lt mask old new h p q =
    bit_or-lt 64 _ _ (bit_and-lt 64 old (2 ^ 64 - 1 - mask) p (omega arith))
      (bit_and-lt 64 new mask q h)

pub ldl_result-lt : (n reg mem : ℕ) → reg < 2 ^ 64 → ldl_result n reg mem < 2 ^ 64
unfolding ldl_result
ldl_result-lt n reg mem h = merge-lt _ reg _ (left-lt _ _) h (left-lt _ mem)

pub ldr_result-lt : (n reg mem : ℕ) → reg < 2 ^ 64 → mem < 2 ^ 64 → ldr_result n reg mem < 2 ^ 64
unfolding ldr_result
ldr_result-lt n reg mem h q = merge-lt _ reg _ (right-lt _ _ (omega arith)) h (right-lt _ mem q)

pub lwl_result-lt : (n reg mem : ℕ) → lwl_result n reg mem < 2 ^ 64
unfolding lwl_result
lwl_result-lt n reg mem = sext32-lt _

pub lwr_result-lt : (n reg mem : ℕ) → lwr_result n reg mem < 2 ^ 64
unfolding lwr_result
lwr_result-lt n reg mem = sext32-lt _

pub extended-lt :
    (extend : ℕ → ℕ) (w : ℕ) (sign_extend : Bool) (v : ℕ)
    → extend v < 2 ^ 64
    → v < 2 ^ 64
    → (if sign_extend then extend v else v) < 2 ^ 64
extended-lt extend w sign_extend v p q = if-lt (2 ^ 64) sign_extend (extend v) v p q

module _ {B : Type 0} where
  -- The registers of a machine are sound.
  pub record IsSoundMachine (m : Machine B) : Type 0 where
    pub registers : IsSound m.cpu

  pub IsSoundMachine-if :
      (b : Bool) (m n : Machine B)
      → IsSoundMachine m
      → IsSoundMachine n
      → IsSoundMachine (if b then m else n)
  IsSoundMachine-if true m n s t = s
  IsSoundMachine-if false m n s t = t

  pub machine_if :
      (b : Bool) (m n : Machine B)
      → IsSound m.cpu
      → IsSound n.cpu
      → IsSound (if b then m else n).cpu
  machine_if true m n s t = s
  machine_if false m n s t = t

  abbrev pub SoundMachine : Machine B → Type 0
  SoundMachine m = IsSound m.cpu

  pub modify_at-IsSound :
      (w : ℕ) (read : ℕ → Machine B → ℕ × Machine B) (write : ℕ → ℕ → Machine B → Machine B)
      (f : ℕ → ℕ) (probed : Option ℕ × Cpu) (m : Machine B)
      → ReadsWords w read
      → WritesSound write
      → IsSound probed.1
      → IsSound (modify_at read write f probed m).cpu
  unfolding modify_at
  modify_at-IsSound w read write f (none, c) m r k s = s
  modify_at-IsSound w read write f (some p, c) m r k s = record {
    sized = (k p _ _ (r p (with_cpu c m) s).1).sized;
  }

  pub store_reserved-IsSound :
      (write : ℕ → ℕ → Machine B → Machine B) (had_reservation : Bool) (reserved_addr t v : ℕ)
      (probed : Option ℕ × Cpu) (m : Machine B)
      → WritesSound write
      → IsSound probed.1
      → IsSound (store_reserved write had_reservation reserved_addr t v probed m).cpu
  unfolding store_reserved
  store_reserved-IsSound write had_reservation reserved_addr t v (none, c) m k s = s
  store_reserved-IsSound write had_reservation reserved_addr t v (some p, c) m k s =
      machine_if (had_reservation && (p == reserved_addr)) _ _
        (write_gpr-IsSound t 1 _ (omega arith) (k p v (with_cpu c m) s))
        (write_gpr-IsSound t 0 c (omega arith) s)

module _ {B : Type 0} (io : BusInterface B) (words : IsWordBus io) (i : ℕ) (m : Machine B)
    (s : IsSound m.cpu) where
  pub probed : (is_store : Bool) (vaddr size : ℕ) → IsSound (probe is_store vaddr size m.cpu).1
  probed is_store vaddr size = probe-IsSound is_store vaddr size m.cpu s

  abbrev pub addr : ℕ
  addr = address i m.cpu

  pub aligned :
      (is_store : Bool) (vaddr : ℕ) → IsSound (translate_or_raise vaddr addr is_store m.cpu).1
  aligned is_store vaddr = translate_or_raise-IsSound vaddr addr is_store m.cpu s
