-- ===== src/Cpu.antt =====
-- src/cpu/cpu.cpp, include/n64/cpu/cpu.hpp: the state of the VR4300 interpreter.
pub mod Cop0Reg
pub mod ExcCode
pub mod Tlb
pub mod Exception
pub mod Cop0
pub mod Op
pub mod Fn
pub mod Rt
pub mod Word
pub mod Gpr
pub mod Special
pub mod Regimm
pub mod Control
pub mod Fpu
pub mod Machine
pub mod Unaligned
pub mod Execute
pub mod Step
pub mod Run
pub mod Sound
mod Tests
use emulador_n64emu.Base.{
  ℕ, ◌+◌, ◌-◌, ◌*◌, ◌/◌, ◌%◌, ◌^◌, ◌==◌, ◌≤◌, if◌then◌else◌, Bool, true, false, List, replicate,
  arith,
}
use Cop0Reg.{random, status, prid, config}
use emulador_n64emu.BlockCache.{BlockCache}

pub record TlbEntry : Type 0 where
  pub page_mask : ℕ
  pub entry_hi : ℕ
  pub entry_lo0 : ℕ
  pub entry_lo1 : ℕ

-- `gpr`, `fpr` and `cop0` hold register `i` at `i`; `tlb` has 32 entries. `cache` is the block cache
-- that `block_cache_` points to.
pub record Cpu : Type 0 where
  pub gpr : ℕ → ℕ
  pub cop0 : ℕ → ℕ
  pub tlb : List TlbEntry
  pub pc : ℕ
  pub next_pc : ℕ
  pub hi : ℕ
  pub lo : ℕ
  pub fpr : ℕ → ℕ
  pub fcr31 : ℕ
  pub cycles : ℕ
  pub halted : Bool
  pub in_delay_slot : Bool
  pub branch_pending : Bool
  pub ll_bit : Bool
  pub ll_addr : ℕ
  pub exception_count : ℕ
  pub unknown_opcode_count : ℕ
  pub cache : BlockCache
  pub block_cache_enabled : Bool

-- The `w` bits of `x` from bit `lo` on, and `x` with those bits replaced by the low bits of `v`:
-- `(x >> lo) & m` and `(x & ~(m << lo)) | ((v & m) << lo)`, for `m` of `w` ones.
abbrev pub get_field : ℕ → ℕ → ℕ → ℕ
get_field lo w x = x / 2 ^ lo % 2 ^ w

abbrev pub put_field : ℕ → ℕ → ℕ → ℕ → ℕ
put_field lo w v x = x / 2 ^ (lo + w) * 2 ^ (lo + w) + v % 2 ^ w * 2 ^ lo + x % 2 ^ lo

abbrev pub no_entry : TlbEntry
no_entry = record { page_mask = 0; entry_hi = 0; entry_lo0 = 0; entry_lo1 = 0 }

-- The register file of COP0 after `reset`: Random, Status, PRId and Config; the rest is 0.
abbrev reset_cop0 : ℕ → ℕ
reset_cop0 i =
    if i == random
    then 31
    else if i == status
    then 0x3400_0000
    else if i == prid
    then 0x0000_0b22
    else if i == config
    then 0x7006_e463
    else 0

unfoldable pub reset : Cpu → Cpu
reset c = record c {
  gpr = λ _. 0;
  fpr = λ _. 0;
  cop0 = reset_cop0;
  tlb = replicate 32 no_entry;
  pc = 0xbfc0_0000;
  next_pc = 0xbfc0_0004;
  hi = 0;
  lo = 0;
  fcr31 = 0;
  cycles = 0;
  halted = false;
  in_delay_slot = false;
  branch_pending = false;
  ll_bit = false;
  ll_addr = 0;
  exception_count = 0;
  unknown_opcode_count = 0;
}

-- `(sr & SR_EXL) != 0` and the like.
abbrev pub status_ie : ℕ → Bool
status_ie sr = get_field 0 1 sr == 1

abbrev pub status_exl : ℕ → Bool
status_exl sr = get_field 1 1 sr == 1

abbrev pub status_erl : ℕ → Bool
status_erl sr = get_field 2 1 sr == 1

abbrev pub status_bev : ℕ → Bool
status_bev sr = get_field 22 1 sr == 1
