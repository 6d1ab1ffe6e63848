-- ===== src/Ri.antt =====
-- src/bus/ri.cpp, include/n64/bus/ri.hpp: the registers of the RDRAM interface.
pub mod Access
use emulador_n64emu.Base.{
  ℕ, zero, suc, ◌+◌, ◌-◌, ◌*◌, ◌/◌, ◌%◌, ◌^◌, ◌≤◌, ◌<◌, min, max, bit_and, bit_or, bit_xor, ◌==◌,
  ltb, leb, if◌then◌else◌, ◌≡◌, ◌≢◌, ◌↔◌, ◌⊎◌, inl, inr, refl, sym, ap, ◌∙◌, subst, arith, Bool,
  Bool-cases, true, false, not, ◌&&◌, ◌||◌, Option, Option-cases, none, some, List, [], ◌∷◌, ◌++◌,
  map, length, get_or, set, replicate, ltb→lt, lt→ltb, leb→le, ==_iff, ==-ne, bit, has_bit, set_bit,
  clear_bit, low, ℕ_discrete, dec_lt, dec_le, update, if_true, if_false,
}

pub record Ri : Type 0 where
  pub mode : ℕ
  pub config : ℕ
  pub current_load : ℕ
  pub select : ℕ
  pub refresh : ℕ
  pub latency : ℕ
  pub rerror : ℕ
  pub werror : ℕ

unfoldable pub reset : Ri → Ri
reset r = record {
  mode = 0x0e;
  config = 0x40;
  current_load = 0;
  select = 0x14;
  refresh = 0x0006_3624;
  latency = 0x15;
  rerror = 0;
  werror = 0;
}

-- `offset & 0x1C`
abbrev pub reg_of : ℕ → ℕ
reg_of offset = offset / 4 % 8 * 4

pub read : ℕ → Ri → ℕ
read offset r =
    if reg_of offset == 0x00
    then r.mode
    else if reg_of offset == 0x04
    then r.config
    else if reg_of offset == 0x08
    then r.current_load
    else if reg_of offset == 0x0c
    then r.select
    else if reg_of offset == 0x10
    then r.refresh
    else if reg_of offset == 0x14
    then r.latency
    else if reg_of offset == 0x18
    then r.rerror
    else r.werror

-- A write to one of the two error registers clears it.
unfoldable pub write : ℕ → ℕ → Ri → Ri
write offset value r =
    if reg_of offset == 0x00
    then record r { mode = value }
    else if reg_of offset == 0x04
    then record r { config = value }
    else if reg_of offset == 0x08
    then record r { current_load = value }
    else if reg_of offset == 0x0c
    then record r { select = value }
    else if reg_of offset == 0x10
    then record r { refresh = value }
    else if reg_of offset == 0x14
    then record r { latency = value }
    else if reg_of offset == 0x18
    then record r { rerror = 0 }
    else record r { werror = 0 }
