-- ===== src/Cpu/ExcCode.antt =====
-- include/n64/cpu/cpu.hpp: the exception codes that the modelled code raises, `namespace ExcCode`.
use Prim.Native.Nat.{ℕ}

abbrev pub int : ℕ
int = 0

abbrev pub mod_code : ℕ
mod_code = 1

abbrev pub tlbl : ℕ
tlbl = 2

abbrev pub tlbs : ℕ
tlbs = 3

abbrev pub adel : ℕ
adel = 4

abbrev pub ades : ℕ
ades = 5

abbrev pub sys : ℕ
sys = 8

abbrev pub bp : ℕ
bp = 9

abbrev pub ri : ℕ
ri = 10

abbrev pub cpu_unusable : ℕ
cpu_unusable = 11

abbrev pub ov : ℕ
ov = 12

abbrev pub tr : ℕ
tr = 13

abbrev pub fpe : ℕ
fpe = 15
