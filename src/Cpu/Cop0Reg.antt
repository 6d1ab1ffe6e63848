-- ===== src/Cpu/Cop0Reg.antt =====
-- include/n64/cpu/cpu.hpp: the numbers of the COP0 registers, `namespace Cop0Reg`.
use Prim.Native.Nat.{ℕ}

abbrev pub index : ℕ
index = 0

abbrev pub random : ℕ
random = 1

abbrev pub entry_lo0 : ℕ
entry_lo0 = 2

abbrev pub entry_lo1 : ℕ
entry_lo1 = 3

abbrev pub context : ℕ
context = 4

abbrev pub page_mask : ℕ
page_mask = 5

abbrev pub wired : ℕ
wired = 6

abbrev pub bad_vaddr : ℕ
bad_vaddr = 8

abbrev pub count : ℕ
count = 9

abbrev pub entry_hi : ℕ
entry_hi = 10

abbrev pub compare_reg : ℕ
compare_reg = 11

abbrev pub status : ℕ
status = 12

abbrev pub cause : ℕ
cause = 13

abbrev pub epc : ℕ
epc = 14

abbrev pub prid : ℕ
prid = 15

abbrev pub config : ℕ
config = 16

abbrev pub error_epc : ℕ
error_epc = 30
