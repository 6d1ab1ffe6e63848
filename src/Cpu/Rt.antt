-- ===== src/Cpu/Rt.antt =====
-- src/cpu/cpu.cpp: the codes of REGIMM, `RT_…`.
use Prim.Native.Nat.{ℕ}

abbrev pub bltz : ℕ
bltz = 0x00

abbrev pub bgez : ℕ
bgez = 0x01

abbrev pub bltzl : ℕ
bltzl = 0x02

abbrev pub bgezl : ℕ
bgezl = 0x03

abbrev pub tgei : ℕ
tgei = 0x08

abbrev pub tgeiu : ℕ
tgeiu = 0x09

abbrev pub tlti : ℕ
tlti = 0x0a

abbrev pub tltiu : ℕ
tltiu = 0x0b

abbrev pub teqi : ℕ
teqi = 0x0c

abbrev pub tnei : ℕ
tnei = 0x0e

abbrev pub bltzal : ℕ
bltzal = 0x10

abbrev pub bgezal : ℕ
bgezal = 0x11

abbrev pub bltzall : ℕ
bltzall = 0x12

abbrev pub bgezall : ℕ
bgezall = 0x13
