-- ===== src/Cpu/Fn.antt =====
-- src/cpu/cpu.cpp: the functions of SPECIAL, `FN_…`.
use Prim.Native.Nat.{ℕ}

abbrev pub sll : ℕ
sll = 0x00

abbrev pub srl : ℕ
srl = 0x02

abbrev pub sra : ℕ
sra = 0x03

abbrev pub sllv : ℕ
sllv = 0x04

abbrev pub srlv : ℕ
srlv = 0x06

abbrev pub srav : ℕ
srav = 0x07

abbrev pub jr : ℕ
jr = 0x08

abbrev pub jalr : ℕ
jalr = 0x09

abbrev pub syscall : ℕ
syscall = 0x0c

abbrev pub break : ℕ
break = 0x0d

abbrev pub sync : ℕ
sync = 0x0f

abbrev pub mfhi : ℕ
mfhi = 0x10

abbrev pub mthi : ℕ
mthi = 0x11

abbrev pub mflo : ℕ
mflo = 0x12

abbrev pub mtlo : ℕ
mtlo = 0x13

abbrev pub dsllv : ℕ
dsllv = 0x14

abbrev pub dsrlv : ℕ
dsrlv = 0x16

abbrev pub dsrav : ℕ
dsrav = 0x17

abbrev pub mult : ℕ
mult = 0x18

abbrev pub multu : ℕ
multu = 0x19

abbrev pub div : ℕ
div = 0x1a

abbrev pub divu : ℕ
divu = 0x1b

abbrev pub dmult : ℕ
dmult = 0x1c

abbrev pub dmultu : ℕ
dmultu = 0x1d

abbrev pub ddiv : ℕ
ddiv = 0x1e

abbrev pub ddivu : ℕ
ddivu = 0x1f

abbrev pub add : ℕ
add = 0x20

abbrev pub addu : ℕ
addu = 0x21

abbrev pub sub : ℕ
sub = 0x22

abbrev pub subu : ℕ
subu = 0x23

abbrev pub and : ℕ
and = 0x24

abbrev pub or : ℕ
or = 0x25

abbrev pub xor : ℕ
xor = 0x26

abbrev pub nor : ℕ
nor = 0x27

abbrev pub slt : ℕ
slt = 0x2a

abbrev pub sltu : ℕ
sltu = 0x2b

abbrev pub dadd : ℕ
dadd = 0x2c

abbrev pub daddu : ℕ
daddu = 0x2d

abbrev pub dsub : ℕ
dsub = 0x2e

abbrev pub dsubu : ℕ
dsubu = 0x2f

abbrev pub tge : ℕ
tge = 0x30

abbrev pub tgeu : ℕ
tgeu = 0x31

abbrev pub tlt : ℕ
tlt = 0x32

abbrev pub tltu : ℕ
tltu = 0x33

abbrev pub teq : ℕ
teq = 0x34

abbrev pub tne : ℕ
tne = 0x36

abbrev pub dsll : ℕ
dsll = 0x38

abbrev pub dsrl : ℕ
dsrl = 0x3a

abbrev pub dsra : ℕ
dsra = 0x3b

abbrev pub dsll32 : ℕ
dsll32 = 0x3c

abbrev pub dsrl32 : ℕ
dsrl32 = 0x3e

abbrev pub dsra32 : ℕ
dsra32 = 0x3f
