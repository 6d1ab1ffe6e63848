-- ===== src/Cpu/Op.antt =====
-- src/cpu/cpu.cpp: the major opcodes, `OP_…`.
use Prim.Native.Nat.{ℕ}

abbrev pub special : ℕ
special = 0x00

abbrev pub regimm : ℕ
regimm = 0x01

abbrev pub j : ℕ
j = 0x02

abbrev pub jal : ℕ
jal = 0x03

abbrev pub beq : ℕ
beq = 0x04

abbrev pub bne : ℕ
bne = 0x05

abbrev pub blez : ℕ
blez = 0x06

abbrev pub bgtz : ℕ
bgtz = 0x07

abbrev pub addi : ℕ
addi = 0x08

abbrev pub addiu : ℕ
addiu = 0x09

abbrev pub slti : ℕ
slti = 0x0a

abbrev pub sltiu : ℕ
sltiu = 0x0b

abbrev pub andi : ℕ
andi = 0x0c

abbrev pub ori : ℕ
ori = 0x0d

abbrev pub xori : ℕ
xori = 0x0e

abbrev pub lui : ℕ
lui = 0x0f

abbrev pub cop0 : ℕ
cop0 = 0x10

abbrev pub cop1 : ℕ
cop1 = 0x11

abbrev pub cop2 : ℕ
cop2 = 0x12

abbrev pub beql : ℕ
beql = 0x14

abbrev pub bnel : ℕ
bnel = 0x15

abbrev pub blezl : ℕ
blezl = 0x16

abbrev pub bgtzl : ℕ
bgtzl = 0x17

abbrev pub daddi : ℕ
daddi = 0x18

abbrev pub daddiu : ℕ
daddiu = 0x19

abbrev pub ldl : ℕ
ldl = 0x1a

abbrev pub ldr : ℕ
ldr = 0x1b

abbrev pub lb : ℕ
lb = 0x20

abbrev pub lh : ℕ
lh = 0x21

abbrev pub lwl : ℕ
lwl = 0x22

abbrev pub lw : ℕ
lw = 0x23

abbrev pub lbu : ℕ
lbu = 0x24

abbrev pub lhu : ℕ
lhu = 0x25

abbrev pub lwr : ℕ
lwr = 0x26

abbrev pub lwu : ℕ
lwu = 0x27

abbrev pub sb : ℕ
sb = 0x28

abbrev pub sh : ℕ
sh = 0x29

abbrev pub swl : ℕ
swl = 0x2a

abbrev pub sw : ℕ
sw = 0x2b

abbrev pub sdl : ℕ
sdl = 0x2c

abbrev pub sdr : ℕ
sdr = 0x2d

abbrev pub swr : ℕ
swr = 0x2e

abbrev pub cache : ℕ
cache = 0x2f

abbrev pub ll : ℕ
ll = 0x30

abbrev pub lwc1 : ℕ
lwc1 = 0x31

abbrev pub lld : ℕ
lld = 0x34

abbrev pub ldc1 : ℕ
ldc1 = 0x35

abbrev pub ld : ℕ
ld = 0x37

abbrev pub sc : ℕ
sc = 0x38

abbrev pub swc1 : ℕ
swc1 = 0x39

abbrev pub scd : ℕ
scd = 0x3c

abbrev pub sdc1 : ℕ
sdc1 = 0x3d

abbrev pub sd : ℕ
sd = 0x3f
